-- ===== src/Watchdog/Triple.antt =====
-- Rules for what the parts of a pass keep. `I` speaks of the state that is held and of the trace. It
-- is steady if log entries, writes of the state and the settling of an interrupted change keep it;
-- then every step of a pass keeps it, up to the call of the Supervisor.
use nf_sdk.Base.{
  ◌≡◌, refl, Bool, true, false, Option, none, some, List, [], ◌∷◌, ◌++◌, ◌⊎◌, if◌then◌else◌,
}
use nf_sdk.Store.State.{State, Intent, trim_changes}
use nf_sdk.Supervisor.Api.{Api}
use nf_sdk.Watchdog.World.{
  World, Pass, Exit, done, next, Outcome, Deps, Event, Level, Note, noted, saved, Candidate, Target,
  pure, finish, gets, ◌>>=◌, proceed, update, note, get_proxy, probe,
}

-- A change of the state that has nothing to do with proxy changes, but that it may forget them.
pub record IsFrame (fn : State → State) : Type 0 where
  pub pending : (s : State) → (fn s).pending ≡ s.pending
  pub last_change_at : (s : State) → (fn s).last_change_at ≡ s.last_change_at
  pub changes : (s : State) → ((fn s).changes ≡ s.changes) ⊎ ((fn s).changes ≡ [])

-- A change of the state that settles an intent.
pub record Settles (i : Intent) (fn : State → State) : Type 0 where
  pub pending : (s : State) → (fn s).pending ≡ none
  pub last_change_at : (s : State) → (fn s).last_change_at ≡ i.at
  -- the change is recorded, or it is forgotten
  pub changes :
      (s : State)
      → ((fn s).changes ≡ trim_changes (s.changes ++ i.at ∷ []) i.at) ⊎ ((fn s).changes ≡ s.changes)

pub record IsSteady (I : State → List Event → Type 0) : Type 0 where
  pub noted : (l : Level) (n : Note) (s : State) (es : List Event) → I s es → I s (noted l n ∷ es)
  pub framed :
      (fn : State → State)
      → IsFrame fn
      → (b : Bool) (s : State) (es : List Event) → I s es
      → I (fn s) (saved b (fn s) ∷ es)
  pub settled :
      (i : Intent) (fn : State → State)
      → Settles i fn
      → (b : Bool) (s : State) (es : List Event) → s.pending ≡ some i
      → I s es
      → I (fn s) (saved b (fn s) ∷ es)

abbrev pub On : {H : Type 0} → (State → List Event → Type 0) → World H → Type 0
On I w = I w.state w.trace

module _ {H A : Type 0} where
  -- `m` keeps `I`, whether it goes on or ends the pass.
  pub record Keeps (I : State → List Event → Type 0) (m : Pass H A) : Type 0 where
    pub at : (w : World H) → On I w → On I (m w).1

module _ {H A : Type 0} {I : State → List Event → Type 0} where
  pub Keeps-pure : (a : A) → Keeps {H = H} I (pure a)
  unfolding pure
  Keeps-pure a = record { at = λ w h. h }

  pub Keeps-finish : (o : Outcome) → Keeps {H = H} {A = A} I (finish o)
  unfolding finish
  Keeps-finish o = record { at = λ w h. h }

  pub Keeps-gets : (f : World H → A) → Keeps I (gets f)
  unfolding gets
  Keeps-gets f = record { at = λ w h. h }

  pub Keeps-if : (b : Bool) (m n : Pass H A) → Keeps I m → Keeps I n → Keeps I (if b then m else n)
  Keeps-if true m n k l = k
  Keeps-if false m n k l = l

module _ {H A B : Type 0} {I : State → List Event → Type 0} where
  proceed-Keeps :
      (r : Exit A) (f : A → Pass H B)
      → ((a : A) → Keeps I (f a))
      → (w : World H) → On I w
      → On I (proceed r f w).1
  proceed-Keeps (done o) f k w h = h
  proceed-Keeps (next a) f k w h = (k a).at w h

  pub Keeps-bind :
      (m : Pass H A) (f : A → Pass H B) → Keeps I m → ((a : A) → Keeps I (f a)) → Keeps I (m >>= f)
  unfolding ◌>>=◌
  Keeps-bind m f k l = record { at = λ w h. let (r, w') = m w in proceed-Keeps r f l w' (k.at w h) }

  -- `I` may be established by the first part alone.
  pub bind-Keeps :
      (m : Pass H A) (f : A → Pass H B) (w : World H)
      → On I (m w).1
      → ((a : A) → Keeps I (f a))
      → On I ((m >>= f) w).1
  unfolding ◌>>=◌
  bind-Keeps m f w h k = proceed-Keeps (m w).0 f k (m w).1 h

module _ {H : Type 0} {I : State → List Event → Type 0} where
  pub Keeps-get_proxy : (api : Api H) → Keeps I (get_proxy api)
  unfolding get_proxy
  Keeps-get_proxy api = record { at = λ w h. h }

  pub Keeps-probe : (deps : Deps H) (c : Option Candidate) (t : Target) → Keeps I (probe deps c t)
  unfolding probe
  Keeps-probe deps c t = record { at = λ w h. h }

  module _ (steady : IsSteady I) where
    pub Keeps-note : (l : Level) (n : Note) → Keeps {H = H} I (note l n)
    unfolding note
    Keeps-note l n = record { at = λ w h. steady.noted l n w.state w.trace h }

    pub Keeps-update : (deps : Deps H) (fn : State → State) → IsFrame fn → Keeps I (update deps fn)
    unfolding update
    Keeps-update deps fn frame = record { at = λ w h. steady.framed fn frame _ w.state w.trace h }

pub ruleset keeps_rules = (
  Keeps-pure, Keeps-finish, Keeps-gets, Keeps-if, Keeps-bind, Keeps-get_proxy, Keeps-probe,
  Keeps-note, Keeps-update,
)

-- What holds after a bind, from its two ways on.
pub bind_post :
    {H A B : Type 0} (P : World H → Type 0) (m : Pass H A) (f : A → Pass H B) (w : World H)
    → ((o : Outcome) → (m w).0 ≡ done o → P (m w).1)
    → ((a : A) → (m w).0 ≡ next a → P (f a (m w).1).1)
    → P ((m >>= f) w).1
unfolding ◌>>=◌
bind_post {H} {A} {B} P m f w ended went = go (m w).0 refl
  where
    go : (r : Exit A) → (m w).0 ≡ r → P (proceed (m w).0 f (m w).1).1
    go (done o) e = rw e (ended o e)
    go (next a) e = rw e (went a e)
