-- ===== src/Web/Rollback.antt =====
-- The guard over any sequence of requests and timers.
use nf_sdk.Base.{
  is_empty, text_eq, ℕ, ◌+◌, ◌<◌, ◌≡◌, ◌≢◌, refl, Bool, not, ◌&&◌, ◌==◌, ==_iff, Option, none, some,
  List, [], ◌∷◌, Text, arith, Bool-cases, Option-cases, inl, inr, All,
}
use nf_sdk.Web.Pending.{
  Change, Event, superseded, confirmed, taken_back, expired, restored, Guard, arm, expire, confirm,
  revert, restore, is_pending,
}

abbrev pub initial : {S : Type 0} → Guard S
initial = record { pending = none; watchers = []; next_id = 0; trace = [] }

abbrev pub NotIn : ℕ → List ℕ → Type 0
NotIn i [] = Unit
NotIn i (j ∷ js) = (i ≢ j) × NotIn i js

abbrev pub AllApart : List ℕ → Type 0
AllApart [] = Unit
AllApart (i ∷ is) = NotIn i is × AllApart is

abbrev pub IsBelow : ℕ → List ℕ → Type 0
IsBelow n is = All (λ i. i < n) is

fresh-NotIn : (n : ℕ) (is : List ℕ) → IsBelow n is → NotIn n is
fresh-NotIn n [] h = tt
fresh-NotIn n (i ∷ is) h = (λ e. absurd (omega (arith, h.0, e)), fresh-NotIn n is h.1)

IsBelow-suc : (n : ℕ) (is : List ℕ) → IsBelow n is → IsBelow (n + 1) is
IsBelow-suc n [] h = tt
IsBelow-suc n (i ∷ is) h = (omega (arith, h.0), IsBelow-suc n is h.1)

module _ {S : Type 0} where
  -- The changes that have ended.
  abbrev pub ended : List (Event S) → List ℕ
  ended [] = []
  ended (superseded i ∷ t) = i ∷ ended t
  ended (confirmed i ∷ t) = i ∷ ended t
  ended (taken_back i ∷ t) = i ∷ ended t
  ended (expired i ∷ t) = i ∷ ended t
  ended (restored s ∷ t) = ended t

  -- A pending change has not ended.
  abbrev pub IsOpen : Option (Change S) → ℕ → List ℕ → Type 0
  IsOpen none n is = Unit
  IsOpen (some pc) n is = (pc.id < n) × NotIn pc.id is

  pub record Inv (o : Option (Change S)) (n : ℕ) (is : List ℕ) : Type 0 where
    pub is_open : IsOpen o n is
    pub below : IsBelow n is
    pub apart : AllApart is

  abbrev pub InvOn : Guard S → Type 0
  InvOn g = Inv g.pending g.next_id (ended g.trace)

  closed-Inv : (pc : Change S) (n : ℕ) (is : List ℕ) → Inv (some pc) n is → Inv none n (pc.id ∷ is)
  closed-Inv pc n is h = record {
    is_open = tt;
    below = (h.is_open.0, h.below);
    apart = (h.is_open.1, h.apart);
  }

  opened-Inv :
      (pc : Change S) (n : ℕ) (is : List ℕ) → pc.id ≡ n → Inv none n is → Inv (some pc) (n + 1) is
  opened-Inv pc n is e h = record {
    is_open = rw e (omega arith, fresh-NotIn n is h.below);
    below = IsBelow-suc n is h.below;
    apart = h.apart;
  }

module _ {S : Type 0} (nm : Option (S → Bool)) where
  -- The guards that requests and timers lead to. A watcher may wake at any time, which is more than
  -- the code allows.
  pub data Reaches : Guard S → Type 0 where
    start : Reaches initial
    armed :
        {g : Guard S}
        → Reaches g
        → (now : ℕ) (token iface : Text) (s : S) → Reaches (arm nm now token iface s g)
    woken : {g : Guard S} → Reaches g → (pc : Change S) → Reaches (expire nm pc g)
    confirming : {g : Guard S} → Reaches g → (token : Text) → Reaches (confirm nm token g).1
    reverting : {g : Guard S} → Reaches g → Reaches (revert nm g).1

  arm-InvOn :
      (now : ℕ) (token iface : Text) (s : S) (o : Option (Change S)) (ws : List (Change S)) (n : ℕ)
      (t : List (Event S))
      → Inv o n (ended t)
      → InvOn
          (arm nm now token iface s (record { pending = o; watchers = ws; next_id = n; trace = t }))
  unfolding arm
  arm-InvOn now token iface s none ws n t h = opened-Inv _ n (ended t) refl h
  arm-InvOn now token iface s (some old) ws n t h =
      opened-Inv _ n (old.id ∷ ended t) refl (closed-Inv old n (ended t) h)

  restore-InvOn : (s : S) (g : Guard S) → InvOn g → InvOn (restore nm s g).1
  unfolding restore
  restore-InvOn s g h = elim (Option-cases nm) [ inl off ↦ rw off h | inr (run, on) ↦ rw on h ]

  expire-InvOn :
      (pc : Change S) (o : Option (Change S)) (ws : List (Change S)) (n : ℕ) (t : List (Event S))
      → Inv o n (ended t)
      → InvOn (expire nm pc (record { pending = o; watchers = ws; next_id = n; trace = t }))
  unfolding expire is_pending
  expire-InvOn pc none ws n t h = h
  expire-InvOn pc (some p) ws n t h = elim (Bool-cases (p.id == pc.id)) [
    | inl same ↦ rw same (
        restore-InvOn pc.snapshot _
          (rw ((==_iff p.id pc.id).0 same) at (closed-Inv p n (ended t) h)))
    | inr differs ↦ rw differs h
  ]

  confirm-InvOn :
      (token : Text) (o : Option (Change S)) (ws : List (Change S)) (n : ℕ) (t : List (Event S))
      → Inv o n (ended t)
      → InvOn (confirm nm token (record { pending = o; watchers = ws; next_id = n; trace = t })).1
  unfolding confirm
  confirm-InvOn token none ws n t h = h
  confirm-InvOn token (some p) ws n t h =
      elim (Bool-cases (not (is_empty token) && not (text_eq token p.token))) [
        | inl wrong ↦ rw wrong h
        | inr right ↦ rw right (closed-Inv p n (ended t) h)
      ]

  revert-InvOn :
      (o : Option (Change S)) (ws : List (Change S)) (n : ℕ) (t : List (Event S))
      → Inv o n (ended t)
      → InvOn (revert nm (record { pending = o; watchers = ws; next_id = n; trace = t })).1
  unfolding revert
  revert-InvOn none ws n t h = h
  revert-InvOn (some p) ws n t h = restore-InvOn p.snapshot _ (closed-Inv p n (ended t) h)

  Reaches-InvOn : {g : Guard S} → Reaches g → InvOn g
  Reaches-InvOn start = record { is_open = tt; below = tt; apart = tt }
  Reaches-InvOn (armed {g} r now token iface s) =
      arm-InvOn now token iface s g.pending g.watchers g.next_id g.trace (Reaches-InvOn r)
  Reaches-InvOn (woken {g} r pc) =
      expire-InvOn pc g.pending g.watchers g.next_id g.trace (Reaches-InvOn r)
  Reaches-InvOn (confirming {g} r token) =
      confirm-InvOn token g.pending g.watchers g.next_id g.trace (Reaches-InvOn r)
  Reaches-InvOn (reverting {g} r) =
      revert-InvOn g.pending g.watchers g.next_id g.trace (Reaches-InvOn r)

  -- Whatever the order of requests and timers, each change ends at most once: it is confirmed, or
  -- taken back, or it expires, or it is superseded.
  pub Reaches-AllApart : {g : Guard S} → Reaches g → AllApart (ended g.trace)
  Reaches-AllApart r = (Reaches-InvOn r).apart

  ended_quiet :
      (pc : Change S) (o : Option (Change S)) (ws : List (Change S)) (n : ℕ) (t : List (Event S))
      → Inv o n (ended t)
      → ¬ NotIn pc.id (ended t)
      → expire nm pc (record { pending = o; watchers = ws; next_id = n; trace = t })
        ≡ record { pending = o; watchers = ws; next_id = n; trace = t }
  unfolding expire is_pending
  ended_quiet pc none ws n t h gone = refl
  ended_quiet pc (some p) ws n t h gone = elim (Bool-cases (p.id == pc.id)) [
    | inl same ↦ absurd (gone (rw ((==_iff p.id pc.id).0 same) at h.is_open.1))
    | inr differs ↦ rw differs refl
  ]

  -- A timer that runs out after its change ended does nothing: a change that was confirmed stays.
  pub expire-ended :
      {g : Guard S}
      → Reaches g
      → (pc : Change S) → ¬ NotIn pc.id (ended g.trace)
      → expire nm pc g ≡ g
  expire-ended {g} r pc gone =
      ended_quiet pc g.pending g.watchers g.next_id g.trace (Reaches-InvOn r) gone
