-- ===== src/Watchdog/Budget.antt =====
-- The changes that the state counts, an open intent included, stay within the limit of an hour.
use nf_sdk.Base.{
  ℕ, ◌+◌, ◌≤◌, ◌≡◌, sym, ap, ◌∙◌, Option, none, some, List, [], ◌∷◌, ◌++◌, length, ◌⊎◌, inl, inr,
  arith,
}
use nf_sdk.Store.State.{State, Intent, trim_changes, changes_in_last_hour}
use nf_sdk.Store.Changes.{trim_changes-once}
use nf_sdk.Watchdog.World.{Event, saved, set_called, clear_called, reboot_called, noted}
use nf_sdk.Watchdog.Triple.{IsSteady}

abbrev pub open_changes : Option Intent → ℕ
open_changes none = 0
open_changes (some i) = 1

-- From the time `c` on, the changes of the last hour and the open intent are `m` at most.
pub record Fits (m c : ℕ) (s : State) : Type 0 where
  pub counted : (t : ℕ) → c ≤ t → changes_in_last_hour s t + open_changes s.pending ≤ m
  pub stamped : (i : Intent) → s.pending ≡ some i → i.at ≤ c

-- So it is in each state that was written.
abbrev pub AllFit : ℕ → ℕ → List Event → Type 0
AllFit m c [] = Unit
AllFit m c (saved b st ∷ es) = Fits m c st × AllFit m c es
AllFit m c (set_called t p ∷ es) = AllFit m c es
AllFit m c (clear_called t ∷ es) = AllFit m c es
AllFit m c (reboot_called ∷ es) = AllFit m c es
AllFit m c (noted l n ∷ es) = AllFit m c es

pub record Budget (m c : ℕ) (s : State) (es : List Event) : Type 0 where
  pub held : Fits m c s
  pub trail : AllFit m c es

pub Fits-later : (m c d : ℕ) (s : State) → c ≤ d → Fits m c s → Fits m d s
Fits-later m c d s h k = record {
  counted = λ t l. k.counted t (omega (arith, h, l));
  stamped = λ i e. omega (arith, k.stamped i e, h);
}

AllFit-later : (m c d : ℕ) (es : List Event) → c ≤ d → AllFit m c es → AllFit m d es
AllFit-later m c d [] h k = tt
AllFit-later m c d (saved b st ∷ es) h k = (Fits-later m c d st h k.0, AllFit-later m c d es h k.1)
AllFit-later m c d (set_called t p ∷ es) h k = AllFit-later m c d es h k
AllFit-later m c d (clear_called t ∷ es) h k = AllFit-later m c d es h k
AllFit-later m c d (reboot_called ∷ es) h k = AllFit-later m c d es h k
AllFit-later m c d (noted l n ∷ es) h k = AllFit-later m c d es h k

pub Budget-later :
    (m c d : ℕ) (s : State) (es : List Event) → c ≤ d → Budget m c s es → Budget m d s es
Budget-later m c d s es h k = record {
  held = Fits-later m c d s h k.held;
  trail = AllFit-later m c d es h k.trail;
}

same_count :
    (s u : State) (t : ℕ)
    → s.changes ≡ u.changes
    → changes_in_last_hour s t ≡ changes_in_last_hour u t
unfolding changes_in_last_hour
same_count s u t e = ap (λ (ts : List ℕ). length (trim_changes ts t)) e

no_count : (s : State) (t : ℕ) → s.changes ≡ [] → changes_in_last_hour s t ≡ 0
unfolding changes_in_last_hour trim_changes
no_count s t e = ap (λ (ts : List ℕ). length (trim_changes ts t)) e

one_more :
    (s u : State) (now t : ℕ)
    → now ≤ t
    → u.changes ≡ trim_changes (s.changes ++ now ∷ []) now
    → changes_in_last_hour u t ≤ changes_in_last_hour s t + 1
unfolding changes_in_last_hour
one_more s u now t h e = rw e (trim_changes-once s.changes now t h)

pub framed-Fits :
    (m c : ℕ) (s u : State)
    → u.pending ≡ s.pending
    → (u.changes ≡ s.changes) ⊎ (u.changes ≡ [])
    → Fits m c s
    → Fits m c u
framed-Fits m c s u p (inl e) h = record {
  counted = λ t l. omega (arith, h.counted t l, same_count u s t e, ap open_changes p);
  stamped = λ i q. h.stamped i (sym p ∙ q);
}
framed-Fits m c s u p (inr e) h = record {
  counted = λ t l. omega (arith, h.counted t l, no_count u t e, ap open_changes p);
  stamped = λ i q. h.stamped i (sym p ∙ q);
}

-- The intent that was open becomes the entry that is recorded.
pub settled-Fits :
    (m c : ℕ) (i : Intent) (s u : State)
    → s.pending ≡ some i
    → u.pending ≡ none
    → (u.changes ≡ trim_changes (s.changes ++ i.at ∷ []) i.at) ⊎ (u.changes ≡ s.changes)
    → Fits m c s
    → Fits m c u
settled-Fits m c i s u p q (inl e) h = record {
  counted = λ t l.
      let old = h.stamped i p in
      omega (
        arith,
        h.counted t l,
        one_more s u i.at t (omega (arith, old, l)) e,
        ap open_changes p,
        ap open_changes q,
      );
  stamped = λ j r. let never : ◌≡◌ {A = Option Intent} none (some j) = sym q ∙ r in absurd (cc);
}
settled-Fits m c i s u p q (inr e) h = record {
  counted =
      λ t l. omega (arith, h.counted t l, same_count u s t e, ap open_changes p, ap open_changes q);
  stamped = λ j r. let never : ◌≡◌ {A = Option Intent} none (some j) = sym q ∙ r in absurd (cc);
}

pub Budget-IsSteady : (m c : ℕ) → IsSteady (Budget m c)
Budget-IsSteady m c = record {
  noted = λ l n s es h. record { held = h.held; trail = h.trail };
  framed = λ fn f b s es h.
      let fits = framed-Fits m c s (fn s) (f.pending s) (f.changes s) h.held in
      record { held = fits; trail = (fits, h.trail) };
  settled = λ i fn f b s es p h.
      let fits = settled-Fits m c i s (fn s) p (f.pending s) (f.changes s) h.held in
      record { held = fits; trail = (fits, h.trail) };
}
