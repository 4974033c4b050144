-- ===== src/Store/Changes.antt =====
-- The window of changes that the breaker counts: `trimChanges`, `RecordChange` and
-- `ChangesInLastHour` of balena/network-config/internal/store/state.go.
use nf_sdk.Base.{
  ℕ, ◌+◌, ◌≤◌, ◌≡◌, refl, Bool, true, false, List, [], ◌∷◌, ◌++◌, Text, length, arith,
  if◌then◌else◌, ap, length-append, lt→ltb, Bool-cases, inl, inr,
}
use nf_sdk.Store.State.{State, hour, is_recent, trim_changes, record_change, changes_in_last_hour}

trim_changes-append :
    (xs ys : List ℕ) (now : ℕ)
    → trim_changes (xs ++ ys) now ≡ trim_changes xs now ++ trim_changes ys now
unfolding trim_changes
trim_changes-append [] ys now = refl
trim_changes-append (x ∷ xs) ys now = rw (trim_changes-append xs ys now) (prepend (is_recent now x))
  where
    prepend :
        (b : Bool)
        → (if b
            then x ∷ (trim_changes xs now ++ trim_changes ys now)
            else trim_changes xs now ++ trim_changes ys now)
          ≡ (if b then x ∷ trim_changes xs now else trim_changes xs now) ++ trim_changes ys now
    prepend true = refl
    prepend false = refl

recent_earlier :
    (now later t : ℕ) → now ≤ later → is_recent now t ≡ false → is_recent later t ≡ false
recent_earlier now later t h e = ground arith

-- What is dropped at one time would not be counted at a later time.
trim_changes-later :
    (xs : List ℕ) (now later : ℕ)
    → now ≤ later
    → trim_changes (trim_changes xs now) later ≡ trim_changes xs later
unfolding trim_changes
trim_changes-later [] now later h = refl
trim_changes-later (x ∷ xs) now later h = elim (Bool-cases (is_recent now x)) [
  | inl on ↦ rw on (rw (trim_changes-later xs now later h))
  | inr old ↦ rw (old, recent_earlier now later x h old) (trim_changes-later xs now later h)
]

trim_changes-now : (now : ℕ) → trim_changes (now ∷ []) now ≡ now ∷ []
unfolding trim_changes
trim_changes-now now = rw (lt→ltb now (now + hour) (omega arith))

-- A change that is recorded counts at once, and trimming the list then loses nothing that a later
-- count would have had.
pub record_change-counts :
    (now later : ℕ) (fingerprint : Text) (st : State)
    → now ≤ later
    → (changes_in_last_hour (record_change now fingerprint st) now
        ≡ changes_in_last_hour st now + 1)
      × (changes_in_last_hour (record_change now fingerprint st) later
          ≡ length (trim_changes (st.changes ++ now ∷ []) later))
unfolding record_change changes_in_last_hour
record_change-counts now later fingerprint st h = (
  rw
      (
        trim_changes-later (st.changes ++ now ∷ []) now now (omega arith),
        trim_changes-append,
        trim_changes-now,
        length-append,
      )
      (omega arith),
  ap length (trim_changes-later (st.changes ++ now ∷ []) now later h),
)

-- A later count sees no more.
pub trim_changes-antitone :
    (xs : List ℕ) (now later : ℕ)
    → now ≤ later
    → length (trim_changes xs later) ≤ length (trim_changes xs now)
unfolding trim_changes
trim_changes-antitone [] now later h = omega arith
trim_changes-antitone (x ∷ xs) now later h =
    ground (arith, trim_changes-antitone xs now later h, recent_earlier now later x h)

-- One more entry, trimmed when it is made, counts once at most.
pub trim_changes-once :
    (xs : List ℕ) (now later : ℕ)
    → now ≤ later
    → length (trim_changes (trim_changes (xs ++ now ∷ []) now) later)
      ≤ length (trim_changes xs later) + 1
unfolding trim_changes
trim_changes-once xs now later h =
    rw
      (
        trim_changes-later (xs ++ now ∷ []) now later h,
        trim_changes-append xs (now ∷ []) later,
        length-append (trim_changes xs later) (trim_changes (now ∷ []) later),
      )
      (ground arith)
