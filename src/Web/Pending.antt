-- ===== src/Web/Pending.antt =====
-- The rollback guard of balena/network-config/internal/web/pending.go. A pointer to a pending change
-- is its number: `armPending` makes a new one each time. NetworkManager's `Restore` is a parameter.
use nf_sdk.Base.{
  ℕ, ◌+◌, Bool, false, not, ◌&&◌, ◌==◌, ltb, Option, none, some, List, ◌∷◌, Text, text_eq, is_empty,
  if◌then◌else◌,
}

-- `confirmWindow`, in nanoseconds
abbrev pub confirm_window : ℕ
confirm_window = 90000000000

pub record Change (S : Type 0) : Type 0 where
  pub id : ℕ
  pub iface : Text
  pub snapshot : S
  pub deadline : ℕ
  pub token : Text

-- How a change ends, and the calls of `Restore`.
pub data Event (S : Type 0) : Type 0 where
  superseded confirmed taken_back expired : ℕ → Event S
  restored : S → Event S

-- The part of `App` that the guard uses; `watchers` are the goroutines that were started, cancelled
-- or not, and `trace` is newest first.
pub record Guard (S : Type 0) : Type 0 where
  pub pending : Option (Change S)
  pub watchers : List (Change S)
  pub next_id : ℕ
  pub trace : List (Event S)

pub data Answer : Type 0 where
  fine nothing_pending other_change no_manager not_restored : Answer

module _ {S : Type 0} (nm : Option (S → Bool)) where
  abbrev supersede : Option (Change S) → List (Event S) → List (Event S)
  supersede none t = t
  supersede (some old) t = superseded old.id ∷ t

  -- `armPending`, given a fresh token
  unfoldable pub arm : ℕ → Text → Text → S → Guard S → Guard S
  arm now token iface snapshot g =
      let pc : Change S = record {
        id = g.next_id;
        iface = iface;
        snapshot = snapshot;
        deadline = now + confirm_window;
        token = token;
      } in
      record {
        pending = some pc;
        watchers = pc ∷ g.watchers;
        next_id = g.next_id + 1;
        trace = supersede g.pending g.trace;
      }

  unfoldable pub is_pending : Change S → Option (Change S) → Bool
  is_pending pc none = false
  is_pending pc (some p) = p.id == pc.id

  -- `a.nm.Restore`, where there is a manager.
  unfoldable pub restore : S → Guard S → Answer × Guard S
  restore snapshot g = elim nm [
    | none ↦ (no_manager, g)
    | some run ↦ (
      if run snapshot then fine else not_restored,
      record g { trace = restored snapshot ∷ g.trace },
    )
  ]

  -- `watchPending` from the moment its timer has run out; a goroutine that was cancelled as well may
  -- take this branch too.
  unfoldable pub expire : Change S → Guard S → Guard S
  unfolding is_pending restore
  expire pc g =
      if is_pending pc g.pending
      then (restore pc.snapshot (record g { pending = none; trace = expired pc.id ∷ g.trace })).1
      else g

  -- `currentPending`
  unfoldable pub current : ℕ → Guard S → Option (Change S)
  current now g = elim g.pending [
    | none ↦ none
    | some pc ↦ if ltb pc.deadline now then none else some pc
  ]

  -- `confirmPending`
  unfoldable pub confirm : Text → Guard S → Answer × Guard S
  confirm token g = elim g.pending [
    | none ↦ (nothing_pending, g)
    | some pc ↦
        if not (is_empty token) && not (text_eq token pc.token)
        then (other_change, g)
        else (fine, record g { pending = none; trace = confirmed pc.id ∷ g.trace })
  ]

  -- `revertPending`
  unfoldable pub revert : Guard S → Answer × Guard S
  unfolding restore
  revert g = elim g.pending [
    | none ↦ (nothing_pending, g)
    | some pc ↦
        restore pc.snapshot (record g { pending = none; trace = taken_back pc.id ∷ g.trace })
  ]
