-- ===== src/Store/State.antt =====
-- The watchdog's memory: balena/network-config/internal/store/state.go. The texts that are only
-- shown to an operator are kept as the values they are printed from.
use nf_sdk.Base.{
  ℕ, ◌+◌, ◌*◌, ◌^◌, Bool, false, List, [], ◌∷◌, ◌++◌, Option, none, some, Text, ltb, length,
  if◌then◌else◌, ℤ,
}
use nf_sdk.Store.Config.{Loaded, missing, unreadable, malformed, parsed}

-- What one pass did, or what an intent is about.
pub data Action : Type 0 where
  nothing set clear deferred freeze adopt : Action

-- The reason texts of the watchdog, by what is printed in them.
pub data Reason : Type 0 where
  blank unavailable could_not_read recovering mode_off mode_static unknown_mode : Reason
  fallback_confirmed fallback_cleared fallback_applying fallback_connected : Reason
  fallback_no_uptime : Reason
  fallback_within_grace : ℤ → ℤ → Reason
  fallback_gave_up : ℤ → Reason
  dynamic_unconfigured : Reason
  dynamic_passed : ℕ → Text → Reason
  dynamic_passes_needed : ℕ → ℤ → Reason
  dynamic_direct_works : ℕ → Text → Reason
  dynamic_both_down : ℕ → Text → Reason
  dynamic_failures_needed : ℕ → ℤ → Text → Reason
  waiting : Reason → ℤ → ℤ → Reason
  flap_limit : ℕ → ℤ → Reason
  intent_not_recorded : Reason

pub record Intent : Type 0 where
  pub action : Action
  pub fingerprint : Text
  pub at : ℕ

pub data FallbackOutcome : Type 0 where
  undecided confirmed cleared : FallbackOutcome

pub record State : Type 0 where
  pub boot_id : Text
  pub applied : Text
  pub last_change_at : ℕ
  pub changes : List ℕ
  pub frozen : Bool
  pub freeze_reason : Reason
  pub frozen_at : ℕ
  pub fallback_outcome : FallbackOutcome
  pub passes : ℕ
  pub failures : ℕ
  pub pending : Option Intent
  pub last_error : Option Text
  pub last_run_at : ℕ
  pub last_probe_ok : Bool

abbrev pub zero_state : State
zero_state = record {
  boot_id = [];
  applied = [];
  last_change_at = 0;
  changes = [];
  frozen = false;
  freeze_reason = blank;
  frozen_at = 0;
  fallback_outcome = undecided;
  passes = 0;
  failures = 0;
  pending = none;
  last_error = none;
  last_run_at = 0;
  last_probe_ok = false;
}

-- `OpenState`: a corrupt file starts clean, with the error noted; `message` is that note.
unfoldable pub open_state : Loaded State → Text → Option State
open_state missing message = some zero_state
open_state unreadable message = none
open_state malformed message = some (record zero_state { last_error = some message })
open_state (parsed st) message = some st

abbrev pub second : ℕ
second = 10 ^ 9

abbrev pub hour : ℕ
hour = 3600 * 10 ^ 9

-- `t.After(now.Add(-time.Hour))`
abbrev pub is_recent : ℕ → ℕ → Bool
is_recent now t = ltb now (t + hour)

unfoldable pub trim_changes : List ℕ → ℕ → List ℕ
trim_changes [] now = []
trim_changes (t ∷ ts) now =
    let rest = trim_changes ts now in if is_recent now t then t ∷ rest else rest

-- The function that `RecordChange` passes to `Update`.
unfoldable pub record_change : ℕ → Text → State → State
record_change now fingerprint st = record st {
  last_change_at = now;
  applied = fingerprint;
  pending = none;
  changes = trim_changes (st.changes ++ now ∷ []) now;
}

unfoldable pub changes_in_last_hour : State → ℕ → ℕ
changes_in_last_hour st now = length (trim_changes st.changes now)
