-- ===== src/Store/Bounds.antt =====
-- What the rest of the program may rely on in a configuration: `Normalize`, `Open` and `Update` of
-- balena/network-config/internal/store/config.go.
use nf_sdk.Base.{
  ℕ, ℤ, pos, leb_ℤ, ◌≡◌, refl, Bool, true, false, some, Text, is_empty, trim_space, arith,
  if◌then◌else◌, Bool-cases, inl, inr, subst,
}
use nf_sdk.Store.Config.{
  is_valid_mode, WatchdogConfig, default_watchdog, at_least, normalize, Config, Loaded, missing,
  unreadable, malformed, parsed, initial_config, sanitize, open_config, update_config,
}

-- The settings are positive, a pass is at least 10 seconds after the last, and there is a target.
pub record IsBounded (w : WatchdogConfig) : Type 0 where
  pub grace : leb_ℤ (pos 1) w.grace_minutes ≡ true
  pub passes : leb_ℤ (pos 1) w.required_passes ≡ true
  pub failures : leb_ℤ (pos 1) w.required_failures ≡ true
  pub dwell : leb_ℤ (pos 1) w.min_dwell_minutes ≡ true
  pub changes : leb_ℤ (pos 1) w.max_changes_per_hour ≡ true
  pub interval : leb_ℤ (pos 10) w.interval_seconds ≡ true
  pub target : is_empty (trim_space w.probe_target) ≡ false

at_least-le : (n : ℕ) (d v : ℤ) → leb_ℤ (pos n) d ≡ true → leb_ℤ (pos n) (at_least n d v) ≡ true
at_least-le n d v h = ground arith

at_least_id : (n : ℕ) (d v : ℤ) → leb_ℤ (pos n) v ≡ true → at_least n d v ≡ v
at_least_id n d v h = ground arith

target-kept :
    (default t : Text)
    → is_empty (trim_space default) ≡ false
    → is_empty (trim_space (if is_empty (trim_space t) then default else t)) ≡ false
target-kept default t h = ground arith

default_target : is_empty (trim_space default_watchdog.probe_target) ≡ false
unfolding trim_space
default_target = refl

normalize-IsBounded : (w : WatchdogConfig) → IsBounded (normalize w)
unfolding normalize
normalize-IsBounded w = record {
  grace = at_least-le 1 (pos 10) w.grace_minutes refl;
  passes = at_least-le 1 (pos 2) w.required_passes refl;
  failures = at_least-le 1 (pos 3) w.required_failures refl;
  dwell = at_least-le 1 (pos 10) w.min_dwell_minutes refl;
  changes = at_least-le 1 (pos 4) w.max_changes_per_hour refl;
  interval = at_least-le 10 (pos 60) w.interval_seconds refl;
  target = target-kept default_watchdog.probe_target w.probe_target default_target;
}

-- Settings within the bounds are left as they are.
pub normalize_fixed : (w : WatchdogConfig) → IsBounded w → normalize w ≡ w
unfolding normalize
normalize_fixed w b = rw (
  at_least_id 1 (pos 10) w.grace_minutes b.grace,
  at_least_id 1 (pos 2) w.required_passes b.passes,
  at_least_id 1 (pos 3) w.required_failures b.failures,
  at_least_id 1 (pos 10) w.min_dwell_minutes b.dwell,
  at_least_id 1 (pos 4) w.max_changes_per_hour b.changes,
  at_least_id 10 (pos 60) w.interval_seconds b.interval,
  b.target,
)

-- Normalizing gives settings within the bounds, and normalizing those changes nothing.
pub normalize_sound :
    (w : WatchdogConfig) → IsBounded (normalize w) × (normalize (normalize w) ≡ normalize w)
normalize_sound w = (normalize-IsBounded w, normalize_fixed (normalize w) (normalize-IsBounded w))

sanitize-mode : (c : Config) → is_valid_mode (sanitize c).proxy.mode ≡ true
unfolding sanitize is_valid_mode
sanitize-mode c = elim (Bool-cases (is_valid_mode c.proxy.mode)) [
  | inl on ↦ rw on on
  | inr bad ↦ rw bad refl
]

open_config-sanitized :
    (l : Loaded Config) (written : Bool) (c : Config)
    → open_config l written ≡ some c
    → (d : Config) × (sanitize d ≡ c)
unfolding open_config
open_config-sanitized missing written c h = (initial_config, ground arith)
open_config-sanitized unreadable written c h = ground arith
open_config-sanitized malformed written c h = ground arith
open_config-sanitized (parsed d) written c h = (d, ground arith)

-- Whatever a file holds, a store that opens has a known mode and settings within the bounds.
pub open_config-IsBounded :
    (l : Loaded Config) (written : Bool) (c : Config)
    → open_config l written ≡ some c
    → (is_valid_mode c.proxy.mode ≡ true) × IsBounded c.watchdog
unfolding sanitize
open_config-IsBounded l written c h =
    let (d, e) = open_config-sanitized l written c h in
    subst (λ c. (is_valid_mode c.proxy.mode ≡ true) × IsBounded c.watchdog) e
      (sanitize-mode d, normalize-IsBounded d.watchdog)

-- Whatever a request asks for, the settings that are kept and saved are within the bounds.
pub update_config-IsBounded :
    (fn : Config → Config) (now : ℕ) (c : Config) → IsBounded (update_config fn now c).watchdog
unfolding update_config
update_config-IsBounded fn now c = normalize-IsBounded (fn c).watchdog
