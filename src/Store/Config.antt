-- ===== src/Store/Config.antt =====
-- Operator intent: balena/network-config/internal/store/config.go. `int` fields are signed, a
-- `time.Time` is the number of nanoseconds since Go's zero time.
use nf_sdk.Base.{
  ℕ, ℤ, pos, ltb_ℤ, Bool, true, false, Option, none, some, List, [], Text, codes, is_empty,
  trim_space, if◌then◌else◌,
}

pub data Mode : Type 0 where
  off static fallback dynamic : Mode
  unknown : Text → Mode

unfoldable pub is_valid_mode : Mode → Bool
is_valid_mode (unknown m) = false
is_valid_mode _ = true

pub record ProxyConfig : Type 0 where
  pub mode : Mode
  pub type : Text
  pub ip : Text
  pub port : ℤ
  pub login : Text
  pub password : Text
  pub no_proxy : List Text
  pub dns : Text

-- `ProxyConfig{Mode: m}`
abbrev pub no_proxy_config : Mode → ProxyConfig
no_proxy_config m = record {
  mode = m;
  type = [];
  ip = [];
  port = pos 0;
  login = [];
  password = [];
  no_proxy = [];
  dns = [];
}

pub record WatchdogConfig : Type 0 where
  pub grace_minutes : ℤ
  pub required_passes : ℤ
  pub required_failures : ℤ
  pub min_dwell_minutes : ℤ
  pub max_changes_per_hour : ℤ
  pub interval_seconds : ℤ
  pub probe_target : Text
  pub auto_reboot : Bool
  pub force : Bool

abbrev pub default_watchdog : WatchdogConfig
default_watchdog = record {
  grace_minutes = pos 10;
  required_passes = pos 2;
  required_failures = pos 3;
  min_dwell_minutes = pos 10;
  max_changes_per_hour = pos 4;
  interval_seconds = pos 60;
  probe_target = codes "api.balena-cloud.com:443";
  auto_reboot = false;
  force = false;
}

abbrev pub at_least : ℕ → ℤ → ℤ → ℤ
at_least n default v = if ltb_ℤ v (pos n) then default else v

-- `WatchdogConfig.Normalize`
unfoldable pub normalize : WatchdogConfig → WatchdogConfig
normalize w = record w {
  grace_minutes = at_least 1 default_watchdog.grace_minutes w.grace_minutes;
  required_passes = at_least 1 default_watchdog.required_passes w.required_passes;
  required_failures = at_least 1 default_watchdog.required_failures w.required_failures;
  min_dwell_minutes = at_least 1 default_watchdog.min_dwell_minutes w.min_dwell_minutes;
  max_changes_per_hour = at_least 1 default_watchdog.max_changes_per_hour w.max_changes_per_hour;
  interval_seconds = at_least 10 default_watchdog.interval_seconds w.interval_seconds;
  probe_target =
      if is_empty (trim_space w.probe_target)
      then default_watchdog.probe_target
      else w.probe_target;
}

-- `Auth` of store/auth.go
pub record Auth : Type 0 where
  pub username : Text
  pub hash : List ℕ
  pub must_change : Bool
  pub session_key : Text
  pub changed_at : ℕ

abbrev pub no_auth : Auth
no_auth = record { username = []; hash = []; must_change = false; session_key = []; changed_at = 0 }

pub record Config : Type 0 where
  pub proxy : ProxyConfig
  pub watchdog : WatchdogConfig
  pub auth : Auth
  pub updated_at : ℕ

-- What reading and decoding a file gives.
pub data Loaded (A : Type 0) : Type 0 where
  missing unreadable malformed : Loaded A
  parsed : A → Loaded A

abbrev pub initial_config : Config
initial_config = record {
  proxy = no_proxy_config off;
  watchdog = default_watchdog;
  auth = no_auth;
  updated_at = 0;
}

-- The last lines of `Open`.
unfoldable pub sanitize : Config → Config
unfolding normalize is_valid_mode
sanitize c = record c {
  proxy = if is_valid_mode c.proxy.mode then c.proxy else record c.proxy { mode = off };
  watchdog = normalize c.watchdog;
}

-- `Open`, after the directory was made: the configuration, or no store. `written` is whether the
-- defaults of a first run could be saved.
unfoldable pub open_config : Loaded Config → Bool → Option Config
unfolding sanitize
open_config missing written = if written then some (sanitize initial_config) else none
open_config unreadable written = none
open_config malformed written = none
open_config (parsed c) written = some (sanitize c)

-- `Store.Update`: the configuration that is held and that `write` is given.
unfoldable pub update_config : (Config → Config) → ℕ → Config → Config
unfolding normalize
update_config fn now c =
    let c' = fn c in record c' { watchdog = normalize c'.watchdog; updated_at = now }
