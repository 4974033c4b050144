-- ===== src/Web/Settings.antt =====
-- The proxy page's form: `postProxySettings`, `splitList` and `atoiOr` of
-- balena/network-config/internal/web/mutations.go.
use nf_sdk.Base.{
  fields_func, ℕ, ◌==◌, ltb_ℤ, ℤ, pos, Bool, true, false, not, ◌&&◌, ◌||◌, Option, none, some, List,
  [], Text, codes, text_eq, is_empty, trim_space, if◌then◌else◌,
}
use nf_sdk.Store.Config.{
  Mode, off, static, fallback, dynamic, unknown, is_valid_mode, ProxyConfig, WatchdogConfig, Config,
  update_config,
}
use nf_sdk.Supervisor.Proxy.{is_valid_type}
use nf_sdk.Web.Session.{parse_int}

-- The values that `FormValue` gives.
pub record Form : Type 0 where
  pub mode : Text
  pub type : Text
  pub ip : Text
  pub port : Text
  pub login : Text
  pub password : Text
  pub clear_password : Text
  pub no_proxy : Text
  pub dns : Text
  pub grace_minutes : Text
  pub required_passes : Text
  pub required_failures : Text
  pub min_dwell_minutes : Text
  pub max_changes_per_hour : Text
  pub interval_seconds : Text
  pub probe_target : Text
  pub auto_reboot : Text
  pub force : Text

unfoldable pub mode_of : Text → Mode
mode_of t =
    if text_eq t (codes "off")
    then off
    else if text_eq t (codes "static")
    then static
    else if text_eq t (codes "fallback")
    then fallback
    else if text_eq t (codes "dynamic")
    then dynamic
    else unknown t

abbrev is_separator : ℕ → Bool
is_separator c = c == 44 || c == 10 || c == 13 || c == 32 || c == 9 || c == 59

-- `splitList`
unfoldable pub split_list : Text → List Text
unfolding fields_func
split_list s = fields_func is_separator s

abbrev or_default : ℤ → Option ℤ → ℤ
or_default default none = default
or_default default (some n) = n

-- `atoiOr`
unfoldable pub atoi_or : Text → ℤ → ℤ
unfolding parse_int
atoi_or s default = or_default default (parse_int (trim_space s))

unfoldable pub checked_port : Option ℤ → Option ℤ
checked_port none = none
checked_port (some n) = if ltb_ℤ n (pos 1) || ltb_ℤ (pos 65535) n then none else some n

-- The port of a form, where it is one; an empty field is the port 0.
unfoldable pub port_of : Text → Option ℤ
unfolding checked_port parse_int
port_of v = if is_empty v then some (pos 0) else checked_port (parse_int v)

unfoldable pub is_set : Text → Bool
is_set v = text_eq v (codes "true")

unfoldable pub new_password : Form → Text → Text
unfolding is_set
new_password f old =
    if is_set f.clear_password then [] else if is_empty f.password then old else f.password

abbrev pub proxy_of : Form → Mode → ℤ → ProxyConfig → ProxyConfig
proxy_of f mode port p = record {
  mode = mode;
  type = trim_space f.type;
  ip = trim_space f.ip;
  port = port;
  login = trim_space f.login;
  password = new_password f p.password;
  no_proxy = split_list f.no_proxy;
  dns = trim_space f.dns;
}

abbrev pub watchdog_of : Form → WatchdogConfig → WatchdogConfig
watchdog_of f w = record {
  grace_minutes = atoi_or f.grace_minutes w.grace_minutes;
  required_passes = atoi_or f.required_passes w.required_passes;
  required_failures = atoi_or f.required_failures w.required_failures;
  min_dwell_minutes = atoi_or f.min_dwell_minutes w.min_dwell_minutes;
  max_changes_per_hour = atoi_or f.max_changes_per_hour w.max_changes_per_hour;
  interval_seconds = atoi_or f.interval_seconds w.interval_seconds;
  probe_target =
      if is_empty (trim_space f.probe_target) then w.probe_target else trim_space f.probe_target;
  auto_reboot = text_eq f.auto_reboot (codes "true");
  force = text_eq f.force (codes "true");
}

-- The function that `Update` is given.
abbrev pub settings_of : Form → Mode → ℤ → Config → Config
settings_of f mode port c = record c {
  proxy = proxy_of f mode port c.proxy;
  watchdog = watchdog_of f c.watchdog;
}

pub data Answer : Type 0 where
  invalid_mode invalid_port invalid_type not_saved saved : Answer

abbrev pub is_off : Mode → Bool
is_off off = true
is_off _ = false

unfoldable pub save : Form → Mode → ℤ → ℕ → Bool → Config → Answer × Config
unfolding update_config
save f mode port now written c =
    (if written then saved else not_saved, update_config (settings_of f mode port) now c)

unfoldable pub with_port : Form → Mode → Option ℤ → ℕ → Bool → Config → Answer × Config
unfolding save is_valid_type
with_port f mode none now written c = (invalid_port, c)
with_port f mode (some port) now written c =
    if not (is_off mode) && not (is_valid_type (trim_space f.type))
    then (invalid_type, c)
    else save f mode port now written c

-- `postProxySettings`, with whether `Update` could write the file
unfoldable pub post_proxy_settings : Form → ℕ → Bool → Config → Answer × Config
unfolding with_port port_of mode_of is_valid_mode
post_proxy_settings f now written c =
    let mode = mode_of f.mode in
    if not (is_valid_mode mode)
    then (invalid_mode, c)
    else with_port f mode (port_of (trim_space f.port)) now written c
