-- ===== src/Web/Bundle.antt =====
-- The diagnostic snapshot that is sent to support: `apiBundle` of
-- balena/network-config/internal/web/api.go. What NetworkManager and the Supervisor answer about
-- interfaces and the device is shown as it is: `I` and `D` are its types.
use nf_sdk.Base.{
  ℕ, pos, Bool, true, false, ◌&&◌, ◌||◌, Option, none, some, List, [], ◌∷◌, Text, codes, is_empty,
  map, if◌then◌else◌,
}
use nf_sdk.Store.Config.{Config, ProxyConfig}
use nf_sdk.Store.State.{State}
use nf_sdk.Supervisor.Proxy.{Proxy, zero_proxy, enabled}
use nf_sdk.Activity.Log.{Entry, Log, recent, Level}
use nf_sdk.Diag.Endpoints.{
  EndpointResult, Group, balena, normal_framework, cloudflare_tunnel, internet, endpoints,
  check_endpoints,
}
use nf_sdk.Diag.Tunnel.{TunnelStatus, check_tunnel}
use nf_sdk.Web.Checks.{ProbeRoute, Checks, probe_path}

pub record ActivityEntry : Type 0 where
  pub at : ℕ
  pub level : Level
  pub source : Text
  pub actor : Text
  pub message : Text
  pub detail : Text

pub record Bundle (I D : Type 0) : Type 0 where
  pub generated_at : ℕ
  pub version : Text
  pub interfaces : I
  pub gateway : Text
  pub resolvers : List Text
  pub device : D
  pub host_proxy : Proxy
  pub config : Config
  pub watchdog_state : State
  pub probe_path : ProbeRoute
  pub endpoint_results : List EndpointResult
  pub tunnel : TunnelStatus
  pub activity : List ActivityEntry

-- What else one bundle shows: the time, the version, what NetworkManager and the Supervisor say, the
-- files of net.go, the checks, and the activity log.
pub record Around (I D : Type 0) : Type 0 where
  pub now : ℕ
  pub version : Text
  pub interfaces : I
  pub gateway : Text
  pub resolvers : List Text
  pub device : D
  pub no_device : D
  pub checks : Checks
  pub log : Log

abbrev pub is_tunnel : Group → Bool
is_tunnel cloudflare_tunnel = true
is_tunnel balena = false
is_tunnel normal_framework = false
is_tunnel internet = false

unfoldable pub tcp_ok : List EndpointResult → Bool
tcp_ok [] = false
tcp_ok (e ∷ es) = is_tunnel e.endpoint.group && e.result.ok || tcp_ok es

unfoldable pub activity_of : Log → List ActivityEntry
unfolding recent
activity_of log =
    map
      (λ (e : Entry). record {
        at = e.at;
        level = e.level;
        source = e.source;
        actor = e.actor;
        message = e.message;
        detail = e.detail;
      })
      (recent (pos 300) log)

abbrev pub or_zero : Option Proxy → Proxy
or_zero none = zero_proxy
or_zero (some p) = p

-- `b.HostProxy`, before its password is taken out
unfoldable pub host_proxy_of : Checks → Proxy
host_proxy_of checks = if checks.available then or_zero checks.host_proxy else zero_proxy

unfoldable pub redact_proxy : ProxyConfig → ProxyConfig
redact_proxy p = record p {
  password = if is_empty p.password then p.password else codes "[redacted]";
}

unfoldable pub redact : Config → Config
unfolding redact_proxy
redact c = record c {
  auth = record {
    username = c.auth.username;
    hash = [];
    must_change = c.auth.must_change;
    session_key = [];
    changed_at = 0;
  };
  proxy = redact_proxy c.proxy;
}

module _ {I D : Type 0} where
  -- The fields, once the endpoints were checked.
  unfoldable pub collected :
      Around I D → Config → State → ProbeRoute → List EndpointResult → Bundle I D
  unfolding activity_of host_proxy_of enabled redact tcp_ok check_tunnel
  collected a cfg st path results =
      let host = host_proxy_of a.checks in
      record {
        generated_at = a.now;
        version = a.version;
        interfaces = a.interfaces;
        gateway = a.gateway;
        resolvers = a.resolvers;
        device = if a.checks.available then a.device else a.no_device;
        host_proxy = record host { password = [] };
        config = redact cfg;
        watchdog_state = st;
        probe_path = path;
        endpoint_results = results;
        tunnel =
            check_tunnel a.checks.parse_float a.checks.metrics a.checks.udp (enabled host)
              (tcp_ok results);
        activity = activity_of a.log;
      }

  unfoldable pub api_bundle : Around I D → Config → State → Bundle I D
  unfolding probe_path check_endpoints endpoints collected
  api_bundle a cfg st =
      let (p, path) = probe_path a.checks.available a.checks.host_proxy cfg in
      collected a cfg st path (check_endpoints (a.checks.probe p) endpoints)
