-- ===== src/Web/Checks.antt =====
-- How the console checks reach the network: `probePath`, `apiProxyTest`, `apiTunnel` and `apiEndpoints`
-- of balena/network-config/internal/web/api.go. The probe itself and `net.SplitHostPort` are
-- parameters.
use nf_sdk.Base.{
  ℤ, pos, eqb_ℤ, ltb_ℤ, Bool, ◌&&◌, ◌||◌, not, Option, none, some, is_none, List, [], Text, text_eq,
  is_empty, if◌then◌else◌,
}
use nf_sdk.Store.Config.{Config, ProxyConfig}
use nf_sdk.Supervisor.Proxy.{Proxy, enabled}
use nf_sdk.Watchdog.World.{Candidate}
use nf_sdk.Web.Session.{parse_int}
use nf_sdk.Prober.Stages.{Result}
use nf_sdk.Prober.Wire.{Answer}
use nf_sdk.Prober.Probe.{Kind, https, tcp_only}
use nf_sdk.Diag.Endpoints.{Endpoint, EndpointResult, endpoints, check_endpoints}
use nf_sdk.Diag.Tunnel.{TunnelStatus, Sample, Udp, check_tunnel}

-- The words that tell an operator how the checks went out.
pub data ProbeRoute : Type 0 where
  no_supervisor no_host_proxy : ProbeRoute
  through : Text → Text → ℤ → ProbeRoute

-- Whether the stored configuration is for this address.
unfoldable pub is_stored_for : ProxyConfig → Text → ℤ → Bool
unfolding text_eq
is_stored_for stored ip port = text_eq stored.ip ip && eqb_ℤ stored.port port

abbrev pub host_candidate : Proxy → Candidate
host_candidate host = record {
  type = host.type;
  ip = host.ip;
  port = host.port;
  login = host.login;
  password = [];
}

unfoldable pub with_stored : ProxyConfig → Candidate → Candidate
unfolding is_stored_for
with_stored stored p =
    if is_stored_for stored p.ip p.port
    then record p {
      login = if is_empty p.login then stored.login else p.login;
      password = stored.password;
    }
    else p

abbrev pub host_path : Config → Proxy → Option Candidate × ProbeRoute
host_path cfg host =
    if enabled host
    then (some (with_stored cfg.proxy (host_candidate host)), through host.type host.ip host.port)
    else (none, no_host_proxy)

abbrev pub answered_path : Config → Option Proxy → Option Candidate × ProbeRoute
answered_path cfg none = (none, no_host_proxy)
answered_path cfg (some host) = host_path cfg host

-- `probePath`, with whether there is a Supervisor and what `GetProxy` answers.
unfoldable pub probe_path : Bool → Option Proxy → Config → Option Candidate × ProbeRoute
unfolding enabled with_stored
probe_path available host cfg = if available then answered_path cfg host else (none, no_supervisor)

pub record ProxyTest : Type 0 where
  pub type : Text
  pub ip : Text
  pub port : ℤ
  pub login : Text
  pub password : Text
  pub target : Text
  pub direct : Bool

-- A request that is refused, or the probe that is run.
pub data TestAnswer : Type 0 where
  bad_target no_proxy_address : TestAnswer
  probed : Option Candidate → Text → Kind → TestAnswer

abbrev pub port_in_range : Option ℤ → Option ℤ
port_in_range none = none
port_in_range (some n) = if ltb_ℤ n (pos 1) || ltb_ℤ (pos 65535) n then none else some n

abbrev pub port_part : Option (Text × Text) → Option ℤ
port_part none = none
port_part (some (host, port)) = port_in_range (parse_int port)

-- `splitAddr`, of which only the port is used
unfoldable pub split_addr : (Text → Option (Text × Text)) → Text → Option ℤ
unfolding parse_int
split_addr split_host_port addr = port_part (split_host_port addr)

unfoldable pub test_target : Config → Text → Text
test_target cfg target = if is_empty target then cfg.watchdog.probe_target else target

unfoldable pub tested_password : Config → ProxyTest → Text
unfolding is_stored_for
tested_password cfg q =
    if is_empty q.password && is_stored_for cfg.proxy q.ip q.port
    then cfg.proxy.password
    else q.password

unfoldable pub tested_proxy : Config → ProxyTest → Candidate
unfolding tested_password
tested_proxy cfg q = record {
  type = q.type;
  ip = q.ip;
  port = q.port;
  login = q.login;
  password = tested_password cfg q;
}

abbrev pub kind_for : ℤ → Kind
kind_for port = if eqb_ℤ port (pos 443) then https else tcp_only

abbrev pub test_through : Config → ProxyTest → Text → Option ℤ → TestAnswer
test_through cfg q target none = bad_target
test_through cfg q target (some port) =
    if q.direct
    then probed none target (kind_for port)
    else if is_empty q.ip || eqb_ℤ q.port (pos 0)
    then no_proxy_address
    else probed (some (tested_proxy cfg q)) target (kind_for port)

-- `apiProxyTest`, once the request is decoded
unfoldable pub api_proxy_test : (Text → Option (Text × Text)) → Config → ProxyTest → TestAnswer
unfolding test_target split_addr tested_proxy
api_proxy_test split_host_port cfg q =
    let target = test_target cfg q.target in
    test_through cfg q target (split_addr split_host_port target)

-- What the checks of one request are answered.
pub record Checks : Type 0 where
  pub available : Bool
  pub host_proxy : Option Proxy
  pub probe : Option Candidate → Endpoint → Result
  pub parse_float : Text → Option Sample
  pub metrics : Answer (List Text)
  pub udp : Udp

-- `apiEndpoints`
unfoldable pub api_endpoints : Checks → Config → ProbeRoute × List EndpointResult
unfolding probe_path check_endpoints endpoints
api_endpoints checks cfg =
    let (p, path) = probe_path checks.available checks.host_proxy cfg in
    (path, check_endpoints (checks.probe p) endpoints)

-- `apiTunnel`, with the result of its probe of the tunnel's edge
unfoldable pub api_tunnel :
    Checks → (Option Candidate → Result) → Config → ProbeRoute × Result × TunnelStatus
unfolding probe_path check_tunnel
api_tunnel checks edge cfg =
    let (p, path) = probe_path checks.available checks.host_proxy cfg in
    let res = edge p in
    (path, res, check_tunnel checks.parse_float checks.metrics checks.udp (not (is_none p)) res.ok)
