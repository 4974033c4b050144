-- ===== src/Prober/Probe.antt =====
-- A probe from its name lookup to its HTTP response: `Probe` and `proxyHandshake` of
-- balena/network-config/internal/proxyprobe/probe.go. The resolver, the dialer and TLS are
-- parameters; a network is the answers that one probe gets from them.
use nf_sdk.Base.{
  ℕ, Bool, true, false, not, ◌||◌, ◌==◌, Option, none, some, ◌++◌, Text, codes, text_eq, is_empty,
  to_lower, if◌then◌else◌,
}
use nf_sdk.Prober.Stages.{
  StageName, dns, tcp, handshake, auth, connect, tls, http, Recorder, Result, new_recorder, run,
  pass_stage, skip_stage, retag_auth, finish,
}
use nf_sdk.Prober.Wire.{Answer, answered, failed, Conn, Io}
use nf_sdk.Prober.Socks.{Ip, socks5_greet, socks5_auth, socks5_connect, socks4_connect}
use nf_sdk.Prober.Http.{
  HttpLibrary, http_connect, relay_request, read_relay_response, is_auth_error,
}
use nf_sdk.Prober.Wire

pub record Proxy : Type 0 where
  pub type : Text
  pub ip : Text
  pub port : ℕ
  pub login : Text
  pub password : Text

pub data Kind : Type 0 where
  https tls_only tcp_only reachable : Kind

pub record Target : Type 0 where
  pub addr : Text
  pub kind : Kind

-- What one probe is answered: the parts of the target's address, the literal address of its host,
-- the lookup, the dialer, the TLS handshake with the check of the chain that the kind asks for, and
-- the HTTP exchange; `none` is no error.
pub record Network : Type 0 where
  pub target : Answer (Text × ℕ)
  pub parse_ip : Text → Option Ip
  pub lookup : Option Text
  pub dial : Answer Conn
  pub tls_error : Kind → Option Text
  pub http_error : Option Text
  pub library : HttpLibrary

abbrev pub error_of : {A : Type 0} → Answer A → Option Text
error_of (answered a) = none
error_of (failed e) = some e

-- After the handshake: the recorder, the connection, and whether the proxy is a relay.
pub record Opened : Type 0 where
  pub recorder : Recorder
  pub conn : Conn
  pub relay : Bool

abbrev pub tunnel : Recorder → Conn → Opened
tunnel r c = record { recorder = r; conn = c; relay = false }

unfoldable pub has_login : Proxy → Bool
has_login p = not (is_empty p.login) || not (is_empty p.password)

unfoldable pub socks5_open : Network → Text → ℕ → Recorder → Conn → Opened
socks5_open net host port r c =
    let (a, c') = socks5_connect (net.parse_ip host) host port c in
    tunnel (run connect (error_of a) r) c'

unfoldable pub socks5_authorised : Network → Text → ℕ → Recorder → Answer (Unit {0}) × Conn → Opened
unfolding socks5_open
socks5_authorised net host port r (failed e, c) = tunnel (run auth (some e) r) c
socks5_authorised net host port r (answered u, c) = socks5_open net host port (run auth none r) c

unfoldable pub socks5_auth_stage : Network → Proxy → Text → ℕ → Recorder → Conn → Opened
unfolding socks5_authorised has_login
socks5_auth_stage net p host port r c = socks5_authorised net host port r (
    if has_login p
    then socks5_auth p.login p.password c
    else (failed (codes "proxy requires a username and password but none are configured"), c))

unfoldable pub socks5_greeted : Network → Proxy → Text → ℕ → Recorder → Answer ℕ × Conn → Opened
unfolding socks5_auth_stage socks5_open
socks5_greeted net p host port r (failed e, c) = tunnel (run handshake (some e) r) c
socks5_greeted net p host port r (answered method, c) =
    if method == 2
    then socks5_auth_stage net p host port (run handshake none r) c
    else socks5_open net host port (skip_stage auth (run handshake none r)) c

unfoldable pub socks4_open : Network → Proxy → Text → ℕ → Recorder → Conn → Opened
socks4_open net p host port r c =
    let (a, c') = socks4_connect (net.parse_ip host) host port p.login c in
    tunnel (run connect (error_of a) (skip_stage auth (skip_stage handshake r))) c'

unfoldable pub http_connected : Proxy → Recorder → Answer (Unit {0}) × Conn → Opened
unfolding has_login
http_connected p r (failed e, c) =
    let failing = run connect (some e) r in
    tunnel (if is_auth_error e then retag_auth failing else failing) c
http_connected p r (answered u, c) =
    let passing = run connect none r in
    tunnel (if has_login p then pass_stage auth passing else skip_stage auth passing) c

unfoldable pub relay_open : Network → Proxy → Text → ℕ → Recorder → Conn → Opened
relay_open net p host port r c =
    let (a, c') = Wire.write (relay_request net.library host port p.login p.password) c in
    record {
      recorder = run connect (error_of a) (skip_stage auth (skip_stage handshake r));
      conn = c';
      relay = true;
    }

-- `proxyHandshake`
unfoldable pub proxy_handshake : Network → Proxy → Target → Text → ℕ → Recorder → Conn → Opened
unfolding socks5_greeted socks4_open http_connected relay_open
proxy_handshake net p t host port r c =
    let type = to_lower p.type in
    if text_eq type (codes "socks5")
    then socks5_greeted net p host port r (socks5_greet (has_login p) c)
    else if text_eq type (codes "socks4")
    then socks4_open net p host port r c
    else if text_eq type (codes "http-connect")
    then http_connected p (skip_stage handshake r)
        (http_connect net.library t.addr p.login p.password c)
    else if text_eq type (codes "http-relay")
    then relay_open net p host port r c
    else tunnel (run handshake (some (codes "unknown proxy type " ++ p.type)) r) c

unfoldable pub is_reach_check : Kind → Bool
is_reach_check tls_only = true
is_reach_check reachable = true
is_reach_check _ = false

unfoldable pub tls_done : Network → Kind → Option Text → Recorder → Result
unfolding is_reach_check
tls_done net kind (some e) r = finish (run tls (some e) r)
tls_done net kind none r = finish (
    if is_reach_check kind
    then skip_stage http (run tls none r)
    else run http net.http_error (run tls none r))

-- The stages behind the tunnel.
unfoldable pub finish_tunnel : Network → Kind → Recorder → Result
unfolding tls_done
finish_tunnel net tcp_only r = finish (skip_stage http (skip_stage tls r))
finish_tunnel net kind r = tls_done net kind (net.tls_error kind) r

unfoldable pub finish_relay : Network → Conn → Recorder → Result
finish_relay net c r =
    finish (run http (error_of (read_relay_response net.library c).0) (skip_stage tls r))

unfoldable pub finish_opened : Option StageName → Network → Kind → Opened → Result
unfolding finish_tunnel finish_relay
finish_opened (some f) net kind o = finish o.recorder
finish_opened none net kind o =
    if o.relay then finish_relay net o.conn o.recorder else finish_tunnel net kind o.recorder

unfoldable pub open_path : Network → Option Proxy → Target → Text → ℕ → Recorder → Conn → Opened
unfolding proxy_handshake
open_path net none t host port r c =
    tunnel (skip_stage connect (skip_stage auth (skip_stage handshake r))) c
open_path net (some p) t host port r c = proxy_handshake net p t host port r c

unfoldable pub dialled :
    Network → Option Proxy → Target → Text → ℕ → Recorder → Answer Conn → Result
unfolding open_path finish_opened
dialled net p t host port r (failed e) = finish (run tcp (some e) r)
dialled net p t host port r (answered c) =
    let o = open_path net p t host port (run tcp none r) c in
    finish_opened o.recorder.failed net t.kind o

dial_host : Option Proxy → Text → Text
dial_host none host = host
dial_host (some p) host = p.ip

lookup_error : Network → Option Ip → Option Text
lookup_error net (some ip) = none
lookup_error net none = net.lookup

-- A failed lookup leaves the stage of the connection skipped.
unfoldable pub looked_up : Network → Option Proxy → Target → Text → ℕ → Option Text → Result
unfolding dialled
looked_up net p t host port (some e) = finish (run tcp none (run dns (some e) new_recorder))
looked_up net p t host port none = dialled net p t host port (run dns none new_recorder) net.dial

unfoldable pub probe_parts : Network → Option Proxy → Target → Answer (Text × ℕ) → Result
unfolding looked_up lookup_error dial_host
probe_parts net p t (failed e) = finish (run dns (some e) new_recorder)
probe_parts net p t (answered (host, port)) =
    looked_up net p t host port (lookup_error net (net.parse_ip (dial_host p host)))

-- `Probe`
unfoldable pub probe : Network → Option Proxy → Target → Result
unfolding probe_parts
probe net p t = probe_parts net p t net.target
