-- ===== src/Prober/Paths.antt =====
-- Every way through the prober ends in a report.
use nf_sdk.Base.{
  ℕ, Bool, true, false, ◌==◌, Option, none, some, ◌++◌, Text, codes, text_eq, to_lower, refl,
  if◌then◌else◌, if_both,
}
use nf_sdk.Prober.Stages.{
  dns, handshake, auth, connect, tls, http, new_recorder, run, skip_stage, retag_auth, retag,
  is_connect_failure, finish, pad, fill, seen, sort_stages, insert_stage, culprit,
}
use nf_sdk.Prober.Wire.{Answer, answered, failed, Conn}
use nf_sdk.Prober.Socks.{socks5_greet, socks5_connect, socks4_connect}
use nf_sdk.Prober.Http.{http_connect, relay_request, read_relay_response, is_auth_error}
use nf_sdk.Prober.Probe.{
  Network, Proxy, Target, Kind, tunnel, error_of, probe, probe_parts, looked_up, dialled, open_path,
  proxy_handshake, finish_opened, finish_relay, has_login, socks5_open, socks5_authorised,
  socks5_auth_stage, socks5_greeted, socks4_open, http_connected, relay_open,
}
use nf_sdk.Prober.Wire
use nf_sdk.Prober.Rows.{
  IsReport, direct, with_login, without_login, no_negotiation, in_connect, connect_only, reached,
  opened_by, Reports, way-Reports, every_fits,
}

module _ (net : Network) where
  -- A SOCKS5 tunnel, by the recorder before it and the answer to the request.
  with_login_end :
      (k : Kind) (a : Answer (Unit {0})) (c : Conn)
      → Reports net k
          (tunnel (run connect (error_of a) (run auth none (run handshake none reached))) c)
  unfolding finish_opened finish pad fill seen sort_stages insert_stage every_fits culprit
  with_login_end k (answered u) c = way-Reports net with_login k c
  with_login_end k (failed e) c = (refl, refl, refl, refl)

  without_login_end :
      (k : Kind) (a : Answer (Unit {0})) (c : Conn)
      → Reports net k
          (tunnel (run connect (error_of a) (skip_stage auth (run handshake none reached))) c)
  unfolding finish_opened finish pad fill seen sort_stages insert_stage every_fits culprit
  without_login_end k (answered u) c = way-Reports net without_login k c
  without_login_end k (failed e) c = (refl, refl, refl, refl)

  no_negotiation_end :
      (k : Kind) (a : Answer (Unit {0})) (c : Conn)
      → Reports net k
          (tunnel (run connect (error_of a) (skip_stage auth (skip_stage handshake reached))) c)
  unfolding finish_opened finish pad fill seen sort_stages insert_stage every_fits culprit
  no_negotiation_end k (answered u) c = way-Reports net no_negotiation k c
  no_negotiation_end k (failed e) c = (refl, refl, refl, refl)

  relay_read :
      (a : Answer (Unit {0}))
      → IsReport (finish (run http (error_of a) (skip_stage tls (opened_by no_negotiation))))
  unfolding finish pad fill seen sort_stages insert_stage every_fits culprit
  relay_read (answered u) = (refl, refl, refl, refl)
  relay_read (failed e) = (refl, refl, refl, refl)

  relay_end :
      (k : Kind) (a : Answer (Unit {0})) (c : Conn)
      → Reports net k record {
        recorder = run connect (error_of a) (skip_stage auth (skip_stage handshake reached));
        conn = c;
        relay = true;
      }
  unfolding finish_opened finish_relay finish pad fill seen sort_stages insert_stage every_fits
      culprit
  relay_end k (answered u) c = relay_read (read_relay_response net.library c).0
  relay_end k (failed e) c = (refl, refl, refl, refl)

  module _ (p : Proxy) (host : Text) (port : ℕ) (k : Kind) where
    socks5_authorised-Reports :
        (x : Answer (Unit {0}) × Conn)
        → Reports net k (socks5_authorised net host port (run handshake none reached) x)
    unfolding socks5_authorised socks5_open finish_opened finish pad fill seen sort_stages
        insert_stage every_fits culprit
    socks5_authorised-Reports (failed e, c) = (refl, refl, refl, refl)
    socks5_authorised-Reports (answered u, c) =
        let x = socks5_connect (net.parse_ip host) host port c in with_login_end k x.0 x.1

    socks5_greeted-Reports :
        (x : Answer ℕ × Conn) → Reports net k (socks5_greeted net p host port reached x)
    unfolding socks5_greeted socks5_auth_stage socks5_open finish_opened finish pad fill seen
        sort_stages insert_stage every_fits culprit
    socks5_greeted-Reports (failed e, c) = (refl, refl, refl, refl)
    socks5_greeted-Reports (answered m, c) =
        let x = socks5_connect (net.parse_ip host) host port c in
        if_both (Reports net k) (m == 2)
          (socks5_auth_stage net p host port (run handshake none reached) c)
          (socks5_open net host port (skip_stage auth (run handshake none reached)) c)
          (socks5_authorised-Reports _) (without_login_end k x.0 x.1)

    retagged :
        (e : Text) (c : Conn) (b : Bool)
        → Reports net k (
            tunnel
              (let r = run connect (some e) (skip_stage handshake reached) in
                if b then retag_auth r else r)
              c)
    unfolding retag_auth retag is_connect_failure finish_opened finish pad fill seen sort_stages
        insert_stage every_fits culprit
    retagged e c true = (refl, refl, refl, refl)
    retagged e c false = (refl, refl, refl, refl)

    http_connected-Reports :
        (x : Answer (Unit {0}) × Conn)
        → Reports net k (http_connected p (skip_stage handshake reached) x)
    unfolding http_connected
    http_connected-Reports (failed e, c) = retagged e c (is_auth_error e)
    http_connected-Reports (answered u, c) =
        if_both (λ r. Reports net k (tunnel r c)) (has_login p) (opened_by in_connect)
          (opened_by connect_only) (way-Reports net in_connect k c)
          (way-Reports net connect_only k c)

    socks4_open-Reports : (c : Conn) → Reports net k (socks4_open net p host port reached c)
    unfolding socks4_open
    socks4_open-Reports c =
        let x = socks4_connect (net.parse_ip host) host port p.login c in
        no_negotiation_end k x.0 x.1

    relay_open-Reports : (c : Conn) → Reports net k (relay_open net p host port reached c)
    unfolding relay_open
    relay_open-Reports c =
        let x = Wire.write (relay_request net.library host port p.login p.password) c in
        relay_end k x.0 x.1

    unknown_type : (e : Text) (c : Conn) → Reports net k (tunnel (run handshake (some e) reached) c)
    unfolding finish_opened finish pad fill seen sort_stages insert_stage every_fits culprit
    unknown_type e c = (refl, refl, refl, refl)

    proxy_handshake-Reports :
        (t : Target) (c : Conn) → Reports net k (proxy_handshake net p t host port reached c)
    unfolding proxy_handshake
    proxy_handshake-Reports t c =
        let type = to_lower p.type in
        if_both (Reports net k) (text_eq type (codes "socks5")) _ _
          (socks5_greeted-Reports (socks5_greet (has_login p) c))
          (if_both (Reports net k) (text_eq type (codes "socks4")) _ _ (socks4_open-Reports c) (
            if_both (Reports net k) (text_eq type (codes "http-connect")) _ _
              (http_connected-Reports (http_connect net.library t.addr p.login p.password c))
              (if_both (Reports net k) (text_eq type (codes "http-relay")) _ _
                (relay_open-Reports c) (unknown_type (codes "unknown proxy type " ++ p.type) c))))

  open_path-Reports :
      (p : Option Proxy) (t : Target) (host : Text) (port : ℕ) (c : Conn)
      → Reports net t.kind (open_path net p t host port reached c)
  unfolding open_path
  open_path-Reports none t host port c = way-Reports net direct t.kind c
  open_path-Reports (some p) t host port c = proxy_handshake-Reports p host port t.kind t c

  module _ (p : Option Proxy) (t : Target) where
    dialled-IsReport :
        (host : Text) (port : ℕ) (a : Answer Conn)
        → IsReport (dialled net p t host port (run dns none new_recorder) a)
    unfolding dialled finish pad fill seen sort_stages insert_stage every_fits culprit
    dialled-IsReport host port (failed e) = (refl, refl, refl, refl)
    dialled-IsReport host port (answered c) = open_path-Reports p t host port c

    looked_up-IsReport :
        (host : Text) (port : ℕ) (e : Option Text) → IsReport (looked_up net p t host port e)
    unfolding looked_up finish pad fill seen sort_stages insert_stage every_fits culprit
    looked_up-IsReport host port (some e) = (refl, refl, refl, refl)
    looked_up-IsReport host port none = dialled-IsReport host port net.dial

    probe_parts-IsReport : (a : Answer (Text × ℕ)) → IsReport (probe_parts net p t a)
    unfolding probe_parts finish pad fill seen sort_stages insert_stage every_fits culprit
    probe_parts-IsReport (failed e) = (refl, refl, refl, refl)
    probe_parts-IsReport (answered (host, port)) = looked_up-IsReport host port _

-- Whatever the resolver, the dialer, the proxy, TLS and the HTTP peer answer, a probe reports the
-- seven stages, each once and in order; it is good exactly if it names no failed stage; the stage it
-- names is the only one that failed, no stage behind it passed, and it is the one that the summary
-- names.
pub probe-IsReport : (net : Network) (p : Option Proxy) (t : Target) → IsReport (probe net p t)
unfolding probe
probe-IsReport net p t = probe_parts-IsReport net p t net.target
