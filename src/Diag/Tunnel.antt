-- ===== src/Diag/Tunnel.antt =====
-- The state of the Cloudflare tunnel: balena/network-config/internal/diag/tunnel.go. The metrics of
-- cloudflared, the UDP socket and the random bytes are what one check is answered; a number of a
-- metric is read by the parameter `parse_float`.
use nf_sdk.Base.{
  ℕ, zero, suc, ◌-◌, Bool, true, false, ◌&&◌, not, Option, none, some, List, [], ◌∷◌, ◌++◌, Text,
  codes, length, starts_with, trim_space, leb, ◌==◌, if◌then◌else◌, ℤ, pos,
}
use nf_sdk.Prober.Wire.{Answer, answered, failed}

pub data Advice : Type 0 where
  no_advice udp_only no_path pin_http2 port_blocked udp_blocked : Advice

pub data QuicDetail : Type 0 where
  unopened no_random unsent : Text → QuicDetail
  no_reply : QuicDetail
  negotiated other_reply : ℕ → QuicDetail

pub record TunnelStatus : Type 0 where
  pub registered : Bool
  pub connections : ℤ
  pub metrics_error : Option Text
  pub quic_viable : Bool
  pub quic_detail : QuicDetail
  pub advice : Advice

-- A float: whether it is above 0, and what `int` makes of it.
pub record Sample : Type 0 where
  pub positive : Bool
  pub truncated : ℤ

-- The text behind the last space.
abbrev behind : Option Text → Text → ℕ → Option Text
behind (some t) s c = some t
behind none s c = if c == b' ' then some s else none

unfoldable pub last_field : Text → Option Text
last_field [] = none
last_field (c ∷ s) = behind (last_field s) s c

abbrev pub read_field : (Text → Option Sample) → Option Text → Option Sample
read_field parse_float none = none
read_field parse_float (some t) = parse_float (trim_space t)

unfoldable pub last_value : (Text → Option Sample) → Text → Option Sample
unfolding last_field trim_space
last_value parse_float line = read_field parse_float (last_field line)

abbrev note_registered : Option Sample → TunnelStatus → TunnelStatus
note_registered none st = st
note_registered (some v) st = if v.positive then record st { registered = true } else st

abbrev note_connections : Option Sample → TunnelStatus → TunnelStatus
note_connections none st = st
note_connections (some v) st = record st { connections = v.truncated }

unfoldable pub read_line : (Text → Option Sample) → Text → TunnelStatus → TunnelStatus
unfolding last_value starts_with
read_line parse_float line st =
    if starts_with line (codes "#")
    then st
    else if starts_with line (codes "cloudflared_tunnel_tunnel_register_success")
    then note_registered (last_value parse_float line) st
    else if starts_with line (codes "cloudflared_tunnel_ha_connections")
    then note_connections (last_value parse_float line) st
    else st

unfoldable pub read_lines : (Text → Option Sample) → List Text → TunnelStatus → TunnelStatus
unfolding read_line
read_lines parse_float [] st = st
read_lines parse_float (line ∷ lines) st =
    read_lines parse_float lines (read_line parse_float line st)

-- The request for the metrics: its error, or the lines of the answer.
unfoldable pub read_tunnel_metrics :
    (Text → Option Sample) → Answer (List Text) → TunnelStatus → TunnelStatus
unfolding read_lines
read_tunnel_metrics parse_float (failed e) st = record st { metrics_error = some e }
read_tunnel_metrics parse_float (answered lines) st = read_lines parse_float lines st

unfoldable pub zeros : ℕ → List ℕ
zeros zero = []
zeros (suc n) = 0 ∷ zeros n

-- The packet with these connection IDs.
unfoldable pub version_negotiation_packet : List ℕ → List ℕ → List ℕ
unfolding zeros
version_negotiation_packet dcid scid =
    let pkt =
      (0xc3 ∷ 0x0a ∷ 0x0a ∷ 0x0a ∷ 0x0a ∷ length dcid ∷ [])
      ++ (dcid ++ (length scid ∷ (scid ++ (0 ∷ [])))) in
    pkt ++ zeros (1200 - length pkt)

-- What the probe is answered: the dial, the random bytes of both IDs, the write, which sees the
-- packet, and the read.
pub record Udp : Type 0 where
  pub dial : Option Text
  pub random : Answer (List ℕ × List ℕ)
  pub write : List ℕ → Option Text
  pub reply : Answer (List ℕ)

abbrev zero_version : List ℕ → Bool
zero_version (b0 ∷ b1 ∷ b2 ∷ b3 ∷ b4 ∷ b5 ∷ b6 ∷ more) =
    leb 128 b0 && b1 == 0 && b2 == 0 && b3 == 0 && b4 == 0
zero_version _ = false

abbrev pub judge_reply : Answer (List ℕ) → Bool × QuicDetail
judge_reply (failed e) = (false, no_reply)
judge_reply (answered bytes) =
    (true, if zero_version bytes then negotiated (length bytes) else other_reply (length bytes))

abbrev after_write : Udp → Option Text → Bool × QuicDetail
after_write udp (some e) = (false, unsent e)
after_write udp none = judge_reply udp.reply

abbrev with_ids : Udp → Answer (List ℕ × List ℕ) → Bool × QuicDetail
with_ids udp (failed e) = (false, no_random e)
with_ids udp (answered (dcid, scid)) =
    after_write udp (udp.write (version_negotiation_packet dcid scid))

abbrev after_dial : Udp → Option Text → Bool × QuicDetail
after_dial udp (some e) = (false, unopened e)
after_dial udp none = with_ids udp udp.random

unfoldable pub probe_quic : Udp → Bool × QuicDetail
unfolding version_negotiation_packet
probe_quic udp = after_dial udp udp.dial

unfoldable pub advice_for : Bool → Bool → Bool → Advice
advice_for proxy_configured tcp_reachable quic_viable =
    if proxy_configured && not tcp_reachable && quic_viable
    then udp_only
    else if proxy_configured && not tcp_reachable
    then no_path
    else if proxy_configured && not quic_viable
    then pin_http2
    else if not tcp_reachable && not quic_viable
    then port_blocked
    else if not quic_viable && tcp_reachable
    then udp_blocked
    else no_advice

abbrev pub no_status : TunnelStatus
no_status = record {
  registered = false;
  connections = pos 0;
  metrics_error = none;
  quic_viable = false;
  quic_detail = no_reply;
  advice = no_advice;
}

unfoldable pub check_tunnel :
    (Text → Option Sample) → Answer (List Text) → Udp → Bool → Bool → TunnelStatus
unfolding read_tunnel_metrics probe_quic advice_for
check_tunnel parse_float metrics udp proxy_configured tcp_reachable =
    let st = read_tunnel_metrics parse_float metrics no_status in
    let (viable, detail) = probe_quic udp in
    record st {
      quic_viable = viable;
      quic_detail = detail;
      advice = advice_for proxy_configured tcp_reachable viable;
    }
