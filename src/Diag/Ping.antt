-- ===== src/Diag/Ping.antt =====
-- `Ping` of balena/network-config/internal/diag/net.go.
use nf_sdk.Base.{
  ℕ, zero, suc, ◌+◌, ◌-◌, ◌%◌, Bool, true, false, ◌&&◌, Option, none, some, List, [], Text, codes,
  ltb, ◌==◌, ℤ,
}
use nf_sdk.Prober.Wire.{Answer, answered, failed}
use nf_sdk.Diag.Icmp.{
  Kind, echo_reply, time_exceeded, destination_unreachable, other_kind, Packet, Peer, host_of, Net,
  Run, Turn, stop, skip, turn, emit, failure, finished, not_marshalled, cancelled, second,
  read_limit, within, with_destination, read_until,
}

pub record PingReply : Type 0 where
  pub seq : ℕ
  pub from : Text
  -- in nanoseconds, where the code has milliseconds
  pub rtt : ℕ
  pub timeout : Bool
  pub error : Text

abbrev pub is_number : ℕ → Option ℕ → Bool
is_number seq none = false
is_number seq (some n) = n == seq

abbrev pub is_echo_reply : Kind → Bool
is_echo_reply echo_reply = true
is_echo_reply time_exceeded = false
is_echo_reply destination_unreachable = false
is_echo_reply other_kind = false

-- The test of readEcho.
unfoldable pub echo_from : ℕ → Packet → Peer → Option Peer
echo_from seq packet peer = elim (is_echo_reply packet.kind && is_number seq packet.echo) [
  | true ↦ some peer
  | false ↦ none
]

abbrev pub unsent : ℕ → Text → PingReply
unsent n e = record { seq = n; from = []; rtt = 0; timeout = false; error = e }

abbrev pub unanswered : ℕ → PingReply
unanswered n = record { seq = n; from = []; rtt = 0; timeout = true; error = [] }

abbrev pub reply_of : ℕ → Peer → ℕ → PingReply
reply_of n peer t = record { seq = n; from = host_of peer; rtt = t; timeout = false; error = [] }

module _ {W : Type 0} (net : Net W) (fuel : ℕ) where
  unfoldable pub read_echo : ℕ → W → Option (Answer Peer × W)
  unfolding echo_from
  read_echo seq w = read_until net (echo_from seq) fuel w

  unfoldable pub echoed : ℕ → ℕ → Option (Answer Peer × W) → Option (Turn PingReply W)
  echoed seq start none = none
  echoed seq start (some (failed e, w)) = some (turn (unanswered seq) w)
  echoed seq start (some (answered peer, w)) = some (turn (reply_of seq peer (net.now w - start)) w)

  unfoldable pub echo_sent : ℕ → ℕ → Option Text × W → Option (Turn PingReply W)
  unfolding echoed read_echo read_limit
  echo_sent seq start (some e, w) = some (skip (unsent seq e) w)
  echo_sent seq start (none, w) =
      echoed seq start (read_echo seq (net.set_read_deadline (net.now w + read_limit) w))

  abbrev pub send_echo : ℕ → Peer → W → Answer (List ℕ) → Option (Turn PingReply W)
  send_echo seq dst w (failed e) = some (stop (not_marshalled e) w)
  send_echo seq dst w (answered wire) = echo_sent seq (net.now w) (net.write_to wire dst w)

  abbrev pub unless_done : ℕ → Peer → W → Option Text → Option (Turn PingReply W)
  unless_done seq dst w (some e) = some (stop (cancelled e) w)
  unless_done seq dst w none = send_echo seq dst w (
      net.marshal
        (record { id = net.process_id % 0x10000; number = seq; payload = codes "netcfgd-ping" }))

  -- One round of the loop, up to its pause.
  unfoldable pub ping_turn : ℕ → Peer → W → Option (Turn PingReply W)
  unfolding echo_sent
  ping_turn seq dst w = unless_done seq dst w (net.done w)

  abbrev pub after_pause :
      (W → Option (Run PingReply W)) → Option Text × W → Option (Run PingReply W)
  after_pause next (some e, w) = failure (cancelled e) w
  after_pause next (none, w) = next w

  abbrev pub pause_between : Bool → (W → Option (Run PingReply W)) → W → Option (Run PingReply W)
  pause_between false next w = next w
  pause_between true next w = after_pause next (net.pause second w)

  abbrev pub after_turn :
      Bool → (W → Option (Run PingReply W)) → Option (Turn PingReply W) → Option (Run PingReply W)
  after_turn more next none = none
  after_turn more next (some (stop e w)) = failure e w
  after_turn more next (some (skip r w)) = emit r (next w)
  after_turn more next (some (turn r w)) = emit r (pause_between more next w)

  -- The loop of Ping, with the number of rounds that are left.
  unfoldable pub ping_loop : ℕ → ℕ → Peer → ℕ → W → Option (Run PingReply W)
  unfolding ping_turn
  ping_loop count zero dst seq w = finished w
  ping_loop count (suc left) dst seq w =
      after_turn (ltb seq count) (λ later. ping_loop count left dst (suc seq) later)
        (ping_turn seq dst w)

  unfoldable pub ping : Text → ℤ → W → Option (Run PingReply W)
  unfolding ping_loop within with_destination
  ping host count w =
      with_destination net
        (λ dst start. ping_loop (within 30 4 count) (within 30 4 count) dst 1 start) host w
