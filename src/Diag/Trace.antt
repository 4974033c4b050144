-- ===== src/Diag/Trace.antt =====
-- `Traceroute` of balena/network-config/internal/diag/net.go.
use nf_sdk.Base.{
  ℕ, zero, suc, ◌+◌, ◌-◌, ◌%◌, Bool, true, false, Option, none, some, List, [], ◌∷◌, Text, codes,
  ends_with, length, take, if◌then◌else◌, ℤ,
}
use nf_sdk.Prober.Wire.{Answer, answered, failed}
use nf_sdk.Diag.Icmp.{
  Kind, echo_reply, time_exceeded, destination_unreachable, other_kind, Packet, Peer, host_of, Net,
  Run, Turn, stop, skip, turn, emit, failure, finished, no_ttl, cancelled, read_limit, within,
  with_destination, read_until,
}

pub record Hop : Type 0 where
  pub ttl : ℕ
  pub addr : Text
  pub name : Text
  -- in nanoseconds, where the code has milliseconds
  pub rtt : ℕ
  pub timeout : Bool
  pub final : Bool

abbrev pub hop_of_kind : Kind → Text → Option (Text × Bool)
hop_of_kind time_exceeded a = some (a, false)
hop_of_kind echo_reply a = some (a, true)
hop_of_kind destination_unreachable a = some (a, true)
hop_of_kind other_kind a = none

-- The switch of readHop.
unfoldable pub hop_from : Packet → Peer → Option (Text × Bool)
unfolding host_of
hop_from packet peer = hop_of_kind packet.kind (host_of peer)

-- `strings.TrimSuffix(name, ".")`
unfoldable pub trim_dot : Text → Text
unfolding ends_with
trim_dot s = if ends_with s (codes ".") then take (length s - 1) s else s

unfoldable pub first_name : Answer (List Text) → Text
unfolding trim_dot
first_name (failed e) = []
first_name (answered []) = []
first_name (answered (name ∷ names)) = trim_dot name

abbrev pub silent : ℕ → Hop
silent n = record { ttl = n; addr = []; name = []; rtt = 0; timeout = true; final = false }

abbrev pub heard : ℕ → Text → Bool → ℕ → Text → Hop
heard n a last t name_found = record {
  ttl = n;
  addr = a;
  name = name_found;
  rtt = t;
  timeout = false;
  final = last;
}

abbrev pub wire_of : Answer (List ℕ) → List ℕ
wire_of (failed e) = []
wire_of (answered wire) = wire

unfoldable pub named : {W : Type 0} → ℕ → Text → Bool → ℕ → Answer (List Text) × W → Turn Hop W
unfolding first_name
named n a last t (names, w) = turn (heard n a last t (first_name names)) w

module _ {W : Type 0} (net : Net W) (fuel : ℕ) where
  unfoldable pub read_hop : W → Option (Answer (Text × Bool) × W)
  unfolding hop_from
  read_hop w = read_until net hop_from fuel w

  unfoldable pub hop_read : ℕ → ℕ → Option (Answer (Text × Bool) × W) → Option (Turn Hop W)
  unfolding named
  hop_read n start none = none
  hop_read n start (some (failed e, w)) = some (skip (silent n) w)
  hop_read n start (some (answered (a, last), w)) =
      some (named n a last (net.now w - start) (net.lookup_addr 500000000 a w))

  unfoldable pub probe_sent : ℕ → ℕ → Option Text × W → Option (Turn Hop W)
  unfolding hop_read read_hop read_limit
  probe_sent n start (some e, w) = some (skip (silent n) w)
  probe_sent n start (none, w) =
      hop_read n start (read_hop (net.set_read_deadline (net.now w + read_limit) w))

  abbrev pub send_probe : ℕ → Peer → Option Text × W → Option (Turn Hop W)
  send_probe n dst (some e, w) = some (stop (no_ttl e) w)
  send_probe n dst (none, w) =
      let wire = wire_of (
        net.marshal (record {
          id = net.process_id % 0x10000;
          number = n;
          payload = codes "netcfgd-trace";
        })) in
      probe_sent n (net.now w) (net.write_to wire dst w)

  abbrev pub unless_done : ℕ → Peer → W → Option Text → Option (Turn Hop W)
  unless_done n dst w (some e) = some (stop (cancelled e) w)
  unless_done n dst w none = send_probe n dst (net.set_ttl n w)

  -- One round of the loop, up to the hop that it reports.
  unfoldable pub trace_turn : ℕ → Peer → W → Option (Turn Hop W)
  unfolding probe_sent
  trace_turn n dst w = unless_done n dst w (net.done w)

  abbrev pub unless_final : Bool → (W → Option (Run Hop W)) → W → Option (Run Hop W)
  unless_final true next w = finished w
  unless_final false next w = next w

  abbrev pub after_hop : (W → Option (Run Hop W)) → Option (Turn Hop W) → Option (Run Hop W)
  after_hop next none = none
  after_hop next (some (stop e w)) = failure e w
  after_hop next (some (skip hop w)) = emit hop (next w)
  after_hop next (some (turn hop w)) = emit hop (unless_final hop.final next w)

  -- The loop of Traceroute, with the number of rounds that are left.
  unfoldable pub trace_loop : ℕ → Peer → ℕ → W → Option (Run Hop W)
  unfolding trace_turn
  trace_loop zero dst n w = finished w
  trace_loop (suc left) dst n w =
      after_hop (λ later. trace_loop left dst (suc n) later) (trace_turn n dst w)

  unfoldable pub traceroute : Text → ℤ → W → Option (Run Hop W)
  unfolding trace_loop within with_destination
  traceroute host max_hops w =
      with_destination net (λ dst start. trace_loop (within 40 20 max_hops) dst 1 start) host w
