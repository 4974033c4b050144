-- ===== src/Diag/Examples.antt =====
-- The network checks on a small network, and on concrete files.
use nf_sdk.Base.{
  ℕ, suc, ◌+◌, Bool, true, false, Option, none, some, List, [], ◌∷◌, Text, codes, leb, ◌==◌,
  if◌then◌else◌, ◌≡◌, refl, arith, pos, negsuc,
}
use nf_sdk.Prober.Wire.{Answer, answered, failed}
use nf_sdk.Diag.Icmp.{
  Kind, echo_reply, time_exceeded, destination_unreachable, other_kind, Packet, Peer, ip_addr,
  udp_addr, other_addr, Echo, Net, Run, Trouble,
}
use nf_sdk.Diag.Ping.{PingReply, ping}
use nf_sdk.Diag.Trace.{Hop, traceroute}
use nf_sdk.Diag.Tracing
use nf_sdk.Base.{All, is_space, digits}
use nf_sdk.Web.Fields.{count}
use nf_sdk.Diag.Route.{dotted, default_gateway}
use nf_sdk.Diag.Hex.{IsOctets}
use nf_sdk.Diag.Table.{Route, IsRoute, IsWord, table_of, gateway_in, default_gateway-table}

-- A clock, a deadline and the packets that will arrive: a kind, a number and the sender of each.
record Wire : Type 0 where
  clock : ℕ
  limit : ℕ
  inbox : List (ℕ × ℕ × Text)

abbrev deliver : Bool → List (ℕ × ℕ × Text) → Wire → Answer (List ℕ × Peer) × Wire
deliver false inbox w = (failed (codes "i/o timeout"), w)
deliver true [] w = (failed (codes "i/o timeout"), w)
deliver true ((k, n, from) ∷ inbox) w =
    (answered (k ∷ n ∷ [], ip_addr from), record w { clock = suc w.clock; inbox = inbox })

abbrev parse : List ℕ → Option Packet
parse (k ∷ n ∷ []) =
    if k == 0
    then some (record { kind = echo_reply; echo = some n })
    else if k == 11
    then some (record { kind = time_exceeded; echo = none })
    else none
parse _ = none

abbrev small_net : Net Wire
small_net = record {
  now = λ w. w.clock;
  done = λ w. none;
  pause = λ t w. (none, record w { clock = w.clock + t });
  resolve = λ host w. (answered (codes "192.0.2.9"), w);
  listen_packet = λ network w. (none, w);
  close = λ w. w;
  process_id = 7;
  marshal = λ e. answered (e.number ∷ []);
  parse_message = parse;
  set_ttl = λ n w. (none, w);
  write_to = λ bytes dst w. (none, w);
  set_read_deadline = λ t w. record w { limit = t };
  read_from = λ w. deliver (leb w.clock w.limit) w.inbox w;
  lookup_addr = λ t a w. (failed (codes "no such host"), w);
}

-- A stray reply, the answer to the first ping, and nothing for the second.
abbrev two_packets : Wire
two_packets = record {
  clock = 0;
  limit = 0;
  inbox = (0, 9, codes "192.0.2.1") ∷ (0, 1, codes "192.0.2.9") ∷ [];
}

abbrev two_hops : Wire
two_hops = record {
  clock = 0;
  limit = 0;
  inbox = (11, 0, codes "192.0.2.1") ∷ (0, 2, codes "192.0.2.9") ∷ [];
}

abbrev replies_of : Option (Run PingReply Wire) → List (ℕ × Text × Bool)
replies_of none = []
replies_of (some r) = shown r.entries
  where
    shown : List PingReply → List (ℕ × Text × Bool)
    shown [] = []
    shown (p ∷ ps) = (p.seq, p.from, p.timeout) ∷ shown ps

pings_shown :
    replies_of (ping small_net 9 (codes "gw") (pos 2) two_packets)
    ≡ (1, codes "192.0.2.9", false) ∷ (2, [], true) ∷ []
unfolding ping nf_sdk.Diag.Icmp.read_until nf_sdk.Diag.Icmp.host_of
pings_shown = refl

abbrev hops_of : Option (Run Hop Wire) → List (ℕ × Text × Bool)
hops_of none = []
hops_of (some r) = shown r.entries
  where
    shown : List Hop → List (ℕ × Text × Bool)
    shown [] = []
    shown (h ∷ hs) = (h.ttl, h.addr, h.final) ∷ shown hs

hops_shown :
    hops_of (traceroute small_net 9 (codes "gw") (negsuc 0) two_hops)
    ≡ (1, codes "192.0.2.1", false) ∷ (2, codes "192.0.2.9", true) ∷ []
unfolding traceroute nf_sdk.Diag.Icmp.read_until
hops_shown = refl

-- Two routes: to a network, and to everywhere by 192.0.2.254.
abbrev two_routes : List Route
two_routes =
    record {
      iface = codes "eth0";
      destination = record { a = 10; b = 0; c = 0; d = 0 };
      gateway = record { a = 0; b = 0; c = 0; d = 0 };
      more = codes "0001";
    }
    ∷ record {
      iface = codes "eth0";
      destination = record { a = 0; b = 0; c = 0; d = 0 };
      gateway = record { a = 192; b = 0; c = 2; d = 254 };
      more = codes "0003";
    }
    ∷ []

heading_count : count 10 (codes "Iface") ≡ 0
unfolding count
heading_count = refl

two_routes-IsRoute : All IsRoute two_routes
unfolding count IsWord IsOctets is_space
two_routes-IsRoute = (
  record {
    iface = (refl, (refl, (refl, (refl, tt))));
    destination = omega arith;
    gateway = omega arith;
    more = refl;
  },
  (
    record {
      iface = (refl, (refl, (refl, (refl, tt))));
      destination = omega arith;
      gateway = omega arith;
      more = refl;
    },
    tt,
  ),
)

default_gateway-table_example :
    default_gateway (some (table_of (codes "Iface") two_routes)) ≡ gateway_in two_routes
default_gateway-table_example =
    default_gateway-table (codes "Iface") two_routes heading_count two_routes-IsRoute

gateway_shown : gateway_in two_routes ≡ codes "192.0.2.254"
unfolding dotted digits
gateway_shown = refl
