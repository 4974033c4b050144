-- ===== src/Diag/Icmp.antt =====
-- balena/network-config/internal/diag/net.go: the host of a check, and the socket of Ping and
-- Traceroute. The network is a parameter: `W` is its state, the clock, the context of the request
-- and the socket included. Times are in nanoseconds.
use nf_sdk.Base.{
  ℕ, zero, suc, ◌+◌, ◌*◌, Bool, true, false, ◌||◌, ◌&&◌, not, Option, none, some, List, [], ◌∷◌,
  Text, codes, ltb, leb, ◌==◌, if◌then◌else◌, ℤ, pos, negsuc,
}
use nf_sdk.Prober.Wire.{Answer, answered, failed}

-- How many bytes a code point takes in UTF-8.
unfoldable pub utf8_size : ℕ → ℕ
utf8_size c = if ltb c 0x80 then 1 else if ltb c 0x800 then 2 else if ltb c 0x10000 then 3 else 4

unfoldable pub byte_length : Text → ℕ
unfolding utf8_size
byte_length [] = 0
byte_length (c ∷ s) = utf8_size c + byte_length s

unfoldable pub host_char : ℕ → Bool
host_char c =
    (leb b'a' c && leb c b'z')
    || (leb b'A' c && leb c b'Z')
    || (leb b'0' c && leb c b'9')
    || c == b'.'
    || c == b'-'
    || c == b':'
    || c == b'_'

pub data Trouble : Type 0 where
  host_required host_too_long : Trouble
  invalid_character : ℕ → Trouble
  unresolved : Text → Text → Trouble
  no_socket not_marshalled no_ttl cancelled : Text → Trouble

unfoldable pub bad_character : Text → Option Trouble
unfolding host_char
bad_character [] = none
bad_character (c ∷ s) =
    let rest = bad_character s in if not (host_char c) then some (invalid_character c) else rest

unfoldable pub validate_host : Text → Option Trouble
unfolding bad_character byte_length
validate_host [] = some host_required
validate_host (c ∷ s) =
    if ltb 253 (byte_length (c ∷ s)) then some host_too_long else bad_character (c ∷ s)

pub data Kind : Type 0 where
  echo_reply time_exceeded destination_unreachable other_kind : Kind

-- A message as `icmp.ParseMessage` gives it: its type, and the sequence number where its body is an
-- echo.
pub record Packet : Type 0 where
  pub kind : Kind
  pub echo : Option ℕ

-- A `net.Addr`. An IP address is given as the text of its `String`.
pub data Peer : Type 0 where
  ip_addr udp_addr other_addr : Text → Peer

unfoldable pub host_of : Peer → Text
host_of (ip_addr a) = a
host_of (udp_addr a) = a
host_of (other_addr a) = a

pub record Echo : Type 0 where
  pub id : ℕ
  pub number : ℕ
  pub payload : Text

pub record Net (W : Type 0) : Type 0 where
  pub now : W → ℕ
  -- the error of the context, once it is done
  pub done : W → Option Text
  -- a wait of that length, or the error of the context that ended it
  pub pause : ℕ → W → Option Text × W
  pub resolve : Text → W → Answer Text × W
  pub listen_packet : Text → W → Option Text × W
  pub close : W → W
  pub process_id : ℕ
  pub marshal : Echo → Answer (List ℕ)
  pub parse_message : List ℕ → Option Packet
  pub set_ttl : ℕ → W → Option Text × W
  pub write_to : List ℕ → Peer → W → Option Text × W
  pub set_read_deadline : ℕ → W → W
  pub read_from : W → Answer (List ℕ × Peer) × W
  -- the names of an address, asked for with a limit of that length
  pub lookup_addr : ℕ → Text → W → Answer (List Text) × W

abbrev pub second : ℕ
second = 1000000000

unfoldable pub read_limit : ℕ
read_limit = 2 * second

-- What a check has reported, and how it ended.
pub record Run (A W : Type 0) : Type 0 where
  pub entries : List A
  pub error : Option Trouble
  pub after : W

-- One round of a check: it ends, or reports an entry, after which the loop goes on at once or in
-- its usual way.
pub data Turn (A W : Type 0) : Type 0 where
  stop : Trouble → W → Turn A W
  skip : A → W → Turn A W
  turn : A → W → Turn A W

abbrev pub emit : {A W : Type 0} → A → Option (Run A W) → Option (Run A W)
emit x none = none
emit x (some r) = some (record r { entries = x ∷ r.entries })

abbrev pub failure : {A W : Type 0} → Trouble → W → Option (Run A W)
failure e w = some (record { entries = []; error = some e; after = w })

abbrev pub finished : {A W : Type 0} → W → Option (Run A W)
finished w = some (record { entries = []; error = none; after = w })

-- A number out of 1 .. `most` is replaced.
unfoldable pub within : ℕ → ℕ → ℤ → ℕ
within most default_count (negsuc n) = default_count
within most default_count (pos n) = if ltb n 1 || ltb most n then default_count else n

module _ {A W : Type 0} where
  abbrev pub closed : Net W → Option (Run A W) → Option (Run A W)
  closed net none = none
  closed net (some r) = some (record r { after = net.close r.after })

module _ {W : Type 0} (net : Net W) where
  abbrev pub datagram_socket : Option Text × W → Answer Bool × W
  datagram_socket (none, w) = (answered true, w)
  datagram_socket (some e, w) = (failed e, w)

  abbrev pub raw_socket : Option Text × W → Answer Bool × W
  raw_socket (none, w) = (answered false, w)
  raw_socket (some _, w) = datagram_socket (net.listen_packet (codes "udp4") w)

  -- Whether the socket that could be opened is a datagram socket.
  unfoldable pub icmp_conn : W → Answer Bool × W
  icmp_conn w = raw_socket (net.listen_packet (codes "ip4:icmp") w)

module _ {W : Type 0} (net : Net W) {A : Type 0} where
  abbrev pub on_socket : (Peer → W → Option (Run A W)) → Text → Answer Bool × W → Option (Run A W)
  on_socket check addr (failed e, w) = failure (no_socket e) w
  on_socket check addr (answered datagram, w) =
      closed net (check (if datagram then udp_addr addr else ip_addr addr) w)

  abbrev pub on_address : (Peer → W → Option (Run A W)) → Text → Answer Text × W → Option (Run A W)
  on_address check host (failed e, w) = failure (unresolved host e) w
  on_address check host (answered addr, w) = on_socket check addr (icmp_conn net w)

  abbrev pub on_host : (Peer → W → Option (Run A W)) → Text → W → Option Trouble → Option (Run A W)
  on_host check host w (some e) = failure e w
  on_host check host w none = on_address check host (net.resolve host w)

  -- What Ping and Traceroute do before their loops, and the closing of the socket behind them.
  unfoldable pub with_destination : (Peer → W → Option (Run A W)) → Text → W → Option (Run A W)
  unfolding validate_host icmp_conn
  with_destination check host w = on_host check host w (validate_host host)

  abbrev pub judge_read :
      (Packet → Peer → Option A)
      → (W → Option (Answer A × W))
      → W
      → Peer
      → Option Packet
      → Option (Answer A × W)
  judge_read accept again w peer none = again w
  judge_read accept again w peer (some packet) = elim (accept packet peer) [
    | some x ↦ some (answered x, w)
    | none ↦ again w
  ]

  abbrev pub after_read :
      (Packet → Peer → Option A)
      → (W → Option (Answer A × W))
      → Answer (List ℕ × Peer) × W
      → Option (Answer A × W)
  after_read accept again (failed e, w) = some (failed e, w)
  after_read accept again (answered (bytes, peer), w) =
      judge_read accept again w peer (net.parse_message bytes)

  -- The loop of readEcho and readHop: it reads until a message is accepted or a read fails.
  unfoldable pub read_until : (Packet → Peer → Option A) → ℕ → W → Option (Answer A × W)
  read_until accept zero w = none
  read_until accept (suc fuel) w =
      after_read accept (λ later. read_until accept fuel later) (net.read_from w)
