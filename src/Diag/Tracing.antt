-- ===== src/Diag/Tracing.antt =====
-- What `Traceroute` of balena/network-config/internal/diag/net.go reports, and that it ends.
use nf_sdk.Base.{
  ℕ, zero, suc, true, false, Option, none, some, List, [], ◌∷◌, Text, leb, ◌⊎◌, ◌≡◌, ℤ, pos, negsuc,
  if◌then◌else◌,
}
use nf_sdk.Prober.Wire.{answered}
use nf_sdk.Diag.Icmp.{
  Kind, echo_reply, time_exceeded, destination_unreachable, Packet, Peer, host_of, Net, Run, Turn,
  stop, skip, turn, Trouble,
}
use nf_sdk.Diag.Reading.{IsSilent, IsUnsent, Ends}
use nf_sdk.Diag.Trace.{Hop}

-- The most hops that a caller gets who asks for that many.
abbrev pub wanted_hops : ℤ → ℕ
wanted_hops (negsuc n) = 20
wanted_hops (pos zero) = 20
wanted_hops (pos (suc n)) = if leb n 39 then suc n else 20

module _ {W : Type 0} (net : Net W) where
  -- The network gave a message of this kind, from this address.
  pub IsFrom : Kind → Text → Type 0
  IsFrom kind address =
      (w : W) × (after : W) × (bytes : List ℕ) × (peer : Peer) × (packet : Packet) × (net.read_from
          w
        ≡ (answered (bytes, peer), after))
      × (net.parse_message bytes ≡ some packet)
      × (packet.kind ≡ kind)
      × (address ≡ host_of peer)

  -- A hop that the trace goes on from: the network gave an error in place of a message, or for the
  -- probe, or it gave a time exceeded message from this hop.
  pub data IsOnTheWay (h : Hop) : Type 0 where
    no_answer : h.timeout ≡ true → h.final ≡ false → IsSilent net → IsOnTheWay h
    not_probed : {e : Text} → h.timeout ≡ true → h.final ≡ false → IsUnsent net e → IsOnTheWay h
    expired_at : h.timeout ≡ false → h.final ≡ false → IsFrom time_exceeded h.addr → IsOnTheWay h

  -- A hop that the trace ends at.
  pub data IsLast (h : Hop) : Type 0 where
    replied : h.timeout ≡ false → h.final ≡ true → IsFrom echo_reply h.addr → IsLast h
    refused : h.timeout ≡ false → h.final ≡ true → IsFrom destination_unreachable h.addr → IsLast h

  -- The hops from TTL `n` on, of a trace with so many rounds left that ended so.
  pub data IsRoute : ℕ → ℕ → List Hop → Option Trouble → Type 0 where
    exhausted : {n : ℕ} → IsRoute 0 n [] none
    stopped : {left n : ℕ} {e : Trouble} → IsRoute left n [] (some e)
    passed :
        {left n : ℕ} {h : Hop} {hops : List Hop} {o : Option Trouble}
        → h.ttl ≡ n
        → IsOnTheWay h
        → IsRoute left (suc n) hops o
        → IsRoute (suc left) n (h ∷ hops) o
    reached : {left n : ℕ} {h : Hop} → h.ttl ≡ n → IsLast h → IsRoute (suc left) n (h ∷ []) none

  abbrev RouteEnds : ℕ → ℕ → Option (Run Hop W) → Type 0
  RouteEnds left n o = Ends (IsRoute left n) o

  -- A round gives a hop with its TTL, or ends the trace.
  abbrev IsTurn : ℕ → Turn Hop W → Type 0
  IsTurn n (stop e w) = Unit
  IsTurn n (skip h w) = (h.ttl ≡ n) × IsOnTheWay h
  IsTurn n (turn h w) = (h.ttl ≡ n) × (IsOnTheWay h ⊎ IsLast h)

  abbrev Turns : ℕ → Option (Turn Hop W) → Type 0
  Turns n o = (t : Turn Hop W) × (o ≡ some t) × IsTurn n t
