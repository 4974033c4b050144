-- ===== src/Diag/Pinging.antt =====
-- What `Ping` of balena/network-config/internal/diag/net.go reports, and that it ends.
use nf_sdk.Base.{
  ℕ, zero, suc, true, false, Option, none, some, List, [], ◌∷◌, Text, leb, ◌≡◌, ℤ, pos, negsuc,
  if◌then◌else◌,
}
use nf_sdk.Prober.Wire.{answered}
use nf_sdk.Diag.Icmp.{echo_reply, Packet, Peer, host_of, Net, Run, Turn, stop, skip, turn, Trouble}
use nf_sdk.Diag.Reading.{IsSilent, IsUnsent, Ends}
use nf_sdk.Diag.Ping.{PingReply}

-- The number of pings that a caller gets who asks for that many.
abbrev pub wanted_pings : ℤ → ℕ
wanted_pings (negsuc n) = 4
wanted_pings (pos zero) = 4
wanted_pings (pos (suc n)) = if leb n 29 then suc n else 4

module _ {W : Type 0} (net : Net W) where
  -- The network gave an echo reply with this number, from this address.
  pub IsAnswered : ℕ → Text → Type 0
  IsAnswered seq from =
      (w : W) × (after : W) × (bytes : List ℕ) × (peer : Peer) × (packet : Packet) × (net.read_from
          w
        ≡ (answered (bytes, peer), after))
      × (net.parse_message bytes ≡ some packet)
      × (packet.kind ≡ echo_reply)
      × (packet.echo ≡ some seq)
      × (from ≡ host_of peer)

  -- An entry is a timeout, where the network gave an error in place of a message, or the error that
  -- the network gave for a send, or it names the sender of an echo reply with its number.
  pub data IsEntry (r : PingReply) : Type 0 where
    timed_out : r.timeout ≡ true → r.from ≡ [] → IsSilent net → IsEntry r
    not_sent : r.timeout ≡ false → r.from ≡ [] → IsUnsent net r.error → IsEntry r
    answered_by : r.timeout ≡ false → r.error ≡ [] → IsAnswered r.seq r.from → IsEntry r

  -- The entries with the numbers from `seq` on, of a check with so many rounds left that ended so.
  pub data IsPinged : ℕ → ℕ → List PingReply → Option Trouble → Type 0 where
    all_reported : {seq : ℕ} → IsPinged 0 seq [] none
    stopped : {left seq : ℕ} {e : Trouble} → IsPinged left seq [] (some e)
    reported :
        {left seq : ℕ} {r : PingReply} {rs : List PingReply} {o : Option Trouble}
        → r.seq ≡ seq
        → IsEntry r
        → IsPinged left (suc seq) rs o
        → IsPinged (suc left) seq (r ∷ rs) o

  abbrev PingEnds : ℕ → ℕ → Option (Run PingReply W) → Type 0
  PingEnds left seq o = Ends (IsPinged left seq) o

  -- A round gives an entry with its number, or ends the check.
  abbrev IsTurn : ℕ → Turn PingReply W → Type 0
  IsTurn seq (stop e w) = Unit
  IsTurn seq (skip r w) = (r.seq ≡ seq) × IsEntry r
  IsTurn seq (turn r w) = (r.seq ≡ seq) × IsEntry r

  abbrev Turns : ℕ → Option (Turn PingReply W) → Type 0
  Turns seq o = (t : Turn PingReply W) × (o ≡ some t) × IsTurn seq t
