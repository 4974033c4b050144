-- ===== src/Diag/Reading.antt =====
-- What `readEcho` and `readHop` of balena/network-config/internal/diag/net.go wait for.
use nf_sdk.Base.{
  ℕ, zero, suc, ◌+◌, ◌≤◌, ◌<◌, Option, none, some, List, ◌≡◌, refl, arith, Text, Bool, [], ◌∷◌,
  subst, sym,
}
use nf_sdk.Prober.Wire.{Answer, answered, failed}
use nf_sdk.Diag.Icmp.{
  Packet, Peer, Net, Run, Trouble, read_until, judge_read, after_read, emit, closed, on_socket,
  on_address, on_host, icmp_conn, validate_host, with_destination,
}

-- The clock and the socket: each message that is read takes a tick of the clock at least, none is
-- read once the deadline is over, and setting the deadline sets it.
pub record IsNet {W : Type 0} (net : Net W) (deadline : W → ℕ) : Type 0 where
  pub read_later :
      (w after : W) (p : List ℕ × Peer)
      → net.read_from w ≡ (answered p, after)
      → net.now w < net.now after
  pub read_early :
      (w after : W) (p : List ℕ × Peer)
      → net.read_from w ≡ (answered p, after)
      → net.now w ≤ deadline w
  pub read_deadline :
      (w after : W) (p : List ℕ × Peer)
      → net.read_from w ≡ (answered p, after)
      → deadline after ≡ deadline w
  pub set_deadline : (t : ℕ) (w : W) → deadline (net.set_read_deadline t w) ≡ t
  pub set_now : (t : ℕ) (w : W) → net.now w ≤ net.now (net.set_read_deadline t w)

-- The socket gave an error in place of a message, as it does once the deadline is over.
abbrev pub IsSilent : {W : Type 0} → Net W → Type 0
IsSilent {W = W} net = (w : W) × (after : W) × (e : Text) × (net.read_from w ≡ (failed e, after))

-- The socket refused a message with this error.
abbrev pub IsUnsent : {W : Type 0} → Net W → Text → Type 0
IsUnsent {W = W} net e =
    (w : W) × (after : W) × (wire : List ℕ) × (dst : Peer) × (net.write_to wire dst w
      ≡ (some e, after))

module _ {W : Type 0} (net : Net W) {A : Type 0} (accept : Packet → Peer → Option A) where
  -- A message was read that is accepted as `x`.
  abbrev pub Read : A → Type 0
  Read x =
      (w : W) × (after : W) × (bytes : List ℕ) × (peer : Peer) × (packet : Packet) × (net.read_from
          w
        ≡ (answered (bytes, peer), after))
      × (net.parse_message bytes ≡ some packet)
      × (accept packet peer ≡ some x)

  abbrev pub IsRead : Answer A → Type 0
  IsRead (answered x) = Read x
  IsRead (failed e) = IsSilent net

  abbrev pub Returns : Option (Answer A × W) → Type 0
  Returns o = (r : Answer A × W) × (o ≡ some r) × IsRead r.0

  module _ (again : W → Option (Answer A × W)) (w after : W) (bytes : List ℕ) (peer : Peer)
      (e : net.read_from w ≡ (answered (bytes, peer), after)) (h : Returns (again after)) where
    accept-Returns :
        (packet : Packet) (o : Option A)
        → net.parse_message bytes ≡ some packet
        → accept packet peer ≡ o
        → Returns (judge_read net accept again after peer (some packet))
    accept-Returns packet (some x) p q =
        rw (q, judge_read) ((answered x, after), refl, (w, after, bytes, peer, packet, e, p, q))
    accept-Returns packet none p q = rw (q, judge_read) h

    judge_read-Returns :
        (o : Option Packet)
        → net.parse_message bytes ≡ o
        → Returns (judge_read net accept again after peer o)
    judge_read-Returns none p = h
    judge_read-Returns (some packet) p = accept-Returns packet (accept packet peer) p refl

  after_read-Returns :
      (again : W → Option (Answer A × W)) (w : W) (r : Answer (List ℕ × Peer) × W)
      → net.read_from w ≡ r
      → ((after : W) (p : List ℕ × Peer)
          → net.read_from w ≡ (answered p, after)
          → Returns (again after))
      → Returns (after_read net accept again r)
  after_read-Returns again w (failed x, after) e h = ((failed x, after), refl, (w, after, x, e))
  after_read-Returns again w (answered (bytes, peer), after) e h =
      judge_read-Returns again w after bytes peer e (h after (bytes, peer) e)
        (net.parse_message bytes) refl

  -- Up to its deadline the loop returns, with what it was asked to wait for.
  pub read_until-Returns :
      (deadline : W → ℕ)
      → IsNet net deadline
      → (fuel : ℕ) (w : W) → deadline w < fuel + net.now w
      → Returns (read_until net accept (suc fuel) w)
  unfolding read_until
  read_until-Returns deadline law zero w h =
      after_read-Returns _ w (net.read_from w) refl
        (λ after p e. absurd (omega (arith, h, law.read_early w after p e)))
  read_until-Returns deadline law (suc fuel) w h =
      after_read-Returns _ w (net.read_from w) refl (λ after p e.
        read_until-Returns deadline law fuel after
          (omega (arith, h, law.read_later w after p e, law.read_deadline w after p e)))

module _ {A W : Type 0} where
  -- A check ends, and what it has reported and its error are as `P` says.
  abbrev pub Ends : (List A → Option Trouble → Type 0) → Option (Run A W) → Type 0
  Ends P o = (r : Run A W) × (o ≡ some r) × P r.entries r.error

  found :
      (P : List A → Option Trouble → Type 0) (a : Run A W) → Ends P (some a) → P a.entries a.error
  found P a (r, e, h) = let same : a ≡ r = cc in subst (λ u. P u.entries u.error) (sym same) h

  pub emit-Ends :
      (P Q : List A → Option Trouble → Type 0) (x : A) (o : Option (Run A W))
      → ((rs : List A) (e : Option Trouble) → P rs e → Q (x ∷ rs) e)
      → Ends P o
      → Ends Q (emit x o)
  emit-Ends P Q x none more (r, e, h) = absurd (cc)
  emit-Ends P Q x (some a) more h = (_, refl, more a.entries a.error (found P a h))

  module _ (net : Net W) (P : List A → Option Trouble → Type 0)
      (early : (e : Trouble) → P [] (some e)) (check : Peer → W → Option (Run A W))
      (ends : (dst : Peer) (w : W) → Ends P (check dst w)) where
    closed-Ends : (o : Option (Run A W)) → Ends P o → Ends P (closed net o)
    closed-Ends none (r, e, h) = absurd (cc)
    closed-Ends (some a) h = (_, refl, found P a h)

    on_socket-Ends : (addr : Text) (r : Answer Bool × W) → Ends P (on_socket net check addr r)
    on_socket-Ends addr (failed e, w) = (_, refl, early _)
    on_socket-Ends addr (answered datagram, w) = closed-Ends (check _ w) (ends _ w)

    on_address-Ends : (host : Text) (r : Answer Text × W) → Ends P (on_address net check host r)
    on_address-Ends host (failed e, w) = (_, refl, early _)
    on_address-Ends host (answered addr, w) = on_socket-Ends addr (icmp_conn net w)

    on_host-Ends : (host : Text) (w : W) (o : Option Trouble) → Ends P (on_host net check host w o)
    on_host-Ends host w (some e) = (_, refl, early e)
    on_host-Ends host w none = on_address-Ends host (net.resolve host w)

    -- What the loop of a check does, the check does, where an early error is no exception.
    pub with_destination-Ends : (host : Text) (w : W) → Ends P (with_destination net check host w)
    unfolding with_destination
    with_destination-Ends host w = on_host-Ends host w (validate_host host)
