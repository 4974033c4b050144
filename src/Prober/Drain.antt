-- ===== src/Prober/Drain.antt =====
-- What `socks5Connect` of balena/network-config/internal/proxyprobe/socks.go leaves on the
-- connection once the proxy has answered.
use nf_sdk.Base.{
  ℕ, ◌+◌, ltb, false, Option, some, List, [], ◌∷◌, ◌++◌, Text, length, length-append, take-append,
  drop-append, ◌≡◌, refl, arith, subst,
}
use mathlib.Core.List.{append_assoc}
use nf_sdk.Prober.Wire.{answered, Conn, write, read_full, discard}
use nf_sdk.Prober.Socks.{
  Ip, big_endian16, socks5_address, socks5_request, socks5_connect, connect_reply, bound_length,
  socks5_send,
}
use nf_sdk.Prober.RoundTrip.{Address, ip4, ip6, domain, IsAddress}

-- The bytes of an address: its type, and what follows.
abbrev pub type_of : Address → ℕ
type_of (ip4 a b c d) = 1
type_of (ip6 bs) = 4
type_of (domain name) = 3

abbrev pub body_of : Address → List ℕ
body_of (ip4 a b c d) = a ∷ b ∷ c ∷ d ∷ []
body_of (ip6 bs) = bs
body_of (domain name) = length name ∷ name

abbrev pub reply_bytes : Address → ℕ → List ℕ → List ℕ
reply_bytes a port rest = (5 ∷ 0 ∷ 0 ∷ type_of a ∷ []) ++ (body_of a ++ (big_endian16 port ++ rest))

abbrev pub conn_of : List ℕ → List ℕ → Conn
conn_of i o = record { input = i; output = o; writes = [] }

enough : (n : ℕ) (bs rest : List ℕ) → length bs ≡ n → ltb (length (bs ++ rest)) n ≡ false
enough n bs rest h = let l = length-append bs rest in ground arith

read_full-append :
    (n : ℕ) (bs rest out : List ℕ)
    → length bs ≡ n
    → read_full n (conn_of (bs ++ rest) out) ≡ (answered bs, conn_of rest out)
unfolding read_full
read_full-append n bs rest out h =
    rw (enough n bs rest h, take-append n bs rest h, drop-append n bs rest h)

discard-append :
    (n : ℕ) (bs rest out : List ℕ)
    → length bs ≡ n
    → discard n (conn_of (bs ++ rest) out) ≡ (answered tt, conn_of rest out)
unfolding discard
discard-append n bs rest out h = rw (enough n bs rest h, drop-append n bs rest h)

-- A bound address of `n` bytes and its port.
discard_bound :
    (n : ℕ) (bs rest out : List ℕ) (port : ℕ)
    → length bs ≡ n
    → discard (n + 2) (conn_of (bs ++ (big_endian16 port ++ rest)) out)
      ≡ (answered tt, conn_of rest out)
discard_bound n bs rest out port h =
    let two = length-append bs (big_endian16 port) in
    subst (λ i. discard (n + 2) (conn_of i out) ≡ (answered tt, conn_of rest out))
      (append_assoc bs (big_endian16 port) rest)
      (discard-append (n + 2) (bs ++ big_endian16 port) rest out (omega (arith, two, h)))

connect_reply-bound :
    (a : Address) (port : ℕ) (rest out : List ℕ)
    → IsAddress a
    → connect_reply
        (5 ∷ 0 ∷ 0 ∷ type_of a ∷ [])
        (conn_of (body_of a ++ (big_endian16 port ++ rest)) out)
      ≡ (answered tt, conn_of rest out)
unfolding connect_reply bound_length
connect_reply-bound (ip4 a b c d) port rest out h =
    discard_bound 4 (a ∷ b ∷ c ∷ d ∷ []) rest out port refl
connect_reply-bound (ip6 bs) port rest out h = discard_bound 16 bs rest out port h
connect_reply-bound (domain name) port rest out h =
    rw (read_full-append 1 (length name ∷ []) (name ++ (big_endian16 port ++ rest)) out refl)
      (discard_bound (length name) name rest out port refl)

-- Whatever address the proxy says that it bound, once it has accepted the request exactly that reply
-- is consumed: what the destination sends follows, and the request is all that was written.
pub socks5_connect-reply :
    (ip : Option Ip) (host : Text) (port : ℕ) (address : List ℕ) (bound : Address) (q : ℕ)
    (rest out : List ℕ)
    → socks5_address ip host ≡ some address
    → IsAddress bound
    → socks5_connect ip host port (conn_of (reply_bytes bound q rest) out)
      ≡ (answered tt, conn_of rest (out ++ socks5_request address port))
unfolding socks5_connect socks5_send write
socks5_connect-reply ip host port address bound q rest out e h =
    rw
      (
        e,
        read_full-append 4 (5 ∷ 0 ∷ 0 ∷ type_of bound ∷ [])
            (body_of bound ++ (big_endian16 q ++ rest)) (out ++ socks5_request address port) refl,
      )
      (connect_reply-bound bound q rest (out ++ socks5_request address port) h)
