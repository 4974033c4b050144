-- ===== src/Prober/RoundTrip.antt =====
-- The SOCKS5 CONNECT of balena/network-config/internal/proxyprobe/socks.go against RFC 1928: what a
-- proxy reads in the request, and what is left of its reply.
use nf_sdk.Base.{
  ℕ, ◌&&◌, ◌+◌, ◌*◌, ◌%◌, ◌^◌, ◌<◌, ◌≤◌, ltb, ◌==◌, false, Option, none, some, List, [], ◌∷◌, ◌++◌,
  Text, length, take, drop, take-append, drop-append, ◌≡◌, refl, ap, if◌then◌else◌, arith,
}
use nf_sdk.Prober.Socks.{Ip, v4, v6, big_endian16, socks5_address, socks5_request}

-- An address of RFC 1928, section 5.
pub data Address : Type 0 where
  ip4 : ℕ → ℕ → ℕ → ℕ → Address
  ip6 : List ℕ → Address
  domain : Text → Address

-- What the host of a request stands for.
abbrev pub destination : Option Ip → Text → Address
destination (some (v4 a b c d)) host = ip4 a b c d
destination (some (v6 bs)) host = ip6 bs
destination none host = domain host

abbrev pub IsAddress : Address → Type 0
IsAddress (ip4 a b c d) = Unit
IsAddress (ip6 bs) = length bs ≡ 16
IsAddress (domain name) = length name ≤ 255

port_of : Address → List ℕ → Option (Address × ℕ)
port_of a (hi ∷ lo ∷ []) = some (a, hi * 256 + lo)
port_of a _ = none

ip4_of : List ℕ → Option (Address × ℕ)
unfolding port_of
ip4_of (a ∷ b ∷ c ∷ d ∷ rest) = port_of (ip4 a b c d) rest
ip4_of _ = none

domain_of : List ℕ → Option (Address × ℕ)
unfolding port_of
domain_of (n ∷ rest) = port_of (domain (take n rest)) (drop n rest)
domain_of _ = none

address_of : ℕ → List ℕ → Option (Address × ℕ)
unfolding ip4_of domain_of
address_of type rest =
    if type == 1
    then ip4_of rest
    else if type == 3
    then domain_of rest
    else if type == 4
    then port_of (ip6 (take 16 rest)) (drop 16 rest)
    else none

-- What a proxy reads in a request to connect.
unfoldable pub parse_request : List ℕ → Option (Address × ℕ)
unfolding address_of
parse_request (version ∷ command ∷ reserved ∷ type ∷ rest) =
    if version == 5 && command == 1 then address_of type rest else none
parse_request _ = none

port_of-big_endian16 :
    (a : Address) (port : ℕ)
    → port < 65536
    → port_of a (big_endian16 (port % 2 ^ 16)) ≡ some (a, port)
unfolding port_of
port_of-big_endian16 a port k = ap (λ n. some (a, n)) (omega arith)

-- An address and a port are read back from their bytes.
after_bytes :
    (n : ℕ) (bs : List ℕ) (port : ℕ) (a : List ℕ → Address)
    → length bs ≡ n
    → port < 65536
    → port_of
        (a (take n (bs ++ big_endian16 (port % 2 ^ 16))))
        (drop n (bs ++ big_endian16 (port % 2 ^ 16)))
      ≡ some (a bs, port)
after_bytes n bs port a h k =
    let tail = big_endian16 (port % 2 ^ 16) in
    rw (take-append n bs tail h, drop-append n bs tail h) (port_of-big_endian16 (a bs) port k)

short : (host : Text) → length host ≤ 255 → ltb 255 (length host) ≡ false
short host h = ground arith

abbrev pub Requested : Option Ip → Text → ℕ → Type 0
Requested ip host port =
    (address : List ℕ) × (socks5_address ip host ≡ some address)
    × (parse_request (socks5_request address port) ≡ some (destination ip host, port))

-- A host and a port come back from the request that is sent for them, where an IPv6 address has
-- sixteen bytes, a name at most 255 and the port sixteen bits; such a request is always made.
pub parse_request-request :
    (ip : Option Ip) (host : Text) (port : ℕ)
    → IsAddress (destination ip host)
    → port < 65536
    → Requested ip host port
unfolding parse_request address_of ip4_of domain_of socks5_address
parse_request-request (some (v4 a b c d)) host port h k =
    (1 ∷ a ∷ b ∷ c ∷ d ∷ [], refl, port_of-big_endian16 (ip4 a b c d) port k)
parse_request-request (some (v6 bs)) host port h k = (4 ∷ bs, refl, after_bytes 16 bs port ip6 h k)
parse_request-request none host port h k =
    (3 ∷ length host ∷ host, rw (short host h), after_bytes (length host) host port domain refl k)
