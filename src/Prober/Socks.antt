-- ===== src/Prober/Socks.antt =====
-- The SOCKS messages of balena/network-config/internal/proxyprobe/socks.go.
use nf_sdk.Base.{
  ℕ, ◌+◌, ◌/◌, ◌%◌, ◌^◌, ◌==◌, ltb, Bool, not, ◌||◌, Option, none, some, List, [], ◌∷◌, ◌++◌, Text,
  codes, length, is_empty, if◌then◌else◌,
}
use nf_sdk.Prober.Wire.{Io, ◌>>=◌, ◌>>◌, pure, fail, write, read_full, discard}

-- What `net.ParseIP` finds, with `To4` and `To16`.
pub data Ip : Type 0 where
  v4 : ℕ → ℕ → ℕ → ℕ → Ip
  v6 : List ℕ → Ip

-- `binary.BigEndian.AppendUint16`
abbrev pub big_endian16 : ℕ → List ℕ
big_endian16 n = n / 256 % 256 ∷ n % 256 ∷ []

-- `socks5Errors`
socks5_errors : List (ℕ × Text)
socks5_errors =
    (1, codes "general SOCKS server failure")
    ∷ (2, codes "connection not allowed by ruleset")
    ∷ (3, codes "network unreachable")
    ∷ (4, codes "host unreachable")
    ∷ (5, codes "connection refused by destination")
    ∷ (6, codes "TTL expired")
    ∷ (7, codes "command not supported")
    ∷ (8, codes "address type not supported")
    ∷ []

-- `socks4Errors`
socks4_errors : List (ℕ × Text)
socks4_errors =
    (0x5b, codes "request rejected or failed")
    ∷ (0x5c, codes "request rejected: proxy could not reach identd on this host")
    ∷ (0x5d, codes "request rejected: identd could not confirm the user id")
    ∷ []

refusal : List (ℕ × Text) → ℕ → Text
refusal [] status = codes "proxy refused with status"
refusal ((code, msg) ∷ table) status =
    if code == status then codes "proxy refused: " ++ msg else refusal table status

greet_reply : List ℕ → Io ℕ
greet_reply (version ∷ method ∷ []) =
    if not (version == 5)
    then fail (codes "not a SOCKS5 proxy")
    else if method == 0xff
    then fail (codes "proxy rejected all offered authentication methods")
    else pure method
greet_reply _ = fail (codes "short read")

-- `socks5Greet`
unfoldable pub socks5_greet : Bool → Io ℕ
unfolding greet_reply
socks5_greet have_creds = do
  write (if have_creds then 5 ∷ 2 ∷ 2 ∷ 0 ∷ [] else 5 ∷ 1 ∷ 0 ∷ [])
  resp ← read_full 2
  greet_reply resp

auth_reply : List ℕ → Io (Unit {0})
auth_reply (version ∷ status ∷ []) =
    if status == 0 then pure tt else fail (codes "proxy rejected the credentials")
auth_reply _ = fail (codes "short read")

-- `socks5Auth`
unfoldable pub socks5_auth : Text → Text → Io (Unit {0})
unfolding auth_reply
socks5_auth user pass =
    if ltb 255 (length user) || ltb 255 (length pass)
    then fail (codes "username and password must each be 255 bytes or fewer")
    else (do
      write (1 ∷ length user ∷ user ++ (length pass ∷ pass))
      resp ← read_full 2
      auth_reply resp)

-- The address in a CONNECT request; a name that is too long has none.
unfoldable pub socks5_address : Option Ip → Text → Option (List ℕ)
socks5_address (some (v4 a b c d)) host = some (1 ∷ a ∷ b ∷ c ∷ d ∷ [])
socks5_address (some (v6 bs)) host = some (4 ∷ bs)
socks5_address none host = if ltb 255 (length host) then none else some (3 ∷ length host ∷ host)

abbrev pub socks5_request : List ℕ → ℕ → List ℕ
socks5_request address port = 5 ∷ 1 ∷ 0 ∷ address ++ big_endian16 (port % 2 ^ 16)

first_byte : List ℕ → Io ℕ
first_byte (n ∷ []) = pure n
first_byte _ = fail (codes "short read")

-- The bytes of a bound address of this type, once its length was read.
unfoldable pub bound_length : ℕ → Io ℕ
unfolding first_byte
bound_length type =
    if type == 1
    then pure 4
    else if type == 4
    then pure 16
    else if type == 3
    then (do l ← read_full 1; first_byte l)
    else fail (codes "proxy returned an unknown address type")

unfoldable pub connect_reply : List ℕ → Io (Unit {0})
unfolding bound_length refusal socks5_errors
connect_reply (version ∷ status ∷ reserved ∷ type ∷ []) =
    if not (status == 0)
    then fail (refusal socks5_errors status)
    else (do skip ← bound_length type; discard (skip + 2))
connect_reply _ = fail (codes "short read")

-- A request to this address, or none where the name is too long.
unfoldable pub socks5_send : Option (List ℕ) → ℕ → Io (Unit {0})
unfolding connect_reply
socks5_send none port = fail (codes "hostname is too long for SOCKS5")
socks5_send (some address) port = do
  write (socks5_request address port)
  head ← read_full 4
  connect_reply head

-- `socks5Connect`, given what `net.ParseIP` says of the host
unfoldable pub socks5_connect : Option Ip → Text → ℕ → Io (Unit {0})
unfolding socks5_address socks5_send
socks5_connect ip host port = socks5_send (socks5_address ip host) port

socks4_address : Option Ip → List ℕ
socks4_address (some (v4 a b c d)) = a ∷ b ∷ c ∷ d ∷ []
socks4_address _ = 0 ∷ 0 ∷ 0 ∷ 1 ∷ []

socks4_domain : Option Ip → Text → Text
socks4_domain (some (v4 a b c d)) host = []
socks4_domain _ host = host

unfoldable pub socks4_request : Option Ip → Text → ℕ → Text → List ℕ
unfolding socks4_address socks4_domain
socks4_request ip host port user =
    4 ∷ 1 ∷ big_endian16 (port % 2 ^ 16)
    ++ (socks4_address ip
        ++ (user
            ++ (0
                ∷ (if is_empty (socks4_domain ip host)
                    then []
                    else socks4_domain ip host ++ 0 ∷ []))))

socks4_reply : List ℕ → Io (Unit {0})
unfolding refusal socks4_errors
socks4_reply (version ∷ status ∷ rest) =
    if not (version == 0)
    then fail (codes "not a SOCKS4 proxy")
    else if status == 0x5a
    then pure tt
    else fail (refusal socks4_errors status)
socks4_reply _ = fail (codes "short read")

-- `socks4Connect`
unfoldable pub socks4_connect : Option Ip → Text → ℕ → Text → Io (Unit {0})
unfolding socks4_request socks4_reply
socks4_connect ip host port user = do
  write (socks4_request ip host port user)
  resp ← read_full 8
  socks4_reply resp
