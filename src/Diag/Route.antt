-- ===== src/Diag/Route.antt =====
-- The resolvers and the default gateway: `Resolvers`, `DefaultGateway` and `parseHexIPLE` of
-- balena/network-config/internal/diag/net.go, of the text of the file that each reads.
use nf_sdk.Base.{
  ℕ, suc, ◌+◌, ◌-◌, ◌*◌, ◌/◌, ◌%◌, ◌^◌, ◌&&◌, not, Option, none, some, List, [], ◌∷◌, Text, codes,
  text_eq, ltb, leb, ◌==◌, if◌then◌else◌, is_space, fields_func, is_empty, digits, join,
}
use nf_sdk.Web.Session.{split_on}
use nf_sdk.Diag.Icmp.{byte_length}

-- `strings.Fields`
unfoldable pub fields : Text → List Text
unfolding fields_func is_space
fields s = fields_func is_space s

abbrev pub name_server : List Text → List Text → List Text
name_server (key ∷ address ∷ more) rest =
    if text_eq key (codes "nameserver") then address ∷ rest else rest
name_server _ rest = rest

unfoldable pub servers_of : List Text → List Text
unfolding fields
servers_of [] = []
servers_of (line ∷ lines) = name_server (fields line) (servers_of lines)

-- `none` is a file that cannot be read.
unfoldable pub resolvers : Option Text → List Text
unfolding servers_of split_on
resolvers none = []
resolvers (some file) = servers_of (split_on 10 file)

-- A digit of base 16.
unfoldable pub hex_value : ℕ → Option ℕ
hex_value c =
    if leb b'0' c && leb c b'9'
    then some (c - b'0')
    else if leb b'a' c && leb c b'f'
    then some (c - b'a' + 10)
    else if leb b'A' c && leb c b'F'
    then some (c - b'A' + 10)
    else none

unfoldable pub hex_digits : ℕ → Text → Option ℕ
unfolding hex_value
hex_digits v [] = some v
hex_digits v (c ∷ s) = elim (hex_value c) [ some d ↦ hex_digits (v * 16 + d) s | none ↦ none ]

-- `strconv.ParseUint(s, 16, 32)`
abbrev pub fits_32 : Option ℕ → Option ℕ
fits_32 none = none
fits_32 (some v) = if ltb v (2 ^ 32) then some v else none

unfoldable pub parse_hex_32 : Text → Option ℕ
unfolding hex_digits
parse_hex_32 [] = none
parse_hex_32 (c ∷ s) = fits_32 (hex_digits 0 (c ∷ s))

-- `IP.String` of `net.IPv4(a, b, c, d)`
unfoldable pub dotted : ℕ → ℕ → ℕ → ℕ → Text
unfolding digits join
dotted a b c d =
    join (codes ".")
      (digits (suc a) a ∷ digits (suc b) b ∷ digits (suc c) c ∷ digits (suc d) d ∷ [])

abbrev pub address_of : Option ℕ → Text
address_of none = []
address_of (some v) = dotted (v % 256) (v / 2 ^ 8 % 256) (v / 2 ^ 16 % 256) (v / 2 ^ 24 % 256)

unfoldable pub parse_hex_ip_le : Text → Text
unfolding parse_hex_32 byte_length
parse_hex_ip_le h = if byte_length h == 8 then address_of (parse_hex_32 h) else []

abbrev pub first_gateway : List Text → Text → Text
first_gateway (iface ∷ destination ∷ gateway ∷ more) rest =
    let ip = parse_hex_ip_le gateway in
    if text_eq destination (codes "00000000") && not (is_empty ip) then ip else rest
first_gateway _ rest = rest

unfoldable pub gateway_of : List Text → Text
unfolding fields parse_hex_ip_le
gateway_of [] = []
gateway_of (line ∷ lines) = first_gateway (fields line) (gateway_of lines)

abbrev pub behind_header : List Text → List Text
behind_header [] = []
behind_header (header ∷ lines) = lines

unfoldable pub default_gateway : Option Text → Text
unfolding gateway_of split_on
default_gateway none = []
default_gateway (some file) = gateway_of (behind_header (split_on 10 file))
