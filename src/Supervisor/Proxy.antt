-- ===== src/Supervisor/Proxy.antt =====
-- The host proxy configuration of balena/network-config/internal/supervisor/client.go.
use nf_sdk.Base.{
  ℤ, pos, ltb_ℤ, eqb_ℤ, Bool, true, false, not, ◌&&◌, ◌||◌, List, [], ◌∷◌, ◌++◌, Option, none, some,
  Text, codes, text_eq, text_le, is_empty, trim_space, if◌then◌else◌,
}

abbrev pub socks4 : Text
socks4 = codes "socks4"

abbrev pub socks5 : Text
socks5 = codes "socks5"

abbrev pub http_connect : Text
http_connect = codes "http-connect"

abbrev pub http_relay : Text
http_relay = codes "http-relay"

abbrev pub valid_proxy_types : List Text
valid_proxy_types = http_connect ∷ socks5 ∷ socks4 ∷ http_relay ∷ []

unfoldable pub contains : List Text → Text → Bool
contains [] t = false
contains (v ∷ vs) t = text_eq v t || contains vs t

-- `ProxyType.Valid`
unfoldable pub is_valid_type : Text → Bool
unfolding contains
is_valid_type t = contains valid_proxy_types t

-- The `any` that holds the DNS setting: nil, a bool, a string, or what `fmt.Sprint` prints of
-- another JSON value.
pub data Dns : Type 0 where
  unset : Dns
  flag : Bool → Dns
  address : Text → Dns
  other : Text → Dns

pub record Proxy : Type 0 where
  pub type : Text
  pub ip : Text
  pub port : ℤ
  pub login : Text
  pub password : Text
  pub no_proxy : List Text
  pub dns : Dns

abbrev pub zero_proxy : Proxy
zero_proxy = record {
  type = [];
  ip = [];
  port = pos 0;
  login = [];
  password = [];
  no_proxy = [];
  dns = unset;
}

unfoldable pub enabled : Proxy → Bool
enabled p = not (is_empty p.ip) && not (eqb_ℤ p.port (pos 0)) && not (is_empty p.type)

pub data ProxyError : Type 0 where
  bad_type bad_port dns_without_proxy : ProxyError

abbrev has_dns : Dns → Bool
has_dns unset = false
has_dns _ = true

-- `none` is Go's nil error.
unfoldable pub validate : Proxy → Option ProxyError
unfolding enabled is_valid_type
validate p =
    if not (enabled p)
    then none
    else if not (is_valid_type p.type)
    then some bad_type
    else if ltb_ℤ p.port (pos 1) || ltb_ℤ (pos 65535) p.port
    then some bad_port
    else if has_dns p.dns && not (enabled p)
    then some dns_without_proxy
    else none

-- The loop of `Normalized`: `seen` holds the entries that are kept already.
unfoldable pub collect : List Text → List Text → List Text
collect seen [] = []
collect seen (e ∷ es) =
    let entry = trim_space e in
    let skipped = collect seen es in
    let kept = entry ∷ collect (entry ∷ seen) es in
    if is_empty entry || contains seen entry then skipped else kept

-- `sort.Strings`
unfoldable pub insert_sorted : Text → List Text → List Text
insert_sorted t [] = t ∷ []
insert_sorted t (u ∷ us) = if text_le t u then t ∷ u ∷ us else u ∷ insert_sorted t us

unfoldable pub sort_strings : List Text → List Text
sort_strings [] = []
sort_strings (t ∷ ts) = insert_sorted t (sort_strings ts)

unfoldable pub normalized : Proxy → Proxy
normalized p =
    if not (enabled p)
    then zero_proxy
    else record p { no_proxy = sort_strings (collect [] (p.no_proxy ++ p.ip ∷ [])) }

unfoldable pub texts_eq : List Text → List Text → Bool
texts_eq [] [] = true
texts_eq (t ∷ ts) (u ∷ us) = text_eq t u && texts_eq ts us
texts_eq _ _ = false

-- Equal lengths and equal items after sorting, which is equality of the sorted lists.
unfoldable pub same_strings : List Text → List Text → Bool
same_strings a b = texts_eq (sort_strings a) (sort_strings b)

unfoldable pub normalize_dns : Dns → Text
normalize_dns unset = []
normalize_dns (flag true) = codes "8.8.8.8:53"
normalize_dns (flag false) = []
normalize_dns (address a) = a
normalize_dns (other a) = a

same_fields : Proxy → Proxy → Bool
same_fields p q =
    text_eq p.type q.type
    && text_eq p.ip q.ip
    && eqb_ℤ p.port q.port
    && text_eq p.login q.login
    && same_strings p.no_proxy q.no_proxy
    && text_eq (normalize_dns p.dns) (normalize_dns q.dns)

eq_Bool : Bool → Bool → Bool
eq_Bool true b = b
eq_Bool false b = not b

unfoldable pub same_as : Proxy → Proxy → Bool
unfolding same_fields eq_Bool
same_as p q =
    if not (eq_Bool (enabled p) (enabled q))
    then false
    else if not (enabled p)
    then true
    else same_fields (normalized p) (normalized q)
