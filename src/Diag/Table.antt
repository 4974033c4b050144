-- ===== src/Diag/Table.antt =====
-- The default gateway out of the routing table as the kernel prints it: `DefaultGateway` of
-- balena/network-config/internal/diag/net.go against /proc/net/route.
use nf_sdk.Base.{
  join, digits, ℕ, suc, true, false, some, List, [], ◌∷◌, ◌++◌, Text, if◌then◌else◌, is_space,
  fields_func, fields_from, is_empty, ◌≡◌, ◌∙◌, refl, ap, arith, Bool-cases, inl, inr, All,
}
use nf_sdk.Web.Session.{split_on}
use nf_sdk.Web.Fields.{count, count-append, split_on-field}
use nf_sdk.Diag.Route.{fields, dotted, first_gateway, gateway_of, behind_header, default_gateway}
use nf_sdk.Diag.Hex.{
  Octets, IsOctets, hex_le, is_zero, parse_hex_ip_le-hex_le, hex_le-zero, hex_le-All,
}

-- A word: not empty, and with no white space.
unfoldable pub IsWord : Text → Type 0
IsWord [] = ⊥
IsWord (c ∷ s) = All (λ x. is_space x ≡ false) (c ∷ s)

fields_from-word :
    (w t : Text) (sep : ℕ)
    → All (λ x. is_space x ≡ false) w
    → is_space sep ≡ true
    → fields_from is_space (w ++ (sep ∷ t)) ≡ (w, fields_func is_space t)
unfolding fields_from fields_func
fields_from-word [] t sep h k = rw k refl
fields_from-word (c ∷ w) t sep h k = rw (h.0, fields_from-word w t sep h.1 k) refl

fields-word :
    (w t : Text) (sep : ℕ) → IsWord w → is_space sep ≡ true → fields (w ++ (sep ∷ t)) ≡ w ∷ fields t
unfolding IsWord fields fields_func
fields-word [] t sep h k = absurd h
fields-word (c ∷ w) t sep h k = rw (fields_from-word (c ∷ w) t sep h k) refl

hex_le-IsWord : (o : Octets) → IsOctets o → IsWord (hex_le o [])
unfolding IsWord
hex_le-IsWord o h = hex_le-All o h

pub record Route : Type 0 where
  pub iface : Text
  pub destination : Octets
  pub gateway : Octets
  -- the columns behind the gateway
  pub more : Text

pub record IsRoute (r : Route) : Type 0 where
  pub iface : IsWord r.iface
  pub destination : IsOctets r.destination
  pub gateway : IsOctets r.gateway
  pub more : count 10 r.more ≡ 0

-- The columns are parted by tabs.
abbrev pub line_of : Route → Text
line_of r = r.iface ++ (9 ∷ hex_le r.destination (9 ∷ hex_le r.gateway (9 ∷ r.more)))

abbrev pub lines_of : List Route → Text
lines_of [] = []
lines_of (r ∷ rs) = line_of r ++ (10 ∷ lines_of rs)

-- /proc/net/route: a line of headings, and a line for each route.
abbrev pub table_of : Text → List Route → Text
table_of header rs = header ++ (10 ∷ lines_of rs)

-- The gateway of the first route to everywhere.
abbrev pub gateway_in : List Route → Text
gateway_in [] = []
gateway_in (r ∷ rs) =
    if is_zero r.destination
    then dotted r.gateway.a r.gateway.b r.gateway.c r.gateway.d
    else gateway_in rs

tab : is_space 9 ≡ true
unfolding is_space
tab = refl

fields-line_of :
    (r : Route)
    → IsRoute r
    → fields (line_of r) ≡ r.iface ∷ hex_le r.destination [] ∷ hex_le r.gateway [] ∷ fields r.more
fields-line_of r h =
    fields-word r.iface (hex_le r.destination (9 ∷ hex_le r.gateway (9 ∷ r.more))) 9 h.iface tab
    ∙ ap (λ fs. r.iface ∷ fs)
        (fields-word (hex_le r.destination []) (hex_le r.gateway (9 ∷ r.more)) 9
            (hex_le-IsWord r.destination h.destination) tab
          ∙ ap (λ fs. hex_le r.destination [] ∷ fs)
              (fields-word (hex_le r.gateway []) r.more 9 (hex_le-IsWord r.gateway h.gateway) tab))

joined : (s t : Text) (c : ℕ) → is_empty ((s ++ (c ∷ [])) ++ t) ≡ false
joined [] t c = refl
joined (d ∷ s) t c = refl

dotted-IsText : (a b c d : ℕ) → is_empty (dotted a b c d) ≡ false
unfolding dotted join
dotted-IsText a b c d = joined (digits (suc a) a) _ b'.'

first_gateway-route :
    (r : Route) (rest : Text) (more : List Text)
    → IsRoute r
    → first_gateway (r.iface ∷ hex_le r.destination [] ∷ hex_le r.gateway [] ∷ more) rest ≡ (
        if is_zero r.destination
        then dotted r.gateway.a r.gateway.b r.gateway.c r.gateway.d
        else rest)
first_gateway-route r rest more h =
    let o = r.gateway in
    let ip = parse_hex_ip_le-hex_le o h.gateway in
    let zero_line = hex_le-zero r.destination h.destination in
    let some_ip = dotted-IsText o.a o.b o.c o.d in
    elim (Bool-cases (is_zero r.destination)) [
      | inl e ↦ rw (zero_line, ip, some_ip, e) refl
      | inr e ↦ rw (zero_line, e) refl
    ]

All-count : (s : Text) → All (λ x. is_space x ≡ false) s → count 10 s ≡ 0
unfolding count is_space
All-count [] h = refl
All-count (c ∷ s) h = ground (arith, All-count s h.1, h.0)

IsWord-count : (s : Text) → IsWord s → count 10 s ≡ 0
unfolding IsWord
IsWord-count [] h = absurd h
IsWord-count (c ∷ s) h = All-count (c ∷ s) h

count-tab : (s t : Text) → count 10 s ≡ 0 → count 10 t ≡ 0 → count 10 (s ++ (9 ∷ t)) ≡ 0
unfolding count
count-tab s t h k = omega (arith, count-append 10 s (9 ∷ t), h, k)

line_of-count : (r : Route) → IsRoute r → count 10 (line_of r) ≡ 0
line_of-count r h =
    count-tab r.iface (hex_le r.destination (9 ∷ hex_le r.gateway (9 ∷ r.more)))
      (IsWord-count r.iface h.iface)
      (count-tab (hex_le r.destination []) (hex_le r.gateway (9 ∷ r.more))
        (All-count (hex_le r.destination []) (hex_le-All r.destination h.destination))
        (count-tab (hex_le r.gateway []) r.more
          (All-count (hex_le r.gateway []) (hex_le-All r.gateway h.gateway)) h.more))

gateway_of-lines :
    (rs : List Route) → All IsRoute rs → gateway_of (split_on 10 (lines_of rs)) ≡ gateway_in rs
unfolding gateway_of split_on fields fields_func
gateway_of-lines [] h = refl
gateway_of-lines (r ∷ rs) h =
    rw
      (
        split_on-field 10 (line_of r) (lines_of rs) (line_of-count r h.0),
        fields-line_of r h.0,
        gateway_of-lines rs h.1,
      )
      (first_gateway-route r (gateway_in rs) (fields r.more) h.0)

-- Out of a routing table that the kernel has printed, whatever its heading, the default gateway is
-- that of the first route whose destination is 0.0.0.0, and there is none without such a route.
pub default_gateway-table :
    (header : Text) (rs : List Route)
    → count 10 header ≡ 0
    → All IsRoute rs
    → default_gateway (some (table_of header rs)) ≡ gateway_in rs
unfolding default_gateway
default_gateway-table header rs h k =
    ap (λ ls. gateway_of (behind_header ls)) (split_on-field 10 header (lines_of rs) h)
    ∙ gateway_of-lines rs k
