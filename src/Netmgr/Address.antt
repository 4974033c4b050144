-- ===== src/Netmgr/Address.antt =====
-- The addressing of an interface: balena/network-config/internal/netmgr/ipv4.go, with
-- `NetmaskToPrefix` and `ipToNMUint32` of addr.go. `net.ParseIP` and `fmt.Sscanf` are parameters; an
-- IPv4 address is a number below 2^32, its first byte the highest.
use nf_sdk.Base.{
  fields_func, ℕ, zero, suc, ◌+◌, ◌-◌, ◌*◌, ◌/◌, ◌%◌, ◌^◌, ◌==◌, ltb, eqb_ℤ, pos, Bool, true, false,
  not, ◌&&◌, ◌||◌, Option, none, some, List, [], ◌∷◌, Text, codes, text_contains, is_empty,
  trim_space, insert, if◌then◌else◌,
}
use nf_sdk.Netmgr.Dictionary.{
  Variant, text, int64, addresses, uint32s, texts, Section, Settings, i64,
}
use nf_sdk.Netmgr.Bus.{
  Bus, Failure, invalid_address, invalid_netmask, invalid_gateway, invalid_dns, Outcome, ok, err,
}
use nf_sdk.Netmgr.Profiles.{ensure_owned, update}

pub data Ip : Type 0 where
  ip4 : ℕ → Ip
  ip6 : Text → Ip

pub record Parsing : Type 0 where
  pub parse_ip : Text → Option Ip
  pub scan_number : Text → Option ℕ

-- `StaticConfig`
pub record StaticConfig : Type 0 where
  pub address : Text
  pub netmask : Text
  pub gateway : Text
  pub dns : List Text
  pub search : List Text

-- `To4`, of an address that may be nil
abbrev pub to4 : Option Ip → Option ℕ
to4 (some (ip4 n)) = some n
to4 _ = none

-- The mask of a prefix length up to 32.
abbrev pub mask_of : ℕ → ℕ
mask_of p = 2 ^ 32 - 2 ^ (32 - p)

-- `IPMask.Size`, from this length down
unfoldable pub mask_length : ℕ → ℕ → Option ℕ
mask_length zero mask = if mask == mask_of 0 then some 0 else none
mask_length (suc p) mask =
    let rest = mask_length p mask in if mask == mask_of (suc p) then some (suc p) else rest

at_most_32 : Option ℕ → Option ℕ
at_most_32 none = none
at_most_32 (some n) = if ltb 32 n then none else some n

masked_length : Option ℕ → Option ℕ
unfolding mask_length
masked_length none = none
masked_length (some mask) = mask_length 32 mask

module _ (parsing : Parsing) where
  -- `NetmaskToPrefix`
  unfoldable pub netmask_to_prefix : Text → Option ℕ
  unfolding at_most_32 masked_length
  netmask_to_prefix m =
      let mask = trim_space m in
      if is_empty mask
      then none
      else if not (text_contains mask (codes "."))
      then at_most_32 (parsing.scan_number mask)
      else masked_length (to4 (parsing.parse_ip mask))

  -- The gateway lies in the subnet of the address and is not the address.
  unfoldable pub gateway_fits : ℕ → ℕ → Option ℕ → Bool
  gateway_fits ip prefix none = false
  gateway_fits ip prefix (some gw) =
      ip / 2 ^ (32 - prefix) == gw / 2 ^ (32 - prefix) && not (gw == ip)

  unfoldable pub dns_valid : List Text → Bool
  dns_valid [] = true
  dns_valid (d ∷ ds) =
      let rest = dns_valid ds in elim (parsing.parse_ip d) [ none ↦ false | some ip ↦ rest ]

  unfoldable pub validate_rest : StaticConfig → ℕ → ℕ → Option Failure
  unfolding gateway_fits dns_valid
  validate_rest c ip prefix =
      let gw = trim_space c.gateway in
      if prefix == 0 || ltb 30 prefix
      then some invalid_netmask
      else if not (is_empty gw) && not (gateway_fits ip prefix (to4 (parsing.parse_ip gw)))
      then some invalid_gateway
      else if not (dns_valid c.dns)
      then some invalid_dns
      else none

  unfoldable pub validate_parts : StaticConfig → Option ℕ → Option ℕ → Option Failure
  unfolding validate_rest
  validate_parts c none prefix = some invalid_address
  validate_parts c (some ip) none = some invalid_netmask
  validate_parts c (some ip) (some prefix) = validate_rest c ip prefix

  -- `Validate`
  unfoldable pub validate : StaticConfig → Option Failure
  unfolding validate_parts netmask_to_prefix
  validate c =
      validate_parts c (to4 (parsing.parse_ip (trim_space c.address))) (netmask_to_prefix c.netmask)

  little_endian : ℕ → ℕ
  little_endian n =
      n / 2 ^ 24 + n / 2 ^ 16 % 2 ^ 8 * 2 ^ 8 + n / 2 ^ 8 % 2 ^ 8 * 2 ^ 16 + n % 2 ^ 8 * 2 ^ 24

  add_number : Option ℕ → List ℕ → List ℕ
  unfolding little_endian
  add_number none ns = ns
  add_number (some n) ns = little_endian n ∷ ns

  -- `ipToNMUint32`
  unfoldable pub ip_to_numbers : List Text → List ℕ
  unfolding add_number
  ip_to_numbers [] = []
  ip_to_numbers (s ∷ ss) =
      let rest = ip_to_numbers ss in
      let t = trim_space s in
      if is_empty t then rest else add_number (to4 (parsing.parse_ip t)) rest

  abbrev metric_kept : Settings → Section → Section
  metric_kept s kv =
      let metric = i64 s (codes "ipv4") (codes "route-metric") in
      if eqb_ℤ metric (pos 0) then kv else insert (codes "route-metric") (int64 metric) kv

  abbrev optional : Bool → Text → Variant → Section → Section
  optional b k v kv = if b then insert k v kv else kv

  static_section : StaticConfig → ℕ → Settings → Section
  unfolding ip_to_numbers
  static_section c prefix s =
      let gw = trim_space c.gateway in
      metric_kept s (
        optional (not (no_texts c.search)) (codes "dns-search") (texts c.search) (
          optional (not (no_texts c.dns)) (codes "dns") (uint32s (ip_to_numbers c.dns)) (
            optional (not (is_empty gw)) (codes "gateway") (text gw) (
              (codes "method", text (codes "manual"))
              ∷ (codes "address-data", addresses (trim_space c.address) prefix)
              ∷ []))))
    where
      no_texts : List Text → Bool
      no_texts [] = true
      no_texts (t ∷ ts) = false

  -- The dictionary that `SetStatic` and `SetDHCP` write.
  unfoldable pub static_settings : StaticConfig → ℕ → Settings → Settings
  unfolding static_section
  static_settings c prefix s = insert (codes "ipv4") (static_section c prefix s) s

  unfoldable pub dhcp_settings : Settings → Settings
  dhcp_settings s =
      insert (codes "ipv4") (metric_kept s ((codes "method", text (codes "auto")) ∷ [])) s

module _ (parsing : Parsing) {W : Type 0} (bus : Bus W) where
  unfoldable pub write_owned :
      (Settings → Settings) → Text → Outcome (Text × Settings) × W → Outcome (Unit {0}) × W
  write_owned change iface (err e, w) = (err e, w)
  write_owned change iface (ok (p, s), w) = update bus iface p (change s) w

  -- What `SetDHCP` does, and `SetStatic` once its arguments are valid.
  unfoldable pub change_owned :
      (Settings → Settings) → Text → Option Text → W → Outcome (Unit {0}) × W
  unfolding write_owned
  change_owned change iface uuid w = write_owned change iface (ensure_owned bus iface uuid w)

  -- `SetDHCP`
  unfoldable pub set_dhcp : Text → Option Text → W → Outcome (Unit {0}) × W
  unfolding change_owned dhcp_settings
  set_dhcp iface uuid w = change_owned (dhcp_settings parsing) iface uuid w

  unfoldable pub set_valid :
      Text → StaticConfig → Option ℕ → Option Text → W → Outcome (Unit {0}) × W
  unfolding change_owned static_settings
  set_valid iface c none uuid w = (err invalid_netmask, w)
  set_valid iface c (some prefix) uuid w =
      change_owned (static_settings parsing c prefix) iface uuid w

  unfoldable pub set_checked :
      Text → StaticConfig → Option Failure → Option Text → W → Outcome (Unit {0}) × W
  unfolding set_valid netmask_to_prefix
  set_checked iface c (some e) uuid w = (err e, w)
  set_checked iface c none uuid w = set_valid iface c (netmask_to_prefix parsing c.netmask) uuid w

  -- `SetStatic`
  unfoldable pub set_static : Text → StaticConfig → Option Text → W → Outcome (Unit {0}) × W
  unfolding set_checked validate
  set_static iface c uuid w = set_checked iface c (validate parsing c) uuid w

abbrev is_dns_separator : ℕ → Bool
is_dns_separator c = c == 44 || c == 32 || c == 59 || c == 10 || c == 9

-- `ParseDNSList`
unfoldable pub parse_dns_list : Parsing → Text → Option (List Text)
unfolding dns_valid fields_func
parse_dns_list parsing s =
    let fields = fields_func is_dns_separator s in
    if dns_valid parsing fields then some fields else none
