-- ===== src/Netmgr/Seeding.antt =====
-- A new profile, seeded from the one that is active: the part of `ensureOwned` in
-- balena/network-config/internal/netmgr/profiles.go that builds it.
use nf_sdk.Base.{
  ℕ, ◌==◌, ℤ, pos, true, Option, none, some, List, [], ◌∷◌, ◌++◌, Text, codes, text_eq, lookup,
  insert, if◌then◌else◌,
}
use nf_sdk.Netmgr.Dictionary.{Variant, text, flag, int32, Section, Settings}

-- `ProfileID`
abbrev pub profile_id : Text → Text
profile_id iface = codes "nf-" ++ iface

-- `ownedPriority`
abbrev pub owned_priority : ℤ
owned_priority = pos 100

-- `connType`, for Ethernet and Wi-Fi
unfoldable pub conn_type : ℕ → Option Text
conn_type t =
    if t == 1
    then some (codes "802-3-ethernet")
    else if t == 2
    then some (codes "802-11-wireless")
    else none

abbrev pub with_key : Text → Option Variant → Section → Section
with_key k none kv = kv
with_key k (some v) kv = (k, v) ∷ kv

unfoldable pub seed_keys : List Text → Section → Section
seed_keys [] v4 = []
seed_keys (k ∷ ks) v4 = let rest = seed_keys ks v4 in with_key k (lookup k v4) rest

abbrev pub seeded : Section → Section
seeded v4 =
    seed_keys
      (codes "method"
        ∷ codes "address-data"
        ∷ codes "gateway"
        ∷ codes "dns"
        ∷ codes "dns-search"
        ∷ codes "route-metric"
        ∷ [])
      v4

abbrev pub set_seeded : Section → Settings → Settings
set_seeded [] s = s
set_seeded (e ∷ kv) s = insert (codes "ipv4") (e ∷ kv) s

unfoldable pub seed_ipv4 : Option Section → Settings → Settings
unfolding seed_keys
seed_ipv4 none s = s
seed_ipv4 (some v4) s = set_seeded (seeded v4) s

unfoldable pub seed_security : Option Section → Settings → Settings
seed_security none s = s
seed_security (some sec) s = insert (codes "802-11-wireless-security") sec s

unfoldable pub seed_wifi : Text → Settings → Option Section → Settings → Settings
unfolding seed_security
seed_wifi ctype active none s = s
seed_wifi ctype active (some w) s =
    if text_eq ctype (codes "802-11-wireless")
    then seed_security (lookup (codes "802-11-wireless-security") active) (insert ctype w s)
    else s

unfoldable pub seed : Text → Option Settings → Settings → Settings
unfolding seed_ipv4 seed_wifi
seed ctype none s = s
seed ctype (some active) s =
    seed_wifi ctype active (lookup (codes "802-11-wireless") active)
      (seed_ipv4 (lookup (codes "ipv4") active) s)

abbrev pub fresh_profile : Text → Text → Text → Settings
fresh_profile iface uuid ctype =
    (
      codes "connection",
      (codes "id", text (profile_id iface))
          ∷ (codes "uuid", text uuid)
          ∷ (codes "type", text ctype)
          ∷ (codes "interface-name", text iface)
          ∷ (codes "autoconnect", flag true)
          ∷ (codes "autoconnect-priority", int32 owned_priority)
          ∷ [],
    )
    ∷ (ctype, [])
    ∷ (codes "ipv4", (codes "method", text (codes "auto")) ∷ [])
    ∷ (codes "ipv6", (codes "method", text (codes "auto")) ∷ [])
    ∷ []
