-- ===== src/Netmgr/Identity.antt =====
-- A profile stays netcfgd's own through the changes that netcfgd writes.
use nf_sdk.Base.{
  ℕ, Bool, true, false, ◌&&◌, Option, none, some, [], ◌∷◌, Text, codes, text_eq, text_eq_iff,
  text_eq_refl, lookup, insert, remove, lookup-insert, ◌≡◌, refl, arith, Bool-cases, inl, inr,
  subst, ◌∙◌, sym, and-eq-true,
}
use nf_sdk.Netmgr.Dictionary.{Section, Settings, str, sanitize, clean_section}
use nf_sdk.Netmgr.Profiles.{is_owned, new_profile, active_settings}
use nf_sdk.Netmgr.Seeding.{
  profile_id, fresh_profile, seed, seed_wifi, seed_ipv4, seed_security, set_seeded, seeded,
}
use nf_sdk.Netmgr.Bus.{Bus}
use nf_sdk.Netmgr.Address.{dhcp_settings, static_settings, StaticConfig, Parsing}

-- Dictionaries with the same section `connection` belong to the same interface.
abbrev pub connection_of : Settings → Option Section
connection_of s = lookup (codes "connection") s

pub is_owned-same :
    (j : Text) (s t : Settings) → connection_of s ≡ connection_of t → is_owned j s ≡ is_owned j t
unfolding is_owned str
is_owned-same j s t h = rw h

abbrev IsApart : Text → Type 0
IsApart name = text_eq name (codes "connection") ≡ false

connection-insert :
    (name : Text) (kv : Section) (s : Settings)
    → IsApart name
    → connection_of (insert name kv s) ≡ connection_of s
connection-insert name kv s h = rw (lookup-insert name (codes "connection") kv s, h)

connection-clean :
    (name : Text) (o : Option Section) (s : Settings)
    → IsApart name
    → connection_of (clean_section name o s) ≡ connection_of s
unfolding clean_section
connection-clean name none s h = refl
connection-clean name (some kv) s h =
    connection-insert name (remove (codes "routes") (remove (codes "addresses") kv)) s h

ipv4-IsApart : IsApart (codes "ipv4")
unfolding text_eq
ipv4-IsApart = refl

ipv6-IsApart : IsApart (codes "ipv6")
unfolding text_eq
ipv6-IsApart = refl

pub connection-sanitize : (s : Settings) → connection_of (sanitize s) ≡ connection_of s
unfolding sanitize
connection-sanitize s =
    let t = clean_section (codes "ipv4") (lookup (codes "ipv4") s) s in
    connection-clean (codes "ipv6") (lookup (codes "ipv6") t) t ipv6-IsApart
    ∙ connection-clean (codes "ipv4") (lookup (codes "ipv4") s) s ipv4-IsApart

pub connection-dhcp :
    (parsing : Parsing) (s : Settings) → connection_of (dhcp_settings parsing s) ≡ connection_of s
unfolding dhcp_settings
connection-dhcp parsing s = connection-insert (codes "ipv4") _ s ipv4-IsApart

pub connection-static :
    (parsing : Parsing) (c : StaticConfig) (prefix : ℕ) (s : Settings)
    → connection_of (static_settings parsing c prefix s) ≡ connection_of s
unfolding static_settings
connection-static parsing c prefix s = connection-insert (codes "ipv4") _ s ipv4-IsApart

other_name :
    (a b : Bool) (x j k : Text)
    → (a && text_eq x j) ≡ true
    → text_eq j k ≡ false
    → (b && text_eq x k) ≡ false
other_name a b x j k h n =
    let same : x ≡ j = (text_eq_iff x j).0 (and-eq-true a (text_eq x j) h).1 in
    let apart : text_eq x k ≡ false = subst (λ y. text_eq y k ≡ false) (sym same) n in ground arith

-- An owned profile belongs to one interface.
pub is_owned-one :
    (j k : Text) (s : Settings) → is_owned j s ≡ true → text_eq j k ≡ false → is_owned k s ≡ false
unfolding is_owned
is_owned-one j k s h n =
    let name = str s (codes "connection") (codes "interface-name") in
    let id = str s (codes "connection") (codes "id") in
    other_name (text_eq id (profile_id j)) (text_eq id (profile_id k)) name j k h n

wifi-IsApart : IsApart (codes "802-11-wireless")
unfolding text_eq
wifi-IsApart = refl

security-IsApart : IsApart (codes "802-11-wireless-security")
unfolding text_eq
security-IsApart = refl

seed_ipv4-connection :
    (o : Option Section) (s : Settings) → connection_of (seed_ipv4 o s) ≡ connection_of s
unfolding seed_ipv4
seed_ipv4-connection none s = refl
seed_ipv4-connection (some v4) s = set (seeded v4)
  where
    set : (kv : Section) → connection_of (set_seeded kv s) ≡ connection_of s
    set [] = refl
    set (e ∷ kv) = connection-insert (codes "ipv4") (e ∷ kv) s ipv4-IsApart

seed_security-connection :
    (o : Option Section) (s : Settings) → connection_of (seed_security o s) ≡ connection_of s
unfolding seed_security
seed_security-connection none s = refl
seed_security-connection (some sec) s =
    connection-insert (codes "802-11-wireless-security") sec s security-IsApart

seed_wifi-connection :
    (ctype : Text) (active : Settings) (o : Option Section) (s : Settings)
    → connection_of (seed_wifi ctype active o s) ≡ connection_of s
unfolding seed_wifi
seed_wifi-connection ctype active none s = refl
seed_wifi-connection ctype active (some w) s =
    elim (Bool-cases (text_eq ctype (codes "802-11-wireless"))) [
      | inl e ↦
          let same : ctype ≡ codes "802-11-wireless" =
            (text_eq_iff ctype (codes "802-11-wireless")).0 e in
          let apart : IsApart ctype = subst (λ t. IsApart t) (sym same) wifi-IsApart in
          rw e (
            seed_security-connection (lookup (codes "802-11-wireless-security") active)
              (insert ctype w s)
            ∙ connection-insert ctype w s apart)
      | inr e ↦ rw e refl
    ]

seed-connection :
    (ctype : Text) (o : Option Settings) (s : Settings)
    → connection_of (seed ctype o s) ≡ connection_of s
unfolding seed
seed-connection ctype none s = refl
seed-connection ctype (some active) s =
    seed_wifi-connection ctype active (lookup (codes "802-11-wireless") active)
      (seed_ipv4 (lookup (codes "ipv4") active) s)
    ∙ seed_ipv4-connection (lookup (codes "ipv4") active) s

fresh-owned : (iface uuid ctype : Text) → is_owned iface (fresh_profile iface uuid ctype) ≡ true
unfolding is_owned str lookup text_eq
fresh-owned iface uuid ctype = rw (text_eq_refl iface)

-- A new profile belongs to its interface.
pub new_profile-owned :
    {W : Type 0} (bus : Bus W) (iface uuid dev ctype : Text) (w : W)
    → is_owned iface (new_profile bus iface uuid dev ctype w) ≡ true
unfolding new_profile
new_profile-owned bus iface uuid dev ctype w =
    let seeded = seed ctype (active_settings bus dev w) (fresh_profile iface uuid ctype) in
    is_owned-same iface (sanitize seeded) (fresh_profile iface uuid ctype) (
      connection-sanitize seeded
      ∙ seed-connection ctype (active_settings bus dev w) (fresh_profile iface uuid ctype))
    ∙ fresh-owned iface uuid ctype
