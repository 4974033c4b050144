-- ===== src/Netmgr/Sample.antt =====
-- A NetworkManager with room for one profile, for the examples. It does not show how a network is
-- secured.
use nf_sdk.Base.{
  Bool, true, false, Option, none, some, List, [], ◌∷◌, ◌++◌, Text, codes, text_eq, lookup, insert,
  remove, lookup-remove, ◌∙◌, ◌≡◌, refl, arith, if◌then◌else◌, map, All, ap,
}
use nf_sdk.Netmgr.Dictionary.{Settings, str}
use nf_sdk.Netmgr.Bus.{Bus}
use nf_sdk.Netmgr.Owned.{Profile, some-inj}
use nf_sdk.Netmgr.Laws.{IsBus, IsReadable}
use nf_sdk.Netmgr.Address.{Parsing, StaticConfig, ip4}

abbrev pub slot : Text
slot = codes "/1"

abbrev secured : Text
secured = codes "802-11-wireless-security"

abbrev pub without_secrets : Settings → Settings
without_secrets s = remove secured s

str-without_secrets :
    (key : Text) (s : Settings)
    → str (without_secrets s) (codes "connection") key ≡ str s (codes "connection") key
unfolding str
str-without_secrets key s =
    let kept : lookup (codes "connection") (remove secured s) ≡ lookup (codes "connection") s =
      lookup-remove secured (codes "connection") s ∙ (unfold text_eq in refl) in
    rw kept refl

abbrev pub in_slot : Option Settings → List Profile
in_slot none = []
in_slot (some s) = (slot, without_secrets s) ∷ []

abbrev pub put : Bool → Settings → Option Settings → Bool × Option Settings
put b s none = (false, none)
put b s (some t) = if b then (true, some s) else (false, some t)

abbrev pub clear : Bool → Option Settings → Bool × Option Settings
clear b none = (false, none)
clear b (some t) = if b then (true, none) else (false, some t)

abbrev pub fill : Settings → Option Settings → Option Text × Option Settings
fill s none = (some slot, some s)
fill s (some t) = (none, some t)

abbrev pub small_bus : Bus (Option Settings)
small_bus = record {
  list_connections = λ w. some (map (λ (e : Profile). e.0) (in_slot w));
  get_settings = λ p w. lookup p (in_slot w);
  update_profile = λ p s w. put (text_eq slot p) s w;
  delete_profile = λ p w. clear (text_eq slot p) w;
  add_profile = fill;
  find_device = λ i w. some (codes "/d");
  device_type = λ d w. 1;
  active_connection = λ d w. none;
  profile_of = λ a w. none;
  activate = λ p d w. (true, w);
}

put-in :
    (p : Text) (s : Settings) (b : Bool) (w : Option Settings)
    → text_eq slot p ≡ b
    → (put b s w).0 ≡ true
    → in_slot (put b s w).1 ≡ insert p (without_secrets s) (in_slot w)
unfolding insert
put-in p s b none e h = ground arith
put-in p s true (some t) e h = rw e
put-in p s false (some t) e h = ground arith

put-out :
    (s : Settings) (b : Bool) (w : Option Settings)
    → (put b s w).0 ≡ false
    → in_slot (put b s w).1 ≡ in_slot w
put-out s b none h = refl
put-out s true (some t) h = ground arith
put-out s false (some t) h = refl

clear-in :
    (p : Text) (b : Bool) (w : Option Settings)
    → text_eq slot p ≡ b
    → (clear b w).0 ≡ true
    → in_slot (clear b w).1 ≡ remove p (in_slot w)
unfolding remove
clear-in p b none e h = ground arith
clear-in p true (some t) e h = rw e
clear-in p false (some t) e h = ground arith

fill-in :
    (s : Settings) (w : Option Settings) (p : Text)
    → (fill s w).0 ≡ some p
    → (xs : List Profile) × (ys : List Profile) × ((in_slot w ≡ xs ++ ys)
        × (in_slot (fill s w).1 ≡ xs ++ ((p, without_secrets s) ∷ ys))
        × (lookup p (xs ++ ys) ≡ none))
unfolding lookup
fill-in s none p h = ([], [], (refl, ap (λ q. (q, without_secrets s) ∷ []) (some-inj h), refl))
fill-in s (some t) p h = ground arith

fill-out :
    (s : Settings) (w : Option Settings) → (fill s w).0 ≡ none → in_slot (fill s w).1 ≡ in_slot w
fill-out s none h = ground arith
fill-out s (some t) h = refl

stored :
    (w : Option Settings) → All (λ (e : Profile). lookup e.0 (in_slot w) ≡ some e.1) (in_slot w)
unfolding lookup text_eq
stored none = tt
stored (some s) = (refl, tt)

pub small_bus-IsBus : IsBus small_bus
unfolding lookup text_eq
small_bus-IsBus = record {
  profiles = in_slot;
  shown = without_secrets;
  shown_id = str-without_secrets (codes "id");
  shown_interface = str-without_secrets (codes "interface-name");
  single = stored;
  updated = λ p s w. put-in p s (text_eq slot p) w refl;
  not_updated = λ p s w. put-out s (text_eq slot p) w;
  deleted = λ p w. clear-in p (text_eq slot p) w refl;
  added = fill-in;
  not_added = fill-out;
  activated = λ p d w. refl;
}

pub small_bus-IsReadable : (w : Option Settings) → IsReadable small_bus small_bus-IsBus w
unfolding small_bus-IsBus
small_bus-IsReadable w = record { listed = refl; read = stored w }

abbrev pub no_parsing : Parsing
no_parsing = record { parse_ip = λ t. some (ip4 3232235777); scan_number = λ t. some 24 }

abbrev pub static_ip : StaticConfig
static_ip = record {
  address = codes "192.168.1.1";
  netmask = codes "24";
  gateway = [];
  dns = [];
  search = [];
}
