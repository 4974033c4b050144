-- ===== src/Netmgr/Profiles.antt =====
-- The profiles nf-<iface> that netcfgd owns: balena/network-config/internal/netmgr/profiles.go.
use nf_sdk.Base.{
  Bool, true, false, ◌&&◌, ◌||◌, Option, none, some, List, [], ◌∷◌, Text, codes, text_eq, is_empty,
  if◌then◌else◌,
}
use nf_sdk.Netmgr.Dictionary.{Settings, str, sanitize}
use nf_sdk.Netmgr.Seeding.{profile_id, conn_type, seed, fresh_profile}
use nf_sdk.Netmgr.Bus.{
  Bus, no_device, unsupported_type, no_uuid, not_added, not_updated, not_activated, not_deleted,
  Outcome, ok, err,
}

unfoldable pub is_owned : Text → Settings → Bool
unfolding str
is_owned iface s =
    text_eq (str s (codes "connection") (codes "id")) (profile_id iface)
    && text_eq (str s (codes "connection") (codes "interface-name")) iface

abbrev owned_or :
    Text → Text → Option Settings → Option (Text × Settings) → Option (Text × Settings)
owned_or iface path none rest = rest
owned_or iface path (some s) rest = if is_owned iface s then some (path, s) else rest

-- A path that is not "/" and not empty.
real_path : Option Text → Option Text
real_path none = none
real_path (some p) = if text_eq p (codes "/") || is_empty p then none else some p

pub record Snapshot : Type 0 where
  pub iface : Text
  pub settings : Option Settings

abbrev pub settings_of : Option (Text × Settings) → Option Settings
settings_of none = none
settings_of (some (p, s)) = some s

module _ {W : Type 0} (bus : Bus W) where
  -- The first of these profiles that netcfgd owns for an interface.
  unfoldable pub first_owned : Text → W → List Text → Option (Text × Settings)
  first_owned iface w [] = none
  first_owned iface w (p ∷ ps) =
      let rest = first_owned iface w ps in owned_or iface p (bus.get_settings p w) rest

  abbrev or_nothing : Text → W → Option (List Text) → Option (Text × Settings)
  or_nothing iface w none = none
  or_nothing iface w (some ps) = first_owned iface w ps

  -- `findOwned`
  unfoldable pub find_owned : Text → W → Option (Text × Settings)
  find_owned iface w = or_nothing iface w (bus.list_connections w)

  active_profile : W → Option Text → Option Settings
  active_profile w none = none
  active_profile w (some p) = bus.get_settings p w

  active_of : W → Option Text → Option Settings
  unfolding active_profile real_path
  active_of w none = none
  active_of w (some ac) = active_profile w (real_path (bus.profile_of ac w))

  -- `activeSettings`
  unfoldable pub active_settings : Text → W → Option Settings
  unfolding active_of real_path
  active_settings dev w = active_of w (real_path (bus.active_connection dev w))

  unfoldable pub added : Settings → Option Text × W → Outcome (Text × Settings) × W
  added s (none, w) = (err not_added, w)
  added s (some p, w) = (ok (p, s), w)

  -- The profile as it is added.
  unfoldable pub new_profile : Text → Text → Text → Text → W → Settings
  unfolding seed sanitize
  new_profile iface uuid dev ctype w =
      sanitize (seed ctype (active_settings dev w) (fresh_profile iface uuid ctype))

  unfoldable pub create_typed :
      Text → Option Text → Text → Option Text → W → Outcome (Text × Settings) × W
  unfolding added
  create_typed iface uuid dev none w = (err unsupported_type, w)
  create_typed iface none dev (some ctype) w = (err no_uuid, w)
  create_typed iface (some uuid) dev (some ctype) w =
      let s = new_profile iface uuid dev ctype w in added s (bus.add_profile s w)

  unfoldable pub create_on : Text → Option Text → Option Text → W → Outcome (Text × Settings) × W
  unfolding create_typed conn_type
  create_on iface uuid none w = (err no_device, w)
  create_on iface uuid (some dev) w =
      create_typed iface uuid dev (conn_type (bus.device_type dev w)) w

  unfoldable pub ensure_from :
      Text → Option Text → Option (Text × Settings) → W → Outcome (Text × Settings) × W
  unfolding create_on
  ensure_from iface uuid (some found) w = (ok found, w)
  ensure_from iface uuid none w = create_on iface uuid (bus.find_device iface w) w

  -- `ensureOwned`, given what `uuid4` would return
  unfoldable pub ensure_owned : Text → Option Text → W → Outcome (Text × Settings) × W
  unfolding ensure_from find_owned
  ensure_owned iface uuid w = ensure_from iface uuid (find_owned iface w) w

  unfoldable pub activated : Bool × W → Outcome (Unit {0}) × W
  activated (true, w) = (ok tt, w)
  activated (false, w) = (err not_activated, w)

  unfoldable pub activate_on : Text → Option Text → W → Outcome (Unit {0}) × W
  unfolding activated
  activate_on path none w = (err no_device, w)
  activate_on path (some dev) w = activated (bus.activate path dev w)

  unfoldable pub after_update : Text → Text → Bool × W → Outcome (Unit {0}) × W
  unfolding activate_on
  after_update iface path (false, w) = (err not_updated, w)
  after_update iface path (true, w) = activate_on path (bus.find_device iface w) w

  -- `update`
  unfoldable pub update : Text → Text → Settings → W → Outcome (Unit {0}) × W
  unfolding after_update sanitize
  update iface path s w = after_update iface path (bus.update_profile path (sanitize s) w)

  -- `Snapshot`; no settings where the profile did not exist
  unfoldable pub snapshot : Text → W → Snapshot
  unfolding find_owned
  snapshot iface w = record { iface = iface; settings = settings_of (find_owned iface w) }

  unfoldable pub fall_back : Option Text → W → Outcome (Unit {0}) × W
  fall_back none w = (err no_device, w)
  fall_back (some dev) w = (ok tt, (bus.activate (codes "/") dev w).1)

  unfoldable pub after_delete : Text → Bool × W → Outcome (Unit {0}) × W
  unfolding fall_back
  after_delete iface (false, w) = (err not_deleted, w)
  after_delete iface (true, w) = fall_back (bus.find_device iface w) w

  unfoldable pub restore_over :
      Text → Option Settings → Option (Text × Settings) → W → Outcome (Unit {0}) × W
  unfolding after_delete update
  restore_over iface saved none w = (ok tt, w)
  restore_over iface none (some (p, s)) w = after_delete iface (bus.delete_profile p w)
  restore_over iface (some saved) (some (p, s)) w = update iface p saved w

  -- `Restore`
  unfoldable pub restore : Snapshot → W → Outcome (Unit {0}) × W
  unfolding restore_over find_owned
  restore snap w = restore_over snap.iface snap.settings (find_owned snap.iface w) w
