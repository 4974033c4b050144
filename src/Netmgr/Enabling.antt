-- ===== src/Netmgr/Enabling.antt =====
-- Turning an interface on and off: `SetEnabled` of balena/network-config/internal/netmgr/ipv4.go. Calls
-- whose answer the code drops only change the state of NetworkManager.
use nf_sdk.Base.{ℕ, ◌==◌, Bool, true, false, Option, none, some, Text, codes, if◌then◌else◌}
use nf_sdk.Netmgr.Dictionary.{Settings}
use nf_sdk.Netmgr.Bus.{Bus, Failure, no_device, not_activated, not_disconnected, Outcome, ok, err}
use nf_sdk.Netmgr.Profiles.{find_owned}

pub record Switches (W : Type 0) : Type 0 where
  pub set_wireless : Bool → W → W
  pub set_autoconnect : Text → Bool → W → W
  pub disconnect : Text → W → Bool × W

-- `devTypeWifi`
abbrev pub wifi_type : ℕ
wifi_type = 2

abbrev pub path_or_root : Option (Text × Settings) → Text
path_or_root none = codes "/"
path_or_root (some (p, s)) = p

abbrev pub succeeded : Failure → {W : Type 0} → Bool × W → Outcome (Unit {0}) × W
succeeded e (true, w) = (ok tt, w)
succeeded e (false, w) = (err e, w)

module _ {W : Type 0} (bus : Bus W) (switches : Switches W) where
  unfoldable pub enable : Text → Text → W → Outcome (Unit {0}) × W
  enable iface dev w =
      if bus.device_type dev w == wifi_type
      then (ok tt, switches.set_autoconnect dev true (switches.set_wireless true w))
      else succeeded not_activated (bus.activate (path_or_root (find_owned bus iface w)) dev w)

  unfoldable pub disable : Text → W → Outcome (Unit {0}) × W
  disable dev w =
      if bus.device_type dev w == wifi_type
      then (
        ok tt,
        switches.set_wireless false
            (switches.set_autoconnect dev false (switches.disconnect dev w).1),
      )
      else succeeded not_disconnected (switches.disconnect dev w)

  unfoldable pub switch_device : Text → Bool → Option Text → W → Outcome (Unit {0}) × W
  unfolding enable disable
  switch_device iface enabled none w = (err no_device, w)
  switch_device iface enabled (some dev) w = if enabled then enable iface dev w else disable dev w

  unfoldable pub set_enabled : Text → Bool → W → Outcome (Unit {0}) × W
  unfolding switch_device
  set_enabled iface enabled w = switch_device iface enabled (bus.find_device iface w) w
