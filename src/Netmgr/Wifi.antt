-- ===== src/Netmgr/Wifi.antt =====
-- Joining a Wi-Fi network: `SetWifi` and `waitActivated` of
-- balena/network-config/internal/netmgr/wifi.go, and `SetEnabled` of ipv4.go there. Times are in
-- nanoseconds.
use nf_sdk.Base.{
  ℕ, zero, suc, ◌+◌, ◌*◌, ◌==◌, Bool, true, false, Option, none, some, [], ◌∷◌, Text, codes, insert,
  remove, is_empty, if◌then◌else◌,
}
use nf_sdk.Netmgr.Dictionary.{text, bytes, Section, Settings, sanitize}
use nf_sdk.Netmgr.Bus.{Bus, Failure, no_device, not_updated, not_activated, Outcome, ok, err}
use nf_sdk.Netmgr.Profiles.{ensure_owned}

pub data JoinError : Type 0 where
  no_ssid timed_out rejected deactivated : JoinError
  failed : Failure → JoinError

-- What NetworkManager and the clock do besides: `ActivateConnection` with the active connection that
-- it gives, the state of one, and the wait of a second, which is cut short (`false`) once the context
-- is done, by the deadline or before.
pub record Radio (W : Type 0) : Type 0 where
  pub now : W → ℕ
  pub activate_path : Text → Text → W → Option Text × W
  pub state_of : Text → W → Option ℕ
  pub next_second : ℕ → W → Bool × W

abbrev pub second : ℕ
second = 1000000000

unfoldable pub join_limit : ℕ
join_limit = 30 * second

abbrev pub wireless : Text → Section
wireless ssid = (codes "ssid", bytes ssid) ∷ (codes "mode", text (codes "infrastructure")) ∷ []

-- The dictionary that `SetWifi` writes.
unfoldable pub join_settings : Text → Text → Settings → Settings
unfolding sanitize
join_settings ssid psk s = sanitize (
    if is_empty psk
    then remove (codes "802-11-wireless-security")
        (insert (codes "802-11-wireless") (wireless ssid) s)
    else insert (codes "802-11-wireless-security")
        ((codes "key-mgmt", text (codes "wpa-psk")) ∷ (codes "psk", text psk) ∷ [])
        (insert (codes "802-11-wireless")
          (insert (codes "security") (text (codes "802-11-wireless-security")) (wireless ssid)) s))

module _ {W : Type 0} (bus : Bus W) (radio : Radio W) where
  abbrev pub judge_state :
      (W → Option (Option JoinError × W)) → W → Option ℕ → Option (Option JoinError × W)
  judge_state again w none = some (some rejected, w)
  judge_state again w (some n) = elim (n == 2) [
    | true ↦ some (none, w)
    | false ↦ elim (n == 4) [ true ↦ some (some deactivated, w) | false ↦ again w ]
  ]

  abbrev pub after_second :
      (W → Option (Option JoinError × W)) → Text → Bool × W → Option (Option JoinError × W)
  after_second again active (false, w) = some (some timed_out, w)
  after_second again active (true, w) = judge_state again w (radio.state_of active w)

  -- The loop of `waitActivated`, up to a deadline
  unfoldable pub wait_activated : ℕ → Text → ℕ → W → Option (Option JoinError × W)
  wait_activated zero active deadline w = none
  wait_activated (suc fuel) active deadline w =
      after_second (λ later. wait_activated fuel active deadline later) active
        (radio.next_second deadline w)

  unfoldable pub after_activate : ℕ → Option Text × W → Option (Option JoinError × W)
  unfolding wait_activated join_limit
  after_activate fuel (none, w) = some (some (failed not_activated), w)
  after_activate fuel (some active, w) = wait_activated fuel active (radio.now w + join_limit) w

  unfoldable pub activate_joined : ℕ → Text → Option Text → W → Option (Option JoinError × W)
  unfolding after_activate
  activate_joined fuel p none w = some (some (failed no_device), w)
  activate_joined fuel p (some dev) w = after_activate fuel (radio.activate_path p dev w)

  unfoldable pub after_written : ℕ → Text → Text → Bool × W → Option (Option JoinError × W)
  unfolding activate_joined
  after_written fuel iface p (false, w) = some (some (failed not_updated), w)
  after_written fuel iface p (true, w) = activate_joined fuel p (bus.find_device iface w) w

  unfoldable pub write_joined :
      ℕ → Text → Text → Text → Outcome (Text × Settings) × W → Option (Option JoinError × W)
  unfolding after_written join_settings
  write_joined fuel iface ssid psk (err e, w) = some (some (failed e), w)
  write_joined fuel iface ssid psk (ok (p, s), w) =
      after_written fuel iface p (bus.update_profile p (join_settings ssid psk s) w)

  -- `SetWifi`
  unfoldable pub set_wifi : ℕ → Text → Text → Text → Option Text → W → Option (Option JoinError × W)
  unfolding write_joined
  set_wifi fuel iface ssid psk uuid w =
      if is_empty ssid
      then some (some no_ssid, w)
      else write_joined fuel iface ssid psk (ensure_owned bus iface uuid w)
