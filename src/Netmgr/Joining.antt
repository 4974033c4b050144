-- ===== src/Netmgr/Joining.antt =====
-- That `SetWifi` of balena/network-config/internal/netmgr/wifi.go comes to an end, and what it goes by.
use nf_sdk.Base.{
  ℕ, zero, suc, ◌+◌, ◌*◌, ◌<◌, ◌≤◌, ◌==◌, Bool, true, false, Option, none, some, Text, is_empty,
  ◌≡◌, refl, arith, Bool-cases, ==_iff, inl, inr, if_both,
}
use nf_sdk.Netmgr.Dictionary.{Settings}
use nf_sdk.Netmgr.Bus.{Bus, Outcome, ok, err}
use nf_sdk.Netmgr.Profiles.{ensure_owned}
use nf_sdk.Netmgr.Wifi.{
  JoinError, no_ssid, timed_out, rejected, deactivated, failed, Radio, second, join_limit,
  judge_state, after_second, wait_activated, after_activate, activate_joined, after_written,
  write_joined, set_wifi,
}

-- A second that is waited out began before the deadline, and took a second.
unfoldable pub IsClock : {W : Type 0} → Radio W → Type 0
IsClock {W} radio =
    (deadline : ℕ) (w after : W)
    → radio.next_second deadline w ≡ (true, after)
    → (radio.now w < deadline) × (radio.now w + second ≤ radio.now after)

module _ {W : Type 0} (bus : Bus W) (radio : Radio W) where
  -- Success, and each verdict on the password, stands on a state that was read.
  abbrev pub IsVerdict : Option JoinError → Type 0
  IsVerdict none = (active : Text) × (w : W) × (radio.state_of active w ≡ some 2)
  IsVerdict (some rejected) = (active : Text) × (w : W) × (radio.state_of active w ≡ none)
  IsVerdict (some deactivated) = (active : Text) × (w : W) × (radio.state_of active w ≡ some 4)
  IsVerdict (some no_ssid) = Unit
  IsVerdict (some timed_out) = Unit
  IsVerdict (some (failed e)) = Unit

  abbrev pub Concludes : Option (Option JoinError × W) → Type 0
  Concludes o = (r : Option JoinError × W) × (o ≡ some r) × IsVerdict r.0

  judge_state-Concludes :
      (again : W → Option (Option JoinError × W)) (active : Text) (w : W) (o : Option ℕ)
      → radio.state_of active w ≡ o
      → Concludes (again w)
      → Concludes (judge_state bus radio again w o)
  judge_state-Concludes again active w none e h = (_, refl, (active, w, e))
  judge_state-Concludes again active w (some n) e h = elim (Bool-cases (n == 2)) [
    | inl two ↦
        let same : n ≡ 2 = (==_iff n 2).0 two in
        rw (two, judge_state) ((none, w), refl, (active, w, rw same at e))
    | inr other ↦ elim (Bool-cases (n == 4)) [
      | inl four ↦
          let same : n ≡ 4 = (==_iff n 4).0 four in
          rw (other, four, judge_state) ((some deactivated, w), refl, (active, w, rw same at e))
      | inr more ↦ rw (other, more, judge_state) h
    ]
  ]

  after_second-Concludes :
      (again : W → Option (Option JoinError × W)) (active : Text) (r : Bool × W)
      → (r.0 ≡ true → Concludes (again r.1))
      → Concludes (after_second bus radio again active r)
  after_second-Concludes again active (false, w) h = (_, refl, tt)
  after_second-Concludes again active (true, w) h =
      judge_state-Concludes again active w (radio.state_of active w) refl (h refl)

  waited_out :
      IsClock radio
      → (deadline : ℕ) (w : W) → (radio.next_second deadline w).0 ≡ true
      → (radio.now w < deadline)
        × (radio.now w + second ≤ radio.now (radio.next_second deadline w).1)
  unfolding IsClock
  waited_out clock deadline w e =
      clock deadline w (radio.next_second deadline w).1
        (λ i. (e i, (radio.next_second deadline w).1))

  wait_activated-Concludes :
      IsClock radio
      → (fuel : ℕ) (active : Text) (deadline : ℕ) (w : W) → deadline ≤ radio.now w + fuel * second
      → Concludes (wait_activated bus radio (suc fuel) active deadline w)
  unfolding wait_activated
  wait_activated-Concludes clock zero active deadline w h =
      after_second-Concludes _ active (radio.next_second deadline w)
        (λ e. absurd (omega (arith, h, (waited_out clock deadline w e).0)))
  wait_activated-Concludes clock (suc fuel) active deadline w h =
      after_second-Concludes _ active (radio.next_second deadline w) (λ e.
        wait_activated-Concludes clock fuel active deadline (radio.next_second deadline w).1
          (omega (arith, h, (waited_out clock deadline w e).1)))

  module _ (clock : IsClock radio) where
    after_activate-Concludes : (r : Option Text × W) → Concludes (after_activate bus radio 31 r)
    unfolding after_activate join_limit
    after_activate-Concludes (none, w) = (_, refl, tt)
    after_activate-Concludes (some active, w) =
        wait_activated-Concludes clock 30 active (radio.now w + join_limit) w (omega arith)

    activate_joined-Concludes :
        (p : Text) (dev : Option Text) (w : W) → Concludes (activate_joined bus radio 31 p dev w)
    unfolding activate_joined
    activate_joined-Concludes p none w = (_, refl, tt)
    activate_joined-Concludes p (some dev) w =
        after_activate-Concludes (radio.activate_path p dev w)

    after_written-Concludes :
        (iface p : Text) (r : Bool × W) → Concludes (after_written bus radio 31 iface p r)
    unfolding after_written
    after_written-Concludes iface p (false, w) = (_, refl, tt)
    after_written-Concludes iface p (true, w) =
        activate_joined-Concludes p (bus.find_device iface w) w

    write_joined-Concludes :
        (iface ssid psk : Text) (r : Outcome (Text × Settings) × W)
        → Concludes (write_joined bus radio 31 iface ssid psk r)
    unfolding write_joined
    write_joined-Concludes iface ssid psk (err e, w) = (_, refl, tt)
    write_joined-Concludes iface ssid psk (ok (p, s), w) =
        after_written-Concludes iface p (bus.update_profile p _ w)

  -- Where the context is done thirty seconds after its start and a wait takes a second, 31 polls are
  -- enough: joining a network comes to an end, with success only where NetworkManager showed an active
  -- connection as activated, and with a verdict on the password only where it showed one as gone or
  -- deactivated.
  pub set_wifi-Concludes :
      (iface ssid psk : Text) (uuid : Option Text) (w : W)
      → IsClock radio
      → Concludes (set_wifi bus radio 31 iface ssid psk uuid w)
  unfolding set_wifi
  set_wifi-Concludes iface ssid psk uuid w clock =
      if_both Concludes (is_empty ssid) _ _ (_, refl, tt)
        (write_joined-Concludes clock iface ssid psk (ensure_owned bus iface uuid w))
