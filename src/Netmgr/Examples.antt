-- ===== src/Netmgr/Examples.antt =====
-- Addressing set on the sample NetworkManager.
use nf_sdk.Base.{pos, [], ◌∷◌, List, none, codes, refl, ◌≡◌}
use nf_sdk.Base.{ℕ, ◌+◌, ltb, ltb→lt, Bool, true, false, Option, some, if◌then◌else◌, ap, arith}
use nf_sdk.Netmgr.Dictionary.{Settings}
use nf_sdk.Netmgr.Bus.{Bus}
use nf_sdk.Netmgr.Wifi.{Radio, second, set_wifi}
use nf_sdk.Netmgr.Joining.{IsClock, Concludes, set_wifi-Concludes}
use nf_sdk.Netmgr.Priority.{Rank, rank_error}
use nf_sdk.Netmgr.Ordering.{AllDecided, rank_error-AllDecided}
use nf_sdk.Netmgr.Address.{set_dhcp, set_static}
use nf_sdk.Netmgr.Change.{IsUndoable, addressing-IsUndoable}
use nf_sdk.Netmgr.Sample.{small_bus, small_bus-IsBus, small_bus-IsReadable, no_parsing, static_ip}

addressing-IsUndoable_example :
    IsUndoable small_bus small_bus-IsBus no_parsing
      (codes "eth0")
      none
      (set_dhcp no_parsing small_bus (codes "eth0") (some (codes "u")) none).1
    × IsUndoable small_bus small_bus-IsBus no_parsing
        (codes "eth0")
        none
        (set_static no_parsing small_bus (codes "eth0") static_ip (some (codes "u")) none).1
addressing-IsUndoable_example =
    addressing-IsUndoable small_bus small_bus-IsBus no_parsing (codes "eth0") static_ip
      (some (codes "u")) none (small_bus-IsReadable none)

abbrev two_ranks : List Rank
two_ranks =
    record { iface = codes "eth0"; rank = pos 1 }
    ∷ record { iface = codes "wlan0"; rank = pos 2 }
    ∷ []

two_ranks-accepted : rank_error [] two_ranks ≡ none
unfolding rank_error
two_ranks-accepted = refl

rank_error-AllDecided_example : AllDecided two_ranks
rank_error-AllDecided_example =
    rank_error-AllDecided two_ranks two_ranks-accepted (refl, (refl, tt))

-- The sample with a clock, on which an association takes two seconds.
abbrev Timed : Type 0
Timed = Option Settings × ℕ

abbrev timed_bus : Bus Timed
timed_bus = record {
  list_connections = λ w. small_bus.list_connections w.0;
  get_settings = λ p w. small_bus.get_settings p w.0;
  update_profile = λ p s w. let (b, v) = small_bus.update_profile p s w.0 in (b, (v, w.1));
  delete_profile = λ p w. let (b, v) = small_bus.delete_profile p w.0 in (b, (v, w.1));
  add_profile = λ s w. let (o, v) = small_bus.add_profile s w.0 in (o, (v, w.1));
  find_device = λ i w. some (codes "/d");
  device_type = λ d w. 2;
  active_connection = λ d w. none;
  profile_of = λ a w. none;
  activate = λ p d w. (true, w);
}

abbrev waited : Bool → Timed → Bool × Timed
waited true w = (true, (w.0, w.1 + second))
waited false w = (false, w)

abbrev slow_radio : Radio Timed
slow_radio = record {
  now = λ w. w.1;
  activate_path = λ p dev w. (some (codes "/a"), w);
  state_of = λ active w. if ltb w.1 2000000000 then some 1 else some 2;
  next_second = λ deadline w. waited (ltb w.1 deadline) w;
}

waited_law :
    (b : Bool) (w after : Timed)
    → waited b w ≡ (true, after)
    → (b ≡ true) × (w.1 + second ≡ after.1)
waited_law true w after h = (refl, ap (λ (r : Bool × Timed). r.1.1) h)
waited_law false w after h =
    let never : false ≡ true = ap (λ (r : Bool × Timed). r.0) h in absurd (cc)

slow_radio-IsClock : IsClock slow_radio
unfolding IsClock
slow_radio-IsClock deadline w after h =
    let (on, later) = waited_law (ltb w.1 deadline) w after h in
    (ltb→lt w.1 deadline on, omega (arith, later))

set_wifi-Concludes_example :
    Concludes timed_bus slow_radio (
      set_wifi timed_bus slow_radio 31
        (codes "wlan0")
        (codes "net")
        []
        (some (codes "u"))
        (none, 0))
set_wifi-Concludes_example =
    set_wifi-Concludes timed_bus slow_radio (codes "wlan0") (codes "net") [] (some (codes "u"))
      (none, 0) slow_radio-IsClock
