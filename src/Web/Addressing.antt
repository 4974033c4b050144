-- ===== src/Web/Addressing.antt =====
-- The form for the address of an interface: `postIPv4` of
-- balena/network-config/internal/web/mutations.go, over the rollback guard and NetworkManager.
use nf_sdk.Base.{
  ℕ, Bool, true, false, Option, none, some, Text, codes, text_eq, trim_space, if◌then◌else◌, List,
  [],
}
use nf_sdk.Netmgr.Bus.{Bus, Failure, Outcome, ok, err}
use nf_sdk.Netmgr.Profiles.{Snapshot, snapshot, restore}
use nf_sdk.Netmgr.Address.{Parsing, parse_dns_list, set_dhcp, set_static}
use nf_sdk.Web.Pending.{Change, Guard, arm, expire, is_pending}

-- The values of the form, the time, and what the random sources give: the UUID of a new profile, and
-- the token of a pending change.
pub record Form : Type 0 where
  pub iface : Text
  pub method : Text
  pub address : Text
  pub netmask : Text
  pub gateway : Text
  pub dns : Text
  pub now : ℕ
  pub uuid : Option Text
  pub token : Option Text

pub record Device (W : Type 0) : Type 0 where
  pub guard : Guard Snapshot
  pub world : W

pub data Answer : Type 0 where
  unknown_method bad_dns : Answer
  failed : Failure → Answer
  guarded unguarded : Answer

module _ (parsing : Parsing) {W : Type 0} (bus : Bus W) where
  -- `armPending`; without a token there is no guard.
  unfoldable pub arm_change : Form → Snapshot → Option Text → Device W → Answer × Device W
  arm_change f snap none d = (unguarded, d)
  arm_change f snap (some token) d =
      (guarded, record d { guard = arm none f.now token f.iface snap d.guard })

  unfoldable pub after_change :
      Form → Snapshot → Guard Snapshot → Outcome (Unit {0}) × W → Answer × Device W
  unfolding arm_change
  after_change f snap g (err e, w) = (failed e, record { guard = g; world = w })
  after_change f snap g (ok u, w) = arm_change f snap f.token record { guard = g; world = w }

  unfoldable pub set_manual : Form → Snapshot → Option (List Text) → Device W → Answer × Device W
  unfolding after_change
  set_manual f snap none d = (bad_dns, d)
  set_manual f snap (some dns) d = after_change f snap d.guard (
      set_static parsing bus f.iface
        record {
          address = trim_space f.address;
          netmask = trim_space f.netmask;
          gateway = trim_space f.gateway;
          dns = dns;
          search = [];
        }
        f.uuid d.world)

  -- `postIPv4`, where there is a manager
  unfoldable pub post_ipv4 : Form → Device W → Answer × Device W
  unfolding after_change set_manual
  post_ipv4 f d =
      let snap = snapshot bus f.iface d.world in
      if text_eq f.method (codes "auto")
      then after_change f snap d.guard (set_dhcp parsing bus f.iface f.uuid d.world)
      else if text_eq f.method (codes "manual")
      then set_manual f snap (parse_dns_list parsing f.dns) d
      else (unknown_method, d)

  abbrev succeeds : Outcome (Unit {0}) → Bool
  succeeds (ok u) = true
  succeeds (err e) = false

  -- `watchPending` once its timer has run out, on the device.
  unfoldable pub run_timer : Change Snapshot → Device W → Device W
  run_timer pc d = record {
    guard = expire (some (λ s. succeeds (restore bus s d.world).0)) pc d.guard;
    world =
        if is_pending none pc d.guard.pending then (restore bus pc.snapshot d.world).1 else d.world;
  }
