-- ===== src/Web/Interfaces.antt =====
-- The other forms for interfaces: `postWifi`, `postIfaceState` and `postPriority` of
-- balena/network-config/internal/web/mutations.go, where there is a manager. The words
-- that a page shows are left out.
use nf_sdk.Base.{
  ℕ, ℤ, leb_ℤ, Option, none, some, List, [], ◌∷◌, Text, codes, text_eq, starts_with, drop,
  trim_space, if◌then◌else◌,
}
use nf_sdk.Netmgr.Bus.{Bus, Failure, Outcome, ok, err}
use nf_sdk.Netmgr.Profiles.{Snapshot, snapshot}
use nf_sdk.Netmgr.Priority.{Rank, set_priority}
use nf_sdk.Netmgr.Wifi.{JoinError, Radio, set_wifi}
use nf_sdk.Netmgr.Enabling.{Switches, set_enabled}
use nf_sdk.Web.Session.{parse_int}
use nf_sdk.Web.Pending.{Guard, arm}
use nf_sdk.Web.Addressing.{Device}

pub record WifiForm : Type 0 where
  pub iface : Text
  pub ssid : Text
  pub psk : Text
  pub now : ℕ
  pub uuid : Option Text
  pub token : Option Text

pub data Answer : Type 0 where
  not_joined : JoinError → Answer
  failed : Failure → Answer
  invalid_rank no_ranks : Answer
  guarded unguarded done : Answer

-- `armPending`; without a token there is no guard.
abbrev pub armed : {W : Type 0} → WifiForm → Snapshot → Option Text → Device W → Answer × Device W
armed f snap none d = (unguarded, d)
armed f snap (some token) d =
    (guarded, record d { guard = arm none f.now token f.iface snap d.guard })

-- A field `rank-<interface>` of the form, and its values.
abbrev pub add_rank : Text → Option ℤ → Option (List Rank) → Option (List Rank)
add_rank name none rest = none
add_rank name (some n) none = none
add_rank name (some n) (some rs) = some (record { iface = name; rank = n } ∷ rs)

abbrev pub rank_field : Text → List Text → Option (List Rank) → Option (List Rank)
rank_field key [] rest = rest
rank_field key (v ∷ vs) rest =
    if starts_with key (codes "rank-") then add_rank (drop 5 key) (parse_int v) rest else rest

-- The ranks of a form, in the order in which its fields are visited.
unfoldable pub ranks_of : List (Text × List Text) → Option (List Rank)
unfolding parse_int starts_with
ranks_of [] = some []
ranks_of ((key, values) ∷ fields) = rank_field key values (ranks_of fields)

unfoldable pub insert_rank : Rank → List Rank → List Rank
insert_rank r [] = r ∷ []
insert_rank r (q ∷ qs) = if leb_ℤ r.rank q.rank then r ∷ q ∷ qs else q ∷ insert_rank r qs

unfoldable pub sort_ranks : List Rank → List Rank
unfolding insert_rank
sort_ranks [] = []
sort_ranks (r ∷ rs) = insert_rank r (sort_ranks rs)

module _ {W : Type 0} (bus : Bus W) where
  abbrev after_join :
      WifiForm
      → Snapshot
      → Guard Snapshot
      → Option (Option JoinError × W)
      → Option (Answer × Device W)
  after_join f snap g none = none
  after_join f snap g (some (some e, w)) = some (not_joined e, record { guard = g; world = w })
  after_join f snap g (some (none, w)) = some (armed f snap f.token record { guard = g; world = w })

  -- `postWifi`, with the fuel of `set_wifi`
  unfoldable pub post_wifi : Radio W → ℕ → WifiForm → Device W → Option (Answer × Device W)
  post_wifi radio fuel f d =
      after_join f (snapshot bus f.iface d.world) d.guard
        (set_wifi bus radio fuel f.iface (trim_space f.ssid) f.psk f.uuid d.world)

  abbrev answered : Guard Snapshot → Outcome (Unit {0}) × W → Answer × Device W
  answered g (ok u, w) = (done, record { guard = g; world = w })
  answered g (err e, w) = (failed e, record { guard = g; world = w })

  -- `postIfaceState`
  unfoldable pub post_iface_state : Switches W → Text → Text → Device W → Answer × Device W
  post_iface_state switches iface value d =
      answered d.guard (set_enabled bus switches iface (text_eq value (codes "true")) d.world)

  abbrev save_ranks : Option Text → Option (List Rank) → Device W → Answer × Device W
  save_ranks uuid none d = (invalid_rank, d)
  save_ranks uuid (some []) d = (no_ranks, d)
  save_ranks uuid (some (r ∷ rs)) d =
      answered d.guard (set_priority bus (sort_ranks (r ∷ rs)) uuid d.world)

  -- `postPriority`
  unfoldable pub post_priority :
      List (Text × List Text) → Option Text → Device W → Answer × Device W
  unfolding ranks_of sort_ranks
  post_priority fields uuid d = save_ranks uuid (ranks_of fields) d
