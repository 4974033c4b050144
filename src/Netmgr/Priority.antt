-- ===== src/Netmgr/Priority.antt =====
-- The order of the interfaces: `SetPriority` of balena/network-config/internal/netmgr/priority.go. An
-- int32 and an int64 wrap around.
use nf_sdk.Base.{
  ℕ, ◌-◌, ◌%◌, ◌^◌, ltb, ℤ, pos, negsuc, ltb_ℤ, eqb_ℤ, ◌-ℤ◌, scale64, Bool, false, ◌||◌, Option,
  none, some, List, [], ◌∷◌, Text, codes, lookup, insert, if◌then◌else◌,
}
use nf_sdk.Netmgr.Dictionary.{text, int32, int64, Section, Settings, or_empty}
use nf_sdk.Netmgr.Bus.{Bus, Failure, invalid_rank, same_rank, Outcome, ok, err}
use nf_sdk.Netmgr.Profiles.{ensure_owned, update}

pub record Rank : Type 0 where
  pub iface : Text
  pub rank : ℤ

-- The residue of an integer, and the signed number of 32 bits with that residue.
unfoldable pub residue32 : ℤ → ℕ
residue32 (pos n) = n % 2 ^ 32
residue32 (negsuc n) = 2 ^ 32 - 1 - n % 2 ^ 32

unfoldable pub signed32 : ℕ → ℤ
signed32 m = if ltb m (2 ^ 31) then pos m else negsuc (2 ^ 32 - 1 - m)

unfoldable pub wrap32 : ℤ → ℤ
unfolding residue32 signed32
wrap32 z = signed32 (residue32 z)

-- `ownedPriority + int32(100-r.Rank)`, for a rank of at least 1
unfoldable pub priority_of : ℤ → ℤ
unfolding wrap32
priority_of r = wrap32 (wrap32 (pos 100 -ℤ r) -ℤ negsuc 99)

-- `baseMetric + (r.Rank-1)*metricStep`, for a rank of at least 1
unfoldable pub metric_of : ℤ → ℤ
metric_of r = scale64 r 100

unfoldable pub ipv4_or_auto : Option Section → Section
ipv4_or_auto none = (codes "method", text (codes "auto")) ∷ []
ipv4_or_auto (some kv) = kv

-- The dictionary that is written for a rank.
unfoldable pub rank_settings : ℤ → Settings → Settings
unfolding priority_of metric_of ipv4_or_auto
rank_settings r s =
    let connection = or_empty (lookup (codes "connection") s) in
    let ipv4 = ipv4_or_auto (lookup (codes "ipv4") s) in
    insert (codes "ipv4") (insert (codes "route-metric") (int64 (metric_of r)) ipv4) (
      insert (codes "connection")
        (insert (codes "autoconnect-priority") (int32 (priority_of r)) connection) s)

unfoldable pub has_rank : ℤ → List ℤ → Bool
has_rank r [] = false
has_rank r (q ∷ qs) = eqb_ℤ q r || has_rank r qs

-- The first loop, from the ranks that were seen.
unfoldable pub rank_error : List ℤ → List Rank → Option Failure
unfolding has_rank
rank_error seen [] = none
rank_error seen (r ∷ rs) =
    let rest = rank_error (r.rank ∷ seen) rs in
    if ltb_ℤ r.rank (pos 1)
    then some invalid_rank
    else if has_rank r.rank seen
    then some same_rank
    else rest

module _ {W : Type 0} (bus : Bus W) where
  unfoldable pub write_rank : Rank → Outcome (Text × Settings) × W → Outcome (Unit {0}) × W
  write_rank r (err e, w) = (err e, w)
  write_rank r (ok (p, s), w) = update bus r.iface p (rank_settings r.rank s) w

  unfoldable pub then_ranks :
      (W → Outcome (Unit {0}) × W) → Outcome (Unit {0}) × W → Outcome (Unit {0}) × W
  then_ranks rest (err e, w) = (err e, w)
  then_ranks rest (ok u, w) = rest w

  -- The second loop, given what `uuid4` would return: an error ends it, and what was written stays.
  unfoldable pub write_ranks : List Rank → Option Text → W → Outcome (Unit {0}) × W
  unfolding write_rank then_ranks
  write_ranks [] uuid w = (ok tt, w)
  write_ranks (r ∷ rs) uuid w =
      then_ranks (write_ranks rs uuid) (write_rank r (ensure_owned bus r.iface uuid w))

  unfoldable pub set_ranks : List Rank → Option Text → Option Failure → W → Outcome (Unit {0}) × W
  unfolding write_ranks
  set_ranks ranks uuid (some e) w = (err e, w)
  set_ranks ranks uuid none w = write_ranks ranks uuid w

  -- `SetPriority`
  unfoldable pub set_priority : List Rank → Option Text → W → Outcome (Unit {0}) × W
  unfolding set_ranks rank_error
  set_priority ranks uuid w = set_ranks ranks uuid (rank_error [] ranks) w
