-- ===== src/Netmgr/Ordering.antt =====
-- The order that `SetPriority` of balena/network-config/internal/netmgr/priority.go gives the
-- interfaces.
use nf_sdk.Base.{
  ℕ, ◌*◌, ◌^◌, ◌<◌, ltb, ℤ, pos, negsuc, ltb_ℤ, eqb_ℤ, eqb_ℤ_iff, ◌-ℤ◌, sub_ℕ, scale64-exact, true,
  false, none, some, List, [], ◌∷◌, Text, codes, lookup, lookup-insert, lookup-insert_self,
  text_eq_refl, insert, text_eq, All, ◌≡◌, ◌∙◌, refl, ◌⊎◌, inl, inr, arith, Bool-cases,
}
use nf_sdk.Netmgr.Dictionary.{value_of, int32, int64, Section, Settings, or_empty}
use nf_sdk.Netmgr.Priority.{
  Rank, wrap32, residue32, signed32, priority_of, metric_of, ipv4_or_auto, rank_settings, has_rank,
  rank_error,
}

priority_of-exact : (n : ℕ) → n < 2 ^ 31 → priority_of (pos n) ≡ sub_ℕ 200 n
unfolding priority_of wrap32 residue32 signed32 ◌-ℤ◌
priority_of-exact n h = ground arith

metric_of-exact : (n : ℕ) → n < 2 ^ 31 → metric_of (pos n) ≡ pos (n * 100)
unfolding metric_of
metric_of-exact n h = scale64-exact n 100 (omega arith)

-- The profile written as `s` is preferred to the one written as `t`: the higher priority connects
-- first, the lower metric owns the default route.
pub IsPreferred : Settings → Settings → Type 0
IsPreferred s t =
    (p : ℤ) × (q : ℤ) × (m : ℤ) × (n : ℤ) × (value_of s (codes "connection")
        (codes "autoconnect-priority")
      ≡ some (int32 p))
    × (value_of t (codes "connection") (codes "autoconnect-priority") ≡ some (int32 q))
    × (value_of s (codes "ipv4") (codes "route-metric") ≡ some (int64 m))
    × (value_of t (codes "ipv4") (codes "route-metric") ≡ some (int64 n))
    × (ltb_ℤ q p ≡ true)
    × (ltb_ℤ m n ≡ true)

-- Whatever two profiles were before, one of them is preferred once they have these ranks: the one
-- with the smaller rank.
pub Decides : Rank → Rank → Type 0
Decides a b =
    (s t : Settings)
    → ((ltb_ℤ a.rank b.rank ≡ true) × IsPreferred (rank_settings a.rank s) (rank_settings b.rank t))
      ⊎ ((ltb_ℤ b.rank a.rank ≡ true)
          × IsPreferred (rank_settings b.rank t) (rank_settings a.rank s))

-- So it is for any two entries of a list.
abbrev pub AllDecided : List Rank → Type 0
AllDecided [] = Unit
AllDecided (r ∷ rs) = All (Decides r) rs × AllDecided rs

abbrev pub IsSmall : Rank → Type 0
IsSmall r = ltb_ℤ r.rank (pos (2 ^ 31)) ≡ true

section_after :
    (key other : Text) (kv kw : Section) (s : Settings)
    → text_eq other key ≡ false
    → lookup key (insert other kw (insert key kv s)) ≡ some kv
section_after key other kv kw s h =
    lookup-insert other key kw (insert key kv s) ∙ (rw (h, lookup-insert, text_eq_refl) refl)

priority_written :
    (r : ℤ) (s : Settings)
    → value_of (rank_settings r s) (codes "connection") (codes "autoconnect-priority")
      ≡ some (int32 (priority_of r))
unfolding rank_settings text_eq
priority_written r s =
    rw
      (section_after (codes "connection") (codes "ipv4")
        (insert (codes "autoconnect-priority") (int32 (priority_of r))
          (or_empty (lookup (codes "connection") s)))
        _ s refl)
      (lookup-insert_self (codes "autoconnect-priority") (int32 (priority_of r)) _)

metric_written :
    (r : ℤ) (s : Settings)
    → value_of (rank_settings r s) (codes "ipv4") (codes "route-metric")
      ≡ some (int64 (metric_of r))
unfolding rank_settings
metric_written r s = rw (lookup-insert_self) (
    lookup-insert_self (codes "route-metric") (int64 (metric_of r))
      (ipv4_or_auto (lookup (codes "ipv4") s)))

IsPreferred-ranks :
    (a b : ℕ) (s t : Settings)
    → a < b
    → b < 2 ^ 31
    → IsPreferred (rank_settings (pos a) s) (rank_settings (pos b) t)
unfolding IsPreferred
IsPreferred-ranks a b s t h k =
    let small : a < 2 ^ 31 = omega arith in
    (
      priority_of (pos a),
      priority_of (pos b),
      metric_of (pos a),
      metric_of (pos b),
      priority_written (pos a) s,
      priority_written (pos b) t,
      metric_written (pos a) s,
      metric_written (pos b) t,
      rw (priority_of-exact a small, priority_of-exact b k) (ground arith),
      rw (metric_of-exact a small, metric_of-exact b k) (ground arith),
    )

abbrev AreOrdered : ℤ → ℤ → Settings → Settings → Type 0
AreOrdered x y s t =
    ((ltb_ℤ x y ≡ true) × IsPreferred (rank_settings x s) (rank_settings y t))
    ⊎ ((ltb_ℤ y x ≡ true) × IsPreferred (rank_settings y t) (rank_settings x s))

two_ranks :
    (x y : ℤ) (s t : Settings)
    → ltb_ℤ x (pos 1) ≡ false
    → ltb_ℤ y (pos 1) ≡ false
    → eqb_ℤ x y ≡ false
    → ltb_ℤ x (pos (2 ^ 31)) ≡ true
    → ltb_ℤ y (pos (2 ^ 31)) ≡ true
    → AreOrdered x y s t
two_ranks (negsuc m) y s t h k e u v = absurd (ground arith)
two_ranks (pos m) (negsuc n) s t h k e u v = absurd (ground arith)
two_ranks (pos m) (pos n) s t h k e u v = elim (Bool-cases (ltb m n)) [
  | inl l ↦ inl (ground arith, IsPreferred-ranks m n s t (ground arith) (ground arith))
  | inr g ↦ inr (ground arith, IsPreferred-ranks n m t s (ground arith) (ground arith))
]

-- What the first loop has let through, from the ranks that it had seen.
passed_on :
    (seen : List ℤ) (r : Rank) (rs : List Rank)
    → rank_error seen (r ∷ rs) ≡ none
    → (ltb_ℤ r.rank (pos 1) ≡ false)
      × (has_rank r.rank seen ≡ false)
      × (rank_error (r.rank ∷ seen) rs ≡ none)
unfolding rank_error
passed_on seen r rs h = ground arith

has_rank-eqb :
    (q r : ℤ) (seen : List ℤ) → has_rank q seen ≡ true → has_rank r seen ≡ false → eqb_ℤ q r ≡ false
has_rank-eqb q r seen h k = elim (Bool-cases (eqb_ℤ q r)) [
  | inl e ↦ let same : q ≡ r = (eqb_ℤ_iff q r).0 e in absurd (cc)
  | inr e ↦ e
]

has_rank-later : (q r : ℤ) (seen : List ℤ) → has_rank q seen ≡ true → has_rank q (r ∷ seen) ≡ true
unfolding has_rank
has_rank-later q r seen h = ground arith

has_rank_self : (q : ℤ) (seen : List ℤ) → has_rank q (q ∷ seen) ≡ true
unfolding has_rank
has_rank_self q seen = let same = (eqb_ℤ_iff q q).1 refl in ground arith

-- No later rank is one that was seen.
later_ranks :
    (q : ℤ) (seen : List ℤ) (rs : List Rank)
    → has_rank q seen ≡ true
    → rank_error seen rs ≡ none
    → All (λ (r : Rank). (eqb_ℤ q r.rank ≡ false) × (ltb_ℤ r.rank (pos 1) ≡ false)) rs
later_ranks q seen [] h k = tt
later_ranks q seen (r ∷ rs) h k =
    let (positive, unseen, rest) = passed_on seen r rs k in
    (
      (has_rank-eqb q r.rank seen h unseen, positive),
      later_ranks q (r.rank ∷ seen) rs (has_rank-later q r.rank seen h) rest,
    )

all_decided :
    (a : Rank) (rs : List Rank)
    → ltb_ℤ a.rank (pos 1) ≡ false
    → IsSmall a
    → All (λ (r : Rank). (eqb_ℤ a.rank r.rank ≡ false) × (ltb_ℤ r.rank (pos 1) ≡ false)) rs
    → All IsSmall rs
    → All (Decides a) rs
unfolding Decides
all_decided a [] h k l u = tt
all_decided a (r ∷ rs) h k l u =
    ((λ s t. two_ranks a.rank r.rank s t h l.0.1 l.0.0 k u.0), all_decided a rs h k l.1 u.1)

ranks_decided :
    (seen : List ℤ) (ranks : List Rank)
    → rank_error seen ranks ≡ none
    → All IsSmall ranks
    → AllDecided ranks
ranks_decided seen [] h k = tt
ranks_decided seen (r ∷ rs) h k =
    let (positive, unseen, rest) = passed_on seen r rs h in
    (
      all_decided r rs positive k.0
          (later_ranks r.rank (r.rank ∷ seen) rs (has_rank_self r.rank seen) rest) k.1,
      ranks_decided (r.rank ∷ seen) rs rest k.1,
    )

-- Where the ranks are accepted and below 2^31, of any two interfaces the one with the smaller rank is
-- written with the higher priority and the lower metric, whatever the profiles were before.
pub rank_error-AllDecided :
    (ranks : List Rank) → rank_error [] ranks ≡ none → All IsSmall ranks → AllDecided ranks
rank_error-AllDecided ranks h k = ranks_decided [] ranks h k
