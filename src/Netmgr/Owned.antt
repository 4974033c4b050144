-- ===== src/Netmgr/Owned.antt =====
-- Which profile of a list is owned, and what changes of the list make of that.
use nf_sdk.Base.{
  true, false, Option, none, some, List, [], ◌∷◌, ◌++◌, Text, text_eq, text_eq_iff, text_eq_refl,
  lookup, insert, remove, if◌then◌else◌, ◌≡◌, refl, arith, All, Bool-cases, inl, inr, ap, subst,
}
use nf_sdk.Netmgr.Dictionary.{Settings}
use nf_sdk.Netmgr.Profiles.{is_owned}

abbrev pub Profile : Type 0
Profile = Text × Settings

unfoldable pub owned_in : Text → List Profile → Option Profile
owned_in j [] = none
owned_in j ((p, s) ∷ m) = let rest = owned_in j m in if is_owned j s then some (p, s) else rest

from_some : {A : Type 0} → A → Option A → A
from_some a none = a
from_some a (some b) = b

pub some-inj : {A : Type 0} {a b : A} → some a ≡ some b → a ≡ b
unfolding from_some
some-inj {a = a} h = ap (from_some a) h

pub owned_in-All :
    (P : Profile → Type 0) (j : Text) (e : Profile) (m : List Profile)
    → All P m
    → owned_in j m ≡ some e
    → P e
unfolding owned_in
owned_in-All P j e [] h k = ground arith
owned_in-All P j e ((p, s) ∷ m) h k = elim (Bool-cases (is_owned j s)) [
  | inl o ↦ let same : some (p, s) ≡ some e = rw o at k in subst P (some-inj same) h.0
  | inr o ↦ owned_in-All P j e m h.1 (rw o at k)
]

pub owned_in-owned :
    (j p : Text) (s : Settings) (m : List Profile)
    → owned_in j m ≡ some (p, s)
    → is_owned j s ≡ true
unfolding owned_in
owned_in-owned j p s [] k = ground arith
owned_in-owned j p s ((q, t) ∷ m) k = elim (Bool-cases (is_owned j t)) [
  | inl o ↦
      let same : some (q, t) ≡ some (p, s) = rw o at k in
      subst (λ e. is_owned j e.1 ≡ true) (some-inj same) o
  | inr o ↦ owned_in-owned j p s m (rw o at k)
]

abbrev pub first : Profile → Text
first (p, s) = p

apart_paths : {A : Type 0} (q p : Text) → q ≡ p → text_eq q p ≡ false → A
apart_paths q p e h = let same = (text_eq_iff q p).1 e in ground arith

-- The owned profile is replaced.
pub owned_in-insert :
    (j p : Text) (s t : Settings) (m : List Profile)
    → owned_in j m ≡ some (p, s)
    → is_owned j t ≡ true
    → owned_in j (insert p t m) ≡ some (p, t)
unfolding owned_in insert
owned_in-insert j p s t [] h o = ground arith
owned_in-insert j p s t ((q, u) ∷ m) h o = elim (Bool-cases (text_eq q p)) [
  | inl e ↦ let same : q ≡ p = (text_eq_iff q p).0 e in rw (e, o, same)
  | inr e ↦ elim (Bool-cases (is_owned j u)) [
    | inl f ↦
        let same : some (q, u) ≡ some (p, s) = rw f at h in
        let path : q ≡ p = ap first (some-inj same) in apart_paths q p path e
    | inr f ↦ rw (e, f) (owned_in-insert j p s t m (rw f at h) o)
  ]
]

-- Another profile is replaced.
pub owned_in-insert_other :
    (k p : Text) (s t : Settings) (m : List Profile)
    → lookup p m ≡ some s
    → is_owned k s ≡ false
    → is_owned k t ≡ false
    → owned_in k (insert p t m) ≡ owned_in k m
unfolding owned_in insert lookup
owned_in-insert_other k p s t [] l n o = ground arith
owned_in-insert_other k p s t ((q, u) ∷ m) l n o = elim (Bool-cases (text_eq q p)) [
  | inl e ↦ let same : u ≡ s = some-inj (rw e at l) in rw (e, o, same, n)
  | inr e ↦ rw (e, owned_in-insert_other k p s t m (rw e at l) n o)
]

-- A profile is added.
pub owned_in-added :
    (j p : Text) (s : Settings) (xs ys : List Profile)
    → owned_in j (xs ++ ys) ≡ none
    → is_owned j s ≡ true
    → owned_in j (xs ++ ((p, s) ∷ ys)) ≡ some (p, s)
unfolding owned_in
owned_in-added j p s [] ys h o = rw o
owned_in-added j p s ((q, u) ∷ xs) ys h o = elim (Bool-cases (is_owned j u)) [
  | inl e ↦ ground (arith, rw e at h)
  | inr e ↦ rw e (owned_in-added j p s xs ys (rw e at h) o)
]

pub owned_in-added_other :
    (k p : Text) (s : Settings) (xs ys : List Profile)
    → is_owned k s ≡ false
    → owned_in k (xs ++ ((p, s) ∷ ys)) ≡ owned_in k (xs ++ ys)
unfolding owned_in
owned_in-added_other k p s [] ys o = rw o
owned_in-added_other k p s ((q, u) ∷ xs) ys o = rw (owned_in-added_other k p s xs ys o)

-- Removing what was added.
pub remove-insert :
    (p : Text) (s : Settings) (m : List Profile) → remove p (insert p s m) ≡ remove p m
unfolding remove insert
remove-insert p s [] = rw (text_eq_refl p)
remove-insert p s ((q, u) ∷ m) = elim (Bool-cases (text_eq q p)) [
  | inl e ↦ rw (e, e)
  | inr e ↦ rw (e, e, remove-insert p s m)
]

remove-absent : (p : Text) (m : List Profile) → lookup p m ≡ none → remove p m ≡ m
unfolding remove lookup
remove-absent p [] h = refl
remove-absent p ((q, u) ∷ m) h = elim (Bool-cases (text_eq q p)) [
  | inl e ↦ ground (arith, rw e at h)
  | inr e ↦ rw (e, remove-absent p m (rw e at h))
]

pub remove-added :
    (p : Text) (s : Settings) (xs ys : List Profile)
    → lookup p (xs ++ ys) ≡ none
    → remove p (xs ++ ((p, s) ∷ ys)) ≡ xs ++ ys
unfolding remove lookup
remove-added p s [] ys h = rw (text_eq_refl p, remove-absent p ys h)
remove-added p s ((q, u) ∷ xs) ys h = elim (Bool-cases (text_eq q p)) [
  | inl e ↦ ground (arith, rw e at h)
  | inr e ↦ rw (e, remove-added p s xs ys (rw e at h))
]
