-- ===== src/Supervisor/Sorting.antt =====
-- `sort.Strings` and the loop that trims and deduplicates `noProxy`, as used by `Normalized`.
use nf_sdk.Base.{
  ◌≡◌, refl, true, false, ◌||◌, List, [], ◌∷◌, ◌++◌, arith, Text, text_eq, text_eq_iff,
  text_eq_refl, text_eq_comm, text_le, text_le_total, text_le_trans, trim_space, trim_space_idem,
  is_empty, All, inl, inr, Bool-cases, ap, ◌∙◌, ◌↔◌,
}
use nf_sdk.Supervisor.Proxy.{contains, collect, insert_sorted, sort_strings, texts_eq}

abbrev pub IsSorted : List Text → Type 0
IsSorted [] = Unit
IsSorted (t ∷ ts) = All (λ u. text_le t u ≡ true) ts × IsSorted ts

abbrev pub IsDistinct : List Text → Type 0
IsDistinct [] = Unit
IsDistinct (t ∷ ts) = (contains ts t ≡ false) × IsDistinct ts

-- Trimmed and not empty.
abbrev pub IsClean : Text → Type 0
IsClean t = (trim_space t ≡ t) × (is_empty t ≡ false)

-- No item of the second list is in the first.
abbrev pub Apart : List Text → List Text → Type 0
Apart seen ts = All (λ t. contains seen t ≡ false) ts

le-All :
    (s t : Text) (us : List Text)
    → text_le s t ≡ true
    → All (λ u. text_le t u ≡ true) us
    → All (λ u. text_le s u ≡ true) us
le-All s t [] h k = tt
le-All s t (u ∷ us) h k = (text_le_trans s t u h k.0, le-All s t us h k.1)

All-insert_sorted {κ} :
    (P : Text → Type κ) (t : Text) (ts : List Text) → P t → All P ts → All P (insert_sorted t ts)
unfolding insert_sorted
All-insert_sorted P t [] h k = (h, tt)
All-insert_sorted P t (u ∷ us) h k = elim (Bool-cases (text_le t u)) [
  | inl e ↦ rw e (h, k)
  | inr e ↦ rw e (k.0, All-insert_sorted P t us h k.1)
]

insert_sorted-IsSorted : (t : Text) (ts : List Text) → IsSorted ts → IsSorted (insert_sorted t ts)
unfolding insert_sorted
insert_sorted-IsSorted t [] h = (tt, tt)
insert_sorted-IsSorted t (u ∷ us) h = elim (Bool-cases (text_le t u)) [
  | inl e ↦ rw e ((e, le-All t u us e h.0), h)
  | inr e ↦ rw e (
    All-insert_sorted (λ v. text_le u v ≡ true) t us (text_le_total t u e) h.0,
    insert_sorted-IsSorted t us h.1,
  )
]

pub sort_strings-IsSorted : (ts : List Text) → IsSorted (sort_strings ts)
unfolding sort_strings
sort_strings-IsSorted [] = tt
sort_strings-IsSorted (t ∷ ts) =
    insert_sorted-IsSorted t (sort_strings ts) (sort_strings-IsSorted ts)

insert_sorted-head :
    (t : Text) (ts : List Text) → All (λ u. text_le t u ≡ true) ts → insert_sorted t ts ≡ t ∷ ts
unfolding insert_sorted
insert_sorted-head t [] h = refl
insert_sorted-head t (u ∷ us) h = rw h.0

-- Sorting a sorted list changes nothing.
pub sort_strings_fixed : (ts : List Text) → IsSorted ts → sort_strings ts ≡ ts
unfolding sort_strings
sort_strings_fixed [] h = refl
sort_strings_fixed (t ∷ ts) h = rw (sort_strings_fixed ts h.1) (insert_sorted-head t ts h.0)

pub All-sort_strings {κ} : (P : Text → Type κ) (ts : List Text) → All P ts → All P (sort_strings ts)
unfolding sort_strings
All-sort_strings P [] h = tt
All-sort_strings P (t ∷ ts) h =
    All-insert_sorted P t (sort_strings ts) h.0 (All-sort_strings P ts h.1)

contains-insert_sorted :
    (t : Text) (ts : List Text) (u : Text)
    → contains (insert_sorted t ts) u ≡ (text_eq t u || contains ts u)
unfolding insert_sorted contains
contains-insert_sorted t [] u = refl
contains-insert_sorted t (v ∷ vs) u = ground (arith, contains-insert_sorted t vs u)

pub contains-sort_strings :
    (ts : List Text) (u : Text) → contains (sort_strings ts) u ≡ contains ts u
unfolding sort_strings contains
contains-sort_strings [] u = refl
contains-sort_strings (t ∷ ts) u =
    contains-insert_sorted t (sort_strings ts) u
    ∙ ap (λ b. text_eq t u || b) (contains-sort_strings ts u)

insert_sorted-IsDistinct :
    (t : Text) (ts : List Text)
    → contains ts t ≡ false
    → IsDistinct ts
    → IsDistinct (insert_sorted t ts)
unfolding insert_sorted contains
insert_sorted-IsDistinct t [] h k = (refl, tt)
insert_sorted-IsDistinct t (v ∷ vs) h k = elim (Bool-cases (text_le t v)) [
  | inl e ↦ rw e (h, k)
  | inr e ↦ rw e (
    ground (arith, contains-insert_sorted t vs v, text_eq_comm t v),
    insert_sorted-IsDistinct t vs (ground arith) k.1,
  )
]

pub sort_strings-IsDistinct : (ts : List Text) → IsDistinct ts → IsDistinct (sort_strings ts)
unfolding sort_strings
sort_strings-IsDistinct [] h = tt
sort_strings-IsDistinct (t ∷ ts) h =
    insert_sorted-IsDistinct t (sort_strings ts) (contains-sort_strings ts t ∙ h.0)
      (sort_strings-IsDistinct ts h.1)

pub collect-IsClean : (seen es : List Text) → All IsClean (collect seen es)
unfolding collect
collect-IsClean seen [] = tt
collect-IsClean seen (e ∷ es) =
    elim (Bool-cases (is_empty (trim_space e) || contains seen (trim_space e))) [
      | inl skip ↦ rw skip (collect-IsClean seen es)
      | inr keep ↦
          rw keep ((trim_space_idem e, ground arith), collect-IsClean (trim_space e ∷ seen) es)
    ]

-- What was seen before is not collected again.
collect-seen :
    (seen es : List Text) (u : Text) → contains seen u ≡ true → contains (collect seen es) u ≡ false
unfolding collect contains
collect-seen seen [] u h = refl
collect-seen seen (e ∷ es) u h =
    let t = trim_space e in
    ground (arith, collect-seen seen es u h, collect-seen (t ∷ seen) es u, text_eq_iff t u)

pub collect-IsDistinct : (seen es : List Text) → IsDistinct (collect seen es)
unfolding collect
collect-IsDistinct seen [] = tt
collect-IsDistinct seen (e ∷ es) =
    let t = trim_space e in
    elim (Bool-cases (is_empty t || contains seen t)) [
      | inl skip ↦ rw skip (collect-IsDistinct seen es)
      | inr keep ↦ rw keep (
        collect-seen (t ∷ seen) es t (unfold contains in (rw (text_eq_refl t))),
        collect-IsDistinct (t ∷ seen) es,
      )
    ]

-- Every entry that is not blank is collected, unless it was seen before.
pub collect-last :
    (seen es : List Text) (e : Text)
    → (is_empty (trim_space e)
        || contains seen (trim_space e)
        || contains (collect seen (es ++ e ∷ [])) (trim_space e))
      ≡ true
unfolding collect contains
collect-last seen [] e = ground (arith, text_eq_refl (trim_space e))
collect-last seen (f ∷ es) e =
    ground (arith, collect-last seen es e, collect-last (trim_space f ∷ seen) es e)

Apart-cons :
    (seen : List Text) (t : Text) (ts : List Text)
    → contains ts t ≡ false
    → Apart seen ts
    → Apart (t ∷ seen) ts
unfolding contains
Apart-cons seen t [] h k = tt
Apart-cons seen t (u ∷ us) h k =
    (ground (arith, text_eq_comm t u), Apart-cons seen t us (ground arith) k.1)

-- Clean distinct entries are collected as they stand, and a last one that is blank or among them
-- adds nothing.
pub collect_fixed :
    (seen ts : List Text) (e : Text)
    → All IsClean ts
    → IsDistinct ts
    → Apart seen ts
    → (is_empty (trim_space e) || contains seen (trim_space e) || contains ts (trim_space e)) ≡ true
    → collect seen (ts ++ e ∷ []) ≡ ts
unfolding collect contains
collect_fixed seen [] e c d a h = ground arith
collect_fixed seen (t ∷ ts) e c d a h =
    rw (c.0.0, c.0.1, a.0)
      (ap (λ us. t ∷ us)
        (collect_fixed (t ∷ seen) ts e c.1 d.1 (Apart-cons seen t ts d.0 a.1) (ground arith)))

pub texts_eq_iff : (ts us : List Text) → (texts_eq ts us ≡ true) ↔ (ts ≡ us)
unfolding texts_eq
texts_eq_iff [] [] = ground arith
texts_eq_iff [] (u ∷ us) = ground arith
texts_eq_iff (t ∷ ts) [] = ground arith
texts_eq_iff (t ∷ ts) (u ∷ us) = ground (arith, texts_eq_iff ts us, text_eq_iff t u)
