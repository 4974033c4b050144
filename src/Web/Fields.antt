-- ===== src/Web/Fields.antt =====
-- The fields of a cookie: what splitting, cutting and reading numbers undo.
use nf_sdk.Base.{
  ℕ, zero, suc, ◌+◌, ◌-◌, ◌*◌, ◌/◌, ◌%◌, ◌^◌, ◌<◌, ◌≤◌, ◌==◌, ltb, Bool, true, false, some, List,
  [], ◌∷◌, ◌++◌, Text, ltb→lt, lt→ltb, decimal, digits, pos, if◌then◌else◌, ◌≡◌, refl, ap, arith,
  length, Bool-cases, inl, inr,
}
use nf_sdk.Web.Session.{
  split_on, join_first, cut, parse_int, parse_digits, is_digit, unsigned, in_range,
}

-- How often a byte occurs.
unfoldable pub count : ℕ → Text → ℕ
count c [] = 0
count c (d ∷ s) = let n = count c s in if d == c then suc n else n

pub count-append : (c : ℕ) (s t : Text) → count c (s ++ t) ≡ count c s + count c t
unfolding count
count-append c [] t = omega arith
count-append c (d ∷ s) t = ground (arith, count-append c s t)

length-join_first : (c : ℕ) (ts : List Text) → 1 ≤ length ts → length (join_first c ts) ≡ length ts
unfolding join_first
length-join_first c [] h = absurd (omega arith)
length-join_first c (t ∷ ts) h = refl

length-split_on : (sep : ℕ) (s : Text) → length (split_on sep s) ≡ suc (count sep s)
unfolding split_on count
length-split_on sep [] = refl
length-split_on sep (c ∷ s) =
    let ih = length-split_on sep s in
    let l = length-join_first c (split_on sep s) (omega (arith, ih)) in
    elim (Bool-cases (c == sep)) [ inl e ↦ rw (e, ih) | inr e ↦ rw e (omega (arith, l, ih)) ]

apart : (sep c : ℕ) (s : Text) → count sep (c ∷ s) ≡ 0 → ((c == sep) ≡ false) × (count sep s ≡ 0)
unfolding count
apart sep c s h = ground arith

same : (sep : ℕ) → (sep == sep) ≡ true
same sep = ground arith

pub split_on-field :
    (sep : ℕ) (s t : Text) → count sep s ≡ 0 → split_on sep (s ++ (sep ∷ t)) ≡ s ∷ split_on sep t
unfolding split_on count
split_on-field sep [] t h = rw (same sep)
split_on-field sep (c ∷ s) t h = let (d, k) = apart sep c s h in rw (d, split_on-field sep s t k)

pub split_on-last : (sep : ℕ) (s : Text) → count sep s ≡ 0 → split_on sep s ≡ s ∷ []
unfolding split_on count
split_on-last sep [] h = refl
split_on-last sep (c ∷ s) h = let (d, k) = apart sep c s h in rw (d, split_on-last sep s k)

pub cut-field : (sep : ℕ) (s t : Text) → count sep s ≡ 0 → cut sep (s ++ (sep ∷ t)) ≡ some (s, t)
unfolding cut count
cut-field sep [] t h = rw (same sep)
cut-field sep (c ∷ s) t h = let (d, k) = apart sep c s h in rw (d, cut-field sep s t k)

parse_digits-append :
    (k n : ℕ) (s t : Text) → parse_digits k s ≡ some n → parse_digits k (s ++ t) ≡ parse_digits n t
unfolding parse_digits
parse_digits-append k n [] t h = let e : k ≡ n = ground arith in ap (λ i. parse_digits i t) e
parse_digits-append k n (c ∷ s) t h = elim (Bool-cases (is_digit c)) [
  | inl d ↦ rw d (parse_digits-append (k * 10 + (c - 48)) n s t (rw d at h))
  | inr d ↦ absurd (ground (arith, rw d at h))
]

digit-parsed : (k d : ℕ) → d < 10 → parse_digits k ((48 + d) ∷ []) ≡ some (k * 10 + d)
unfolding parse_digits is_digit
digit-parsed k d h = ground arith

parse_digits-digits : (f n : ℕ) → n < f → parse_digits 0 (digits f n) ≡ some n
unfolding digits
parse_digits-digits zero n h = absurd (omega arith)
parse_digits-digits (suc f) n h = elim (Bool-cases (ltb n 10)) [
  | inl small ↦ rw small (ground (arith, digit-parsed 0 n (ltb→lt n 10 small)))
  | inr large ↦
      rw
        (
          large,
          parse_digits-append 0 (n / 10) (digits f (n / 10)) ((48 + n % 10) ∷ [])
              (parse_digits-digits f (n / 10) (ground arith)),
        )
        (ground (arith, digit-parsed (n / 10) (n % 10) (omega arith)))
]

abbrev begins : Text → Bool
begins [] = false
begins (c ∷ s) = is_digit c

begins-append : (s t : Text) → begins s ≡ true → begins (s ++ t) ≡ true
begins-append [] t h = ground arith
begins-append (c ∷ s) t h = h

begins-digits : (f n : ℕ) → n < f → begins (digits f n) ≡ true
unfolding digits is_digit
begins-digits zero n h = absurd (omega arith)
begins-digits (suc f) n h = elim (Bool-cases (ltb n 10)) [
  | inl small ↦ rw small (let k = ltb→lt n 10 small in ground arith)
  | inr large ↦ rw (large) (
      begins-append (digits f (n / 10)) ((48 + n % 10) ∷ [])
        (begins-digits f (n / 10) (ground arith)))
]

unsigned_digit : (c : ℕ) → is_digit c ≡ true → ((c == b'-') ≡ false) × ((c == b'+') ≡ false)
unfolding is_digit
unsigned_digit c h = ground arith

parse_int-plain :
    (t : Text) → begins t ≡ true → parse_int t ≡ in_range (2 ^ 63) pos (parse_digits 0 t)
unfolding parse_int unsigned
parse_int-plain [] h = ground arith
parse_int-plain (c ∷ s) h = let (m, p) = unsigned_digit c h in rw (m, p)

count-digit : (d : ℕ) → d < 10 → count b'|' ((48 + d) ∷ []) ≡ 0
unfolding count
count-digit d h = ground arith

count-digits : (f n : ℕ) → count b'|' (digits f n) ≡ 0
unfolding digits count
count-digits zero n = refl
count-digits (suc f) n = elim (Bool-cases (ltb n 10)) [
  | inl small ↦ rw small (count-digit n (ltb→lt n 10 small))
  | inr large ↦
      rw (large, count-append, count-digits f (n / 10), count-digit (n % 10) (omega arith))
]

pub count-decimal : (n : ℕ) → count b'|' (decimal (pos n)) ≡ 0
unfolding decimal
count-decimal n = count-digits (suc n) n

pub parse_int-decimal : (n : ℕ) → n < 2 ^ 63 → parse_int (decimal (pos n)) ≡ some (pos n)
unfolding decimal
parse_int-decimal n h = rw (
  parse_int-plain (digits (suc n) n) (begins-digits (suc n) n (omega arith)),
  parse_digits-digits (suc n) n (omega arith),
  lt→ltb n (2 ^ 63) h,
)

pub three_fields :
    (user nonce e : Text)
    → count b'|' user ≡ 0
    → count b'|' nonce ≡ 0
    → count b'|' e ≡ 0
    → split_on b'|' (user ++ (b'|' ∷ nonce ++ (b'|' ∷ e))) ≡ user ∷ nonce ∷ e ∷ []
three_fields user nonce e h k l = rw (
  split_on-field b'|' user (nonce ++ (b'|' ∷ e)) h,
  split_on-field b'|' nonce e k,
  split_on-last b'|' e l,
)

pub counted : (rest : Text) → count b'|' (b'|' ∷ rest) ≡ suc (count b'|' rest)
unfolding count
counted rest = refl

pub more_fields :
    (user rest : Text)
    → 1 ≤ count b'|' user
    → 1 ≤ count b'|' rest
    → 3 < length (split_on b'|' (user ++ (b'|' ∷ rest)))
more_fields user rest h k =
    let l = length-split_on b'|' (user ++ (b'|' ∷ rest)) in
    let c = count-append b'|' user (b'|' ∷ rest) in let d = counted rest in omega (arith, l, c, d)
