-- ===== src/Web/Spread.antt =====
-- Times in a window, and what pruning leaves of them.
use nf_sdk.Base.{
  ℕ, zero, suc, ◌+◌, ◌≤◌, ltb, List, [], ◌∷◌, ◌++◌, length, if◌then◌else◌, ◌≡◌, refl, arith, All,
  drop, Bool-cases, inl, inr,
}
use nf_sdk.Web.Limiter.{recent}

-- A time is at least a window after the one that many places before it.
abbrev pub IsSpread : ℕ → ℕ → List ℕ → Type 0
IsSpread n window [] = Unit
IsSpread n window (t ∷ ts) = All (λ u. u + window ≤ t) (drop n ts) × IsSpread n window ts

abbrev pub IsFalling : ℕ → List ℕ → Type 0
IsFalling t [] = Unit
IsFalling t (u ∷ us) = (u ≤ t) × IsFalling u us

-- How many of them are in the window.
unfoldable pub number : ℕ → ℕ → List ℕ → ℕ
number now window [] = 0
number now window (t ∷ ts) =
    let n = number now window ts in if ltb now (t + window) then suc n else n

pub IsFalling-later : (s t : ℕ) (f : List ℕ) → s ≤ t → IsFalling s f → IsFalling t f
IsFalling-later s t [] h k = tt
IsFalling-later s t (u ∷ us) h k = (omega (arith, h, k.0), k.1)

out_of_window : (w now t : ℕ) (f : List ℕ) → t + w ≤ now → IsFalling t f → All (λ u. u + w ≤ now) f
out_of_window w now t [] h k = tt
out_of_window w now t (u ∷ us) h k =
    let l : u + w ≤ now = omega (arith, h, k.0) in (l, out_of_window w now u us l k.1)

All-drop : (P : ℕ → Type 0) (n : ℕ) (f : List ℕ) → All P f → All P (drop n f)
All-drop P zero f h = h
All-drop P (suc n) [] h = h
All-drop P (suc n) (x ∷ f) h = All-drop P n f h.1

-- Where at most `m` are in the window, the one `m` places on is out of it.
pub beyond :
    (m w now t : ℕ) (f : List ℕ)
    → IsFalling t f
    → number now w f ≤ m
    → All (λ u. u + w ≤ now) (drop m f)
unfolding number
beyond m w now t [] k h = All-drop (λ u. u + w ≤ now) m [] tt
beyond zero w now t (u ∷ us) k h =
    let l : u + w ≤ now = ground arith in (l, out_of_window w now u us l k.1)
beyond (suc m) w now t (u ∷ us) k h = elim (Bool-cases (ltb now (u + w))) [
  | inl e ↦ beyond m w now u us k.1 (ground arith)
  | inr e ↦
      let l : u + w ≤ now = ground arith in
      All-drop (λ v. v + w ≤ now) m us (out_of_window w now u us l k.1)
]

-- What is pruned now is not needed later.
pub recent-recent :
    (w now later : ℕ) (ts : List ℕ)
    → now ≤ later
    → recent later w (recent now w ts) ≡ recent later w ts
unfolding recent
recent-recent w now later [] h = refl
recent-recent w now later (t ∷ ts) h = ground (arith, recent-recent w now later ts)

pub length-recent-append :
    (w now t : ℕ) (ts : List ℕ)
    → length (recent now w (ts ++ t ∷ []))
      ≡ (if ltb now (t + w) then suc (length (recent now w ts)) else length (recent now w ts))
unfolding recent
length-recent-append w now t [] = ground arith
length-recent-append w now t (u ∷ us) = ground (arith, length-recent-append w now t us)
