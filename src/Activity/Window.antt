-- ===== src/Activity/Window.antt =====
-- The log against the whole list of what was ever added.
use mathlib.Core.List.{append_assoc, append-nil}
use nf_sdk.Base.{
  ℕ, zero, suc, ◌-◌, ◌+◌, ℤ, ◌≡◌, refl, ◌∙◌, ap, sym, drop-append_le, drop-drop, length-drop, List,
  [], ◌∷◌, ◌++◌, length, drop, ltb, length-append, arith, Bool-cases, inl, inr,
}
use nf_sdk.Activity.Log.{Entry, Log, new_log, add, keep_last}

unfoldable pub add_all : List Entry → Log → Log
add_all [] l = l
add_all (e ∷ es) l = add_all es (add e l)

drop-nil : (n : ℕ) → drop {A = Entry} n [] ≡ []
drop-nil zero = refl
drop-nil (suc n) = refl

keep_last-drop : (limit : ℕ) (es : List Entry) → keep_last limit es ≡ drop (length es - limit) es
unfolding keep_last
keep_last-drop limit es = elim (Bool-cases (ltb limit (length es))) [
  | inl more ↦ rw more
  | inr fits ↦
      let none_ : 0 ≡ length es - limit = ground arith in rw fits (ap (λ n. drop n es) none_)
]

-- One more entry, where the log already holds the last entries of `xs`.
keep_last-append :
    (limit : ℕ) (xs : List Entry) (e : Entry)
    → keep_last limit (drop (length xs - limit) xs ++ e ∷ [])
      ≡ drop (length (xs ++ e ∷ []) - limit) (xs ++ e ∷ [])
keep_last-append limit xs e =
    let k = length xs - limit in
    let kept = drop k xs ++ e ∷ [] in
    let joined : drop k (xs ++ e ∷ []) ≡ kept = drop-append_le k xs (e ∷ []) (omega arith) in
    let total : k + (length kept - limit) ≡ length (xs ++ e ∷ []) - limit =
      omega
        (arith, length-append (drop k xs) (e ∷ []), length-drop k xs, length-append xs (e ∷ [])) in
    keep_last-drop limit kept
    ∙ ap (drop (length kept - limit)) (sym joined)
    ∙ drop-drop (length kept - limit) k _ (xs ++ e ∷ []) total

window :
    (xs es : List Entry) (l : Log)
    → l.entries ≡ drop (length xs - l.limit) xs
    → (add_all es l).entries ≡ drop (length (xs ++ es) - l.limit) (xs ++ es)
unfolding add_all add
window xs [] l h = rw append-nil h
window xs (e ∷ es) l h = rw (append_assoc xs (e ∷ []) es) at (
    window (xs ++ e ∷ []) es (add e l)
      (ap (λ kept. keep_last l.limit (kept ++ e ∷ [])) h ∙ keep_last-append l.limit xs e))

-- After any number of entries the log holds the last of them, as many as its limit.
pub add_all-window :
    (limit : ℤ) (es : List Entry)
    → (add_all es (new_log limit)).entries ≡ drop (length es - (new_log limit).limit) es
unfolding new_log
add_all-window limit es = window [] es (new_log limit) (sym (drop-nil (0 - (new_log limit).limit)))
