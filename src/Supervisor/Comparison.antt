-- ===== src/Supervisor/Comparison.antt =====
-- `Normalized` and `SameAs`: what the watchdog wants against what the host has.
use nf_sdk.Base.{
  ◌≡◌, refl, ap, ◌∙◌, ◌↔◌, ℤ, eqb_ℤ_iff, true, false, List, [], ◌∷◌, ◌++◌, Option, none, some,
  arith, Text, text_eq_iff, if◌then◌else◌, inl, inr, Bool-cases,
}
use nf_sdk.Supervisor.Proxy.{
  Proxy, zero_proxy, enabled, contains, collect, sort_strings, normalized, same_strings,
  normalize_dns, same_as,
}
use nf_sdk.Supervisor.Sorting.{
  IsClean, Apart, sort_strings-IsSorted, sort_strings_fixed, All-sort_strings,
  contains-sort_strings, sort_strings-IsDistinct, collect-IsClean, collect-IsDistinct, collect-last,
  collect_fixed, texts_eq_iff,
}

-- The `noProxy` list that a configuration has on the host.
abbrev pub exceptions : Proxy → List Text
exceptions p = sort_strings (collect [] (p.no_proxy ++ p.ip ∷ []))

Apart-nil : (ts : List Text) → Apart [] ts
unfolding contains
Apart-nil [] = tt
Apart-nil (t ∷ ts) = (refl, Apart-nil ts)

exceptions_fixed :
    (ts : List Text) (e : Text)
    → sort_strings (collect [] (sort_strings (collect [] (ts ++ e ∷ [])) ++ e ∷ []))
      ≡ sort_strings (collect [] (ts ++ e ∷ []))
exceptions_fixed ts e =
    let kept = collect [] (ts ++ e ∷ []) in
    let sorted = sort_strings kept in
    ap sort_strings (
      collect_fixed [] sorted e (All-sort_strings IsClean kept (collect-IsClean [] (ts ++ e ∷ [])))
        (sort_strings-IsDistinct kept (collect-IsDistinct [] (ts ++ e ∷ []))) (Apart-nil sorted)
        (rw contains-sort_strings (collect-last [] ts e)))
    ∙ sort_strings_fixed sorted (sort_strings-IsSorted kept)

normalized_on : (p : Proxy) → enabled p ≡ true → normalized p ≡ record p { no_proxy = exceptions p }
unfolding normalized
normalized_on p on = rw on

normalized_off : (p : Proxy) → enabled p ≡ false → normalized p ≡ zero_proxy
unfolding normalized
normalized_off p off = rw off

-- Normalizing twice is normalizing once.
pub normalized_idem : (p : Proxy) → normalized (normalized p) ≡ normalized p
normalized_idem p = elim (Bool-cases (enabled p)) [
  | inl on ↦ rw (normalized_on p on) (again on)
  | inr off ↦ rw (normalized_off p off) (normalized_off zero_proxy (unfold enabled in refl))
]
  where
    trusting : Proxy
    trusting = record p { no_proxy = exceptions p }

    again : enabled p ≡ true → normalized trusting ≡ trusting
    again on =
        normalized_on trusting (unfold enabled in on)
        ∙ ap (λ es. record p { no_proxy = es }) (exceptions_fixed p.no_proxy p.ip)

-- What `SameAs` compares: nothing of a disabled configuration, and of an enabled one what the
-- Supervisor echoes back.
pub record View : Type 0 where
  pub type : Text
  pub ip : Text
  pub port : ℤ
  pub login : Text
  pub no_proxy : List Text
  pub dns : Text

abbrev pub view : Proxy → Option View
view p =
    if enabled p
    then some (record {
      type = p.type;
      ip = p.ip;
      port = p.port;
      login = p.login;
      no_proxy = exceptions p;
      dns = normalize_dns p.dns;
    })
    else none

same_strings-exceptions :
    (p q : Proxy)
    → (same_strings (exceptions p) (exceptions q) ≡ true) ↔ (exceptions p ≡ exceptions q)
unfolding same_strings
same_strings-exceptions p q =
    rw
      (
        sort_strings_fixed (exceptions p) (sort_strings-IsSorted _),
        sort_strings_fixed (exceptions q) (sort_strings-IsSorted _),
      )
      (texts_eq_iff (exceptions p) (exceptions q))

-- `SameAs` holds exactly between configurations with the same view.
pub same_as_iff : (p q : Proxy) → (same_as p q ≡ true) ↔ (view p ≡ view q)
unfolding same_as normalized
same_as_iff p q = ground (
  arith,
  same_strings-exceptions p q,
  text_eq_iff p.type q.type,
  text_eq_iff p.ip q.ip,
  eqb_ℤ_iff p.port q.port,
  text_eq_iff p.login q.login,
  text_eq_iff (normalize_dns p.dns) (normalize_dns q.dns),
)

-- What the host holds once a configuration was applied, with any password, compares equal to it.
pub same_as-normalized :
    (p : Proxy) (secret : Text) → same_as (record (normalized p) { password = secret }) p ≡ true
same_as-normalized p secret = elim (Bool-cases (enabled p)) [
  | inl on ↦
      (same_as_iff _ p).1
        (rw (normalized_on p on, exceptions_fixed p.no_proxy p.ip) (unfold enabled in refl))
  | inr off ↦ (same_as_iff _ p).1 (rw (normalized_off p off, off) (unfold enabled in refl))
]
