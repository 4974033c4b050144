-- ===== src/Supervisor/Retry.antt =====
-- How often the client sends a request.
use nf_sdk.Base.{
  ℕ, zero, suc, ◌+◌, ◌*◌, ◌≤◌, ◌≡◌, refl, ap, ◌∙◌, inl, inr, Bool, true, false, not, Option, none,
  some, List, ◌∷◌, Text, ltb, arith, if◌then◌else◌, Bool-cases, ◌&&◌, is_none, codes,
}
use nf_sdk.Supervisor.Proxy.{Proxy, ProxyError, validate, normalized}
use nf_sdk.Supervisor.Client.{
  Request, Session, Transport, Result, ok, fails, transient_error, do_once, after_attempt, attempts,
  do_request, is_get, set_proxy, host_config, patch, set_valid_proxy, set_checked, no_answer,
}

abbrev pub copies : Request → ℕ → List Request → List Request
copies r zero rs = rs
copies r (suc n) rs = r ∷ copies r n rs

-- `s'` comes from `s` by sending `r` at most `most` times, and nothing else.
abbrev pub Repeats : {W : Type 0} → Request → ℕ → Session W → Session W → Type 0
Repeats r most s s' = (n : ℕ) × (n ≤ most) × (s'.sent ≡ copies r n s.sent)

copies-add :
    (r : Request) (m n : ℕ) (rs : List Request) → copies r m (copies r n rs) ≡ copies r (m + n) rs
copies-add r zero n rs = ap (λ k. copies r k rs) (omega arith)
copies-add r (suc m) n rs =
    let more : suc (m + n) ≡ suc m + n = omega arith in
    ap (λ qs. r ∷ qs) (copies-add r m n rs) ∙ ap (λ k. copies r k rs) more

module _ {W : Type 0} (transport : Transport W) {A : Type 0} (decode : Text → Option A) where
  do_once-Repeats : (r : Request) (s : Session W) → Repeats r 1 s (do_once transport decode r s).1
  unfolding do_once
  do_once-Repeats r s = elim (Bool-cases transport.configured) [
    | inl on ↦ rw on (1, omega arith, refl)
    | inr off ↦ rw off (0, omega arith, refl)
  ]

  after_attempt-Repeats :
      (left attempt : ℕ) (r : Request) (s : Session W) (again : Session W → Result A × Session W)
      (tried : Result A × Session W)
      → ((t : Session W) → Repeats r left t (again t).1)
      → Repeats r 1 s tried.1
      → Repeats r (suc left) s (after_attempt transport decode attempt (ltb 0 left) again tried).1
  unfolding after_attempt
  after_attempt-Repeats left attempt r s again (ok a, t) h (n, few, e) = (n, omega arith, e)
  after_attempt-Repeats left attempt r s again (fails transient_error, t) h (n, few, e) =
      elim (Bool-cases (ltb 0 left)) [
        | inl more ↦ elim (Bool-cases (transport.pause (attempt * 750) t.net).0) [
          | inl cut ↦ rw (more, cut) (n, omega arith, e)
          | inr waited ↦
              let u : Session W = record t { net = (transport.pause (attempt * 750) t.net).1 } in
              let (m, few', e') = h u in
              rw (more, waited)
                (m + n, omega arith, e' ∙ ap (copies r m) e ∙ copies-add r m n s.sent)
        ]
        | inr last ↦ rw last (n, omega arith, e)
      ]
  after_attempt-Repeats left attempt r s again (fails _, t) h (n, few, e) = (n, omega arith, e)

  attempts-Repeats :
      (left attempt : ℕ) (r : Request) (s : Session W)
      → Repeats r left s (attempts transport decode left attempt r s).1
  unfolding attempts
  attempts-Repeats zero attempt r s = (0, omega arith, refl)
  attempts-Repeats (suc left) attempt r s =
      after_attempt-Repeats left attempt r s (λ t. attempts transport decode left (attempt + 1) r t)
        (do_once transport decode r s) (λ t. attempts-Repeats left (attempt + 1) r t)
        (do_once-Repeats r s)

  -- A call sends its own request and no other: a GET at most three times, any other request at most
  -- once, whatever the answers and errors are.
  pub do_request-Repeats :
      (r : Request) (s : Session W)
      → Repeats r (if is_get r.method then 3 else 1) s (do_request transport decode r s).1
  unfolding do_request
  do_request-Repeats r s = elim (Bool-cases (is_get r.method)) [
    | inl once ↦ rw once (attempts-Repeats 3 1 r s)
    | inr never ↦ rw never (do_once-Repeats r s)
  ]

-- The PATCH that sets a proxy.
abbrev pub set_request : Proxy → Bool → Request
set_request p force = record {
  method = patch;
  path = codes "/v1/device/host-config";
  body = host_config (normalized p) force;
}

module _ {W : Type 0} (transport : Transport W) where
  dry-Repeats :
      (r : Request) (dry : Bool) (s : Session W) (called : Result (Unit {0}) × Session W)
      → Repeats r 1 s called.1
      → Repeats r (if not dry then 1 else 0) s (if dry then (ok tt, s) else called).1
  dry-Repeats r true s called h = (0, omega arith, refl)
  dry-Repeats r false s called h = h

  set_checked-Repeats :
      (o : Option ProxyError) (p : Proxy) (force : Bool) (s : Session W)
      → Repeats
          (set_request p force)
          (if is_none o && not transport.dry_run then 1 else 0)
          s
          (set_checked transport o p force s).1
  unfolding set_checked set_valid_proxy
  set_checked-Repeats (some e) p force s = (0, omega arith, refl)
  set_checked-Repeats none p force s =
      dry-Repeats (set_request p force) transport.dry_run s
        (do_request transport no_answer (set_request p force) s)
        (do_request-Repeats transport no_answer (set_request p force) s)

  -- Setting a proxy sends at most one request, the PATCH with the normalized proxy; none where the
  -- proxy is not valid, and none in a dry run.
  pub set_proxy-Repeats :
      (p : Proxy) (force : Bool) (s : Session W)
      → Repeats
          (set_request p force)
          (if is_none (validate p) && not transport.dry_run then 1 else 0)
          s
          (set_proxy transport p force s).1
  unfolding set_proxy
  set_proxy-Repeats p force s = set_checked-Repeats (validate p) p force s
