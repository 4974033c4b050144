-- ===== src/Web/Throttle.antt =====
-- How often a password can be tried.
use nf_sdk.Base.{
  ℕ, suc, ◌<◌, ◌≤◌, Bool, true, false, Option, none, some, List, [], ◌∷◌, ◌++◌, Text, length,
  text_eq, text_eq_iff, lookup, if◌then◌else◌, ◌≡◌, ◌∙◌, refl, ap, arith,
}
use nf_sdk.Store.Config.{Auth}
use nf_sdk.Store.Login.{Crypto, verify}
use nf_sdk.Web.Session.{Library}
use nf_sdk.Web.Limiter.{
  Limiter, new_limiter, recent, attempts_of, set_attempts, Verdict, allowed, wait, index_panic,
  verdict, allow, record_failure, reset, Login, Outcome, blocked, crashed, rejected, no_nonce,
  signed_in, start_session, check_password, after_allow, post_login,
}
use nf_sdk.Web.Spread.{IsSpread, IsFalling, number, IsFalling-later, beyond}
use nf_sdk.Web.Tally.{attempts_of-set, attempts_of-reset, pruned, failed_here, allowed-below}

-- The times at which an address failed, newest first, after this outcome.
abbrev pub noted : Outcome → ℕ → List ℕ → List ℕ
noted rejected now f = now ∷ f
noted (blocked n) now f = f
noted crashed now f = f
noted no_nonce now f = []
noted (signed_in c p) now f = []

module _ (m w : ℕ) (ip : Text) where
  -- The limiter holds those failures of an address that still count.
  record Kept (l : Limiter) (t : ℕ) (f : List ℕ) : Type 0 where
    limit : l.limit ≡ suc m
    window : l.window ≡ w
    falling : IsFalling t f
    spread : IsSpread m w f
    counted : (now : ℕ) → t ≤ now → length (recent now w (attempts_of ip l)) ≡ number now w f

  -- Any logins, of this address or of others, each no earlier than the one before it, with the
  -- credentials that are stored at the time.
  pub data Attempts (crypto : Crypto) (lib : Library) : Limiter → ℕ → List ℕ → Type 0 where
    none_yet : Attempts crypto lib (new_limiter (suc m) w) 0 []
    next_login :
        {l : Limiter} {t : ℕ} {f : List ℕ}
        → Attempts crypto lib l t f
        → (auth : Auth) (q : Login) → t ≤ q.now
        → Attempts crypto lib
            (post_login crypto lib auth q l).1
            q.now
            (if text_eq q.key ip then noted (post_login crypto lib auth q l).0 q.now f else f)

  -- Where one more attempt is allowed, there is room for its failure.
  room :
      (l : Limiter) (t now : ℕ) (f : List ℕ) (key : Text)
      → Kept l t f
      → t ≤ now
      → verdict now l (recent now l.window (attempts_of key l)) ≡ allowed
      → text_eq key ip ≡ true
      → number now w f ≤ m
  room l t now f key h k v e =
      let same : key ≡ ip = (text_eq_iff key ip).0 e in
      let below : length (recent now w (attempts_of ip l)) < l.limit =
        rw (h.window, same) at (allowed-below now l (recent now l.window (attempts_of key l)) v) in
      omega (arith, below, h.counted now k, h.limit)

  start-Kept : Kept (new_limiter (suc m) w) 0 []
  unfolding recent number lookup
  start-Kept = record {
    limit = refl;
    window = refl;
    falling = tt;
    spread = tt;
    counted = λ now h. refl;
  }

  -- The state after the pruning of an address.
  allow-Kept :
      (l : Limiter) (t now : ℕ) (f : List ℕ) (key : Text)
      → Kept l t f
      → t ≤ now
      → Kept (allow now key l).1 now f
  unfolding allow
  allow-Kept l t now f key h k =
      let pruned_at : (later : ℕ)
          → now ≤ later
          → recent later w
              (attempts_of ip (set_attempts key (recent now l.window (attempts_of key l)) l))
            ≡ recent later w (attempts_of ip l) =
        λ later j. rw h.window (pruned w now later key ip l (text_eq key ip) refl j) in
      record {
        limit = h.limit;
        window = h.window;
        falling = IsFalling-later t now f k h.falling;
        spread = h.spread;
        counted = λ later j. ap length (pruned_at later j) ∙ h.counted later (omega (arith, k, j));
      }

  -- A failure that was allowed.
  failure-Kept :
      (l : Limiter) (now : ℕ) (f : List ℕ) (key : Text) (b : Bool)
      → text_eq key ip ≡ b
      → Kept l now f
      → (b ≡ true → number now w f ≤ m)
      → Kept (record_failure now key l) now (if b then now ∷ f else f)
  unfolding record_failure
  failure-Kept l now f key true e h k = record {
    limit = h.limit;
    window = h.window;
    falling = (omega arith, h.falling);
    spread = (beyond m w now now f h.falling (k refl), h.spread);
    counted = λ later j. failed_here w now later key ip l f e (h.counted later j);
  }
  failure-Kept l now f key false e h k = record {
    limit = h.limit;
    window = h.window;
    falling = h.falling;
    spread = h.spread;
    counted = λ later j.
        rw (attempts_of-set key ip (attempts_of key l ++ now ∷ []) l, e) (h.counted later j);
  }

  success-Kept :
      (l : Limiter) (now : ℕ) (f : List ℕ) (key : Text) (b : Bool)
      → text_eq key ip ≡ b
      → Kept l now f
      → Kept (reset key l) now (if b then [] else f)
  unfolding reset recent number
  success-Kept l now f key true e h = record {
    limit = h.limit;
    window = h.window;
    falling = tt;
    spread = tt;
    counted = λ later j. rw (attempts_of-reset key ip l, e);
  }
  success-Kept l now f key false e h = record {
    limit = h.limit;
    window = h.window;
    falling = h.falling;
    spread = h.spread;
    counted = λ later j. rw (attempts_of-reset key ip l, e) (h.counted later j);
  }

  unchanged-Kept :
      (l : Limiter) (t : ℕ) (f : List ℕ) (b : Bool) → Kept l t f → Kept l t (if b then f else f)
  unchanged-Kept l t f true h = h
  unchanged-Kept l t f false h = h

  module _ (crypto : Crypto) (lib : Library) (auth : Auth) (q : Login) where
    after_allow-Kept :
        (v : Verdict) (c b : Bool) (o : Option Text) (l : Limiter) (f : List ℕ)
        → verify crypto q.user q.password auth ≡ c
        → q.nonce ≡ o
        → text_eq q.key ip ≡ b
        → Kept l q.now f
        → (v ≡ allowed → b ≡ true → number q.now w f ≤ m)
        → Kept
            (after_allow crypto lib auth q (v, l)).1
            q.now
            (if b then noted (after_allow crypto lib auth q (v, l)).0 q.now f else f)
    unfolding after_allow check_password start_session
    after_allow-Kept (wait n) c b o l f x y z h k = unchanged-Kept l q.now f b h
    after_allow-Kept index_panic c b o l f x y z h k = unchanged-Kept l q.now f b h
    after_allow-Kept allowed false b o l f x y z h k =
        rw x (failure-Kept l q.now f q.key b z h (k refl))
    after_allow-Kept allowed true b none l f x y z h k =
        rw (x, y) (success-Kept l q.now f q.key b z h)
    after_allow-Kept allowed true b (some n) l f x y z h k =
        rw (x, y) (success-Kept l q.now f q.key b z h)

    login-Kept :
        (l : Limiter) (t : ℕ) (f : List ℕ)
        → Kept l t f
        → t ≤ q.now
        → Kept
            (post_login crypto lib auth q l).1
            q.now
            (if text_eq q.key ip then noted (post_login crypto lib auth q l).0 q.now f else f)
    unfolding post_login allow
    login-Kept l t f h k =
        after_allow-Kept (allow q.now q.key l).0 (verify crypto q.user q.password auth)
          (text_eq q.key ip) q.nonce (allow q.now q.key l).1 f refl refl refl
          (allow-Kept l t q.now f q.key h k) (room l t q.now f q.key h k)

  Attempts-Kept :
      (crypto : Crypto) (lib : Library) {l : Limiter} {t : ℕ} {f : List ℕ}
      → Attempts crypto lib l t f
      → Kept l t f
  Attempts-Kept crypto lib none_yet = start-Kept
  Attempts-Kept crypto lib (next_login {l = l} {t = t} {f = f} r auth q h) =
      login-Kept crypto lib auth q l t f (Attempts-Kept crypto lib r) h

  -- Over any sequence of logins from any addresses, with whatever credentials are stored, the failures
  -- of one address since its last success are so far apart that each comes at least the window after
  -- the one `m + 1` places before it, where the limit is `m + 1`.
  pub Attempts-IsSpread :
      (crypto : Crypto) (lib : Library) {l : Limiter} {t : ℕ} {f : List ℕ}
      → Attempts crypto lib l t f
      → IsSpread m w f
  Attempts-IsSpread crypto lib r = (Attempts-Kept crypto lib r).spread
