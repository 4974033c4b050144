-- ===== src/Web/Limiter.antt =====
-- The limit on failed logins, of balena/network-config/internal/web/auth.go, and `postLogin` of
-- pages.go, once its form was read. A time is a number of nanoseconds.
use nf_sdk.Base.{
  ℕ, ◌+◌, ◌-◌, ◌==◌, ltb, leb, Bool, true, false, Option, none, some, List, [], ◌∷◌, ◌++◌, Text,
  codes, length, lookup, insert, remove, if◌then◌else◌,
}
use nf_sdk.Store.Config.{Auth}
use nf_sdk.Store.Login.{Crypto, verify}
use nf_sdk.Web.Session.{Library, issue_session}

-- `loginLimiter`
pub record Limiter : Type 0 where
  pub attempts : List (Text × List ℕ)
  pub limit : ℕ
  pub window : ℕ

-- `newLoginLimiter`
abbrev pub new_limiter : ℕ → ℕ → Limiter
new_limiter limit window = record { attempts = []; limit = limit; window = window }

-- The attempts after the cutoff.
unfoldable pub recent : ℕ → ℕ → List ℕ → List ℕ
recent now window [] = []
recent now window (t ∷ ts) =
    let rest = recent now window ts in if ltb now (t + window) then t ∷ rest else rest

abbrev pub or_none : Option (List ℕ) → List ℕ
or_none none = []
or_none (some ts) = ts

abbrev pub attempts_of : Text → Limiter → List ℕ
attempts_of key l = or_none (lookup key l.attempts)

pub data Verdict : Type 0 where
  allowed : Verdict
  wait : ℕ → Verdict
  index_panic : Verdict

-- The wait until the oldest attempt no longer counts; with a limit of zero there is none.
unfoldable pub oldest_wait : ℕ → ℕ → List ℕ → Verdict
oldest_wait now window [] = index_panic
oldest_wait now window (t ∷ ts) = wait (t + window - now)

unfoldable pub verdict : ℕ → Limiter → List ℕ → Verdict
unfolding oldest_wait
verdict now l kept = if leb l.limit (length kept) then oldest_wait now l.window kept else allowed

abbrev pub set_attempts : Text → List ℕ → Limiter → Limiter
set_attempts key ts l = record l { attempts = insert key ts l.attempts }

-- `allow`
unfoldable pub allow : ℕ → Text → Limiter → Verdict × Limiter
unfolding verdict recent
allow now key l =
    let kept = recent now l.window (attempts_of key l) in
    (verdict now l kept, set_attempts key kept l)

-- `record`
unfoldable pub record_failure : ℕ → Text → Limiter → Limiter
record_failure now key l = set_attempts key (attempts_of key l ++ now ∷ []) l

-- `reset`
unfoldable pub reset : Text → Limiter → Limiter
reset key l = record l { attempts = remove key l.attempts }

-- The form of a login, and what the libraries give: its address, the time, and the nonce of a
-- session, in base64.
pub record Login : Type 0 where
  pub key : Text
  pub now : ℕ
  pub user : Text
  pub password : Text
  pub next : Text
  pub nonce : Option Text

pub data Outcome : Type 0 where
  blocked : ℕ → Outcome
  crashed : Outcome
  rejected : Outcome
  no_nonce : Outcome
  signed_in : Text → Text → Outcome

-- Where a login leads.
unfoldable pub next_page : Text → Text
next_page [] = codes "/"
next_page (c ∷ s) = if c == b'/' then c ∷ s else codes "/"

module _ (crypto : Crypto) (lib : Library) (auth : Auth) where
  unfoldable pub start_session : Login → Option Text → Outcome
  unfolding next_page
  start_session q none = no_nonce
  start_session q (some nonce) =
      signed_in (issue_session lib auth.session_key q.now q.user nonce) (next_page q.next)

  unfoldable pub check_password : Login → Limiter → Bool → Outcome × Limiter
  unfolding start_session
  check_password q l false = (rejected, record_failure q.now q.key l)
  check_password q l true = (start_session q q.nonce, reset q.key l)

  unfoldable pub after_allow : Login → Verdict × Limiter → Outcome × Limiter
  unfolding check_password
  after_allow q (allowed, l) = check_password q l (verify crypto q.user q.password auth)
  after_allow q (wait n, l) = (blocked n, l)
  after_allow q (index_panic, l) = (crashed, l)

  -- `postLogin`
  unfoldable pub post_login : Login → Limiter → Outcome × Limiter
  unfolding after_allow
  post_login q l = after_allow q (allow q.now q.key l)
