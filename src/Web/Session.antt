-- ===== src/Web/Session.antt =====
-- Session cookies and form tokens: balena/network-config/internal/web/auth.go. HMAC and base64 are
-- parameters. A time is the number of nanoseconds since 1970; the expiry, in seconds, is read only
-- where it was signed, so that `time.Unix` does not overflow.
use nf_sdk.Base.{
  ℕ, zero, suc, ◌+◌, ◌-◌, ◌*◌, ◌/◌, ◌^◌, ◌==◌, ltb, leb, Bool, ◌&&◌, Option, none, some, List, [],
  ◌∷◌, ◌++◌, Text, codes, text_eq, is_empty, decimal, ℤ, pos, negsuc, if◌then◌else◌,
}

-- `strings.Split` at one byte
unfoldable pub join_first : ℕ → List Text → List Text
join_first c [] = (c ∷ []) ∷ []
join_first c (t ∷ ts) = (c ∷ t) ∷ ts

unfoldable pub split_on : ℕ → Text → List Text
unfolding join_first
split_on sep [] = [] ∷ []
split_on sep (c ∷ s) =
    let rest = split_on sep s in if c == sep then [] ∷ rest else join_first c rest

-- `strings.Cut` at one byte
unfoldable pub cut_later : ℕ → Option (Text × Text) → Option (Text × Text)
cut_later c none = none
cut_later c (some (before, after)) = some (c ∷ before, after)

unfoldable pub cut : ℕ → Text → Option (Text × Text)
unfolding cut_later
cut sep [] = none
cut sep (c ∷ s) = let rest = cut sep s in if c == sep then some ([], s) else cut_later c rest

unfoldable pub is_digit : ℕ → Bool
is_digit c = leb b'0' c && leb c b'9'

unfoldable pub parse_digits : ℕ → Text → Option ℕ
unfolding is_digit
parse_digits n [] = some n
parse_digits n (c ∷ s) =
    let rest = parse_digits (n * 10 + (c - b'0')) s in if is_digit c then rest else none

abbrev pub in_range : ℕ → (ℕ → ℤ) → Option ℕ → Option ℤ
in_range bound f none = none
in_range bound f (some n) = if ltb n bound then some (f n) else none

abbrev pub negated : ℕ → ℤ
negated zero = pos 0
negated (suc n) = negsuc n

unfoldable pub unsigned : Text → Option ℕ
unfolding parse_digits
unsigned [] = none
unsigned (c ∷ s) = parse_digits 0 (c ∷ s)

-- `strconv.ParseInt(s, 10, 64)`
unfoldable pub parse_int : Text → Option ℤ
unfolding unsigned
parse_int [] = none
parse_int (c ∷ s) =
    if c == b'-'
    then in_range (2 ^ 63 + 1) negated (unsigned s)
    else in_range (2 ^ 63) pos (unsigned (if c == b'+' then s else c ∷ s))

pub record Session : Type 0 where
  pub user : Text
  pub nonce : Text
  pub expires : ℕ

-- `sessionTTL`, in nanoseconds
abbrev pub session_ttl : ℕ
session_ttl = 43200000000000

abbrev pub second : ℕ
second = 1000000000

-- `hmac` gives the sum as text, in base64.
pub record Library : Type 0 where
  pub hmac : Text → Text → Text
  pub encode : Text → Text
  pub decode : Text → Option Text

-- The time at which a session of this moment ends, in seconds.
abbrev pub expiry : ℕ → ℕ
expiry now = (now + session_ttl) / second

abbrev pub payload_of : ℕ → Text → Text → Text
payload_of now user nonce = user ++ (b'|' ∷ nonce ++ (b'|' ∷ decimal (pos (expiry now))))

unfoldable pub live_session : ℕ → Text → Text → Option ℤ → Option Session
live_session now user nonce none = none
live_session now user nonce (some (negsuc e)) = none
live_session now user nonce (some (pos e)) =
    if ltb (e * second) now then none else some record { user = user; nonce = nonce; expires = e }

unfoldable pub session_of : ℕ → List Text → Option Session
unfolding live_session parse_int
session_of now (user ∷ nonce ∷ e ∷ []) = live_session now user nonce (parse_int e)
session_of now _ = none

module _ (lib : Library) where
  -- `sign`, with the store's session key
  abbrev pub sign : Text → Text → Text
  sign key payload = lib.hmac key payload

  -- `issueSession`: the value of the cookie, given a fresh nonce in base64
  unfoldable pub issue_session : Text → ℕ → Text → Text → Text
  issue_session key now user nonce =
      let payload = payload_of now user nonce in lib.encode payload ++ (b'.' ∷ sign key payload)

  unfoldable pub checked_payload : Text → ℕ → Text → Option Text → Option Session
  unfolding session_of split_on
  checked_payload key now sig none = none
  checked_payload key now sig (some payload) =
      if text_eq sig (sign key payload) then session_of now (split_on b'|' payload) else none

  unfoldable pub cut_cookie : Text → ℕ → Option (Text × Text) → Option Session
  unfolding checked_payload
  cut_cookie key now none = none
  cut_cookie key now (some (encoded, sig)) = checked_payload key now sig (lib.decode encoded)

  -- `readSession`, of the value of the cookie
  unfoldable pub read_session : Text → ℕ → Option Text → Option Session
  unfolding cut_cookie cut
  read_session key now none = none
  read_session key now (some value) = cut_cookie key now (cut b'.' value)

  -- `csrfToken`
  unfoldable pub csrf_token : Text → Session → Text
  csrf_token key s = sign key (s.nonce ++ codes "|csrf")

  -- `checkCSRF`, of the field of the form and of the header
  unfoldable pub check_csrf : Text → Session → Text → Text → Bool
  unfolding csrf_token
  check_csrf key s field header =
      text_eq (if is_empty field then header else field) (csrf_token key s)
