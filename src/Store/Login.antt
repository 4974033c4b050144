-- ===== src/Store/Login.antt =====
-- The console's credentials: balena/network-config/internal/store/auth.go. bcrypt and the source of
-- random keys are parameters; a `time.Time` is a number.
use nf_sdk.Base.{
  ℕ, Bool, true, false, ◌&&◌, ltb, Option, none, some, List, Text, codes, text_eq, is_empty,
  trim_space, if◌then◌else◌, ◌+◌, [], ◌∷◌,
}
use nf_sdk.Store.Config.{Auth}

abbrev pub default_username : Text
default_username = codes "admin"

abbrev pub default_password : Text
default_password = codes "normal"

abbrev pub min_password_length : ℕ
min_password_length = 8

-- The bytes of a code point in UTF-8.
unfoldable pub rune_len : ℕ → ℕ
rune_len c = if ltb c 0x80 then 1 else if ltb c 0x800 then 2 else if ltb c 0x10000 then 3 else 4

-- Go's `len` of a string: its bytes.
unfoldable pub byte_len : Text → ℕ
unfolding rune_len
byte_len [] = 0
byte_len (c ∷ s) = rune_len c + byte_len s

-- The hash that is compared against where there is none.
abbrev invalid_hash : List ℕ
invalid_hash = codes "$2a$10$invalidinvalidinvalidinvalidinvalidinvalidinvalidinvalidinv"

-- One use of the libraries: a call may fail.
pub record Crypto : Type 0 where
  pub generate : Text → Option (List ℕ)
  pub compare_hash : List ℕ → Text → Bool
  pub random_key : Option Text

pub data Refusal : Type 0 where
  no_username short_password default_refused hash_failed key_failed : Refusal

-- The credentials that are held and given to `write`, or why nothing changed.
pub data Change : Type 0 where
  refused : Refusal → Change
  unchanged : Change
  written : Auth → Change

module _ (crypto : Crypto) where
  unfoldable pub with_hash : Option (List ℕ) → Auth → Option Auth
  with_hash none a = none
  with_hash (some h) a =
      some (record a { username = default_username; hash = h; must_change = true })

  unfoldable pub first_hash : Auth → Option Auth
  unfolding with_hash
  first_hash a = if is_empty a.hash then with_hash (crypto.generate default_password) a else some a

  unfoldable pub first_key : Bool → Option Text → Auth → Change
  first_key fresh none a = refused key_failed
  first_key fresh (some k) a = written (record a { session_key = k })

  unfoldable pub ensure_key : Bool → Option Auth → Change
  unfolding first_key
  ensure_key fresh none = refused hash_failed
  ensure_key fresh (some a) =
      if is_empty a.session_key
      then first_key fresh crypto.random_key a
      else if fresh
      then written a
      else unchanged

  -- `EnsureAuth`
  unfoldable pub ensure_auth : Auth → Change
  unfolding ensure_key first_hash
  ensure_auth a = ensure_key (is_empty a.hash) (first_hash a)

  -- `Verify`
  unfoldable pub verify : Text → Text → Auth → Bool
  verify username password a =
      text_eq username a.username
      && crypto.compare_hash (if is_empty a.hash then invalid_hash else a.hash) password

  unfoldable pub replace : Text → ℕ → Option (List ℕ) → Option Text → Auth → Change
  replace username now none k a = refused hash_failed
  replace username now (some h) none a = refused key_failed
  replace username now (some h) (some k) a = written (record {
    username = username;
    hash = h;
    must_change = false;
    session_key = k;
    changed_at = now;
  })

  -- `SetPassword`
  unfoldable pub set_password : Text → Text → ℕ → Auth → Change
  unfolding replace
  set_password username password now a =
      let name = trim_space username in
      if is_empty name
      then refused no_username
      else if ltb (byte_len password) min_password_length
      then refused short_password
      else if text_eq password default_password
      then refused default_refused
      else replace name now (crypto.generate password) crypto.random_key a
