-- ===== src/Store/Credentials.antt =====
-- What a change of the password gives, and what the first run sets up.
use nf_sdk.Base.{
  ℕ, ◌≤◌, ◌≡◌, refl, true, false, Option, none, some, Text, List, text_eq, text_eq_refl, is_empty,
  trim_space, arith, Option-cases, inl, inr,
}
use nf_sdk.Store.Config.{Auth}
use nf_sdk.Store.Login.{
  Crypto, unchanged, written, ensure_auth, verify, set_password, default_password, replace,
  ensure_key, first_hash, first_key, with_hash, byte_len,
}

module _ (crypto : Crypto) where
  -- A password matches its own hash, and a hash is not empty.
  pub record IsSound : Type 0 where
    pub matches :
        (p : Text) (h : List ℕ) → crypto.generate p ≡ some h → crypto.compare_hash h p ≡ true
    pub filled : (p : Text) (h : List ℕ) → crypto.generate p ≡ some h → is_empty h ≡ false
    pub keyed : (k : Text) → crypto.random_key ≡ some k → is_empty k ≡ false

  verify-hash :
      IsSound
      → (name password : Text) (h : List ℕ) (b : Auth) → crypto.generate password ≡ some h
      → b.username ≡ name
      → b.hash ≡ h
      → verify crypto name password b ≡ true
  unfolding verify
  verify-hash sound name password h b g n e =
      rw (n, e, sound.filled password h g, sound.matches password h g, text_eq_refl name) refl

  replace-verify :
      IsSound
      → (name password : Text) (now : ℕ) (g : Option (List ℕ)) (k : Option Text) (a b : Auth)
      → crypto.generate password ≡ g
      → replace crypto name now g k a ≡ written b
      → (verify crypto name password b ≡ true) × (b.must_change ≡ false)
  unfolding replace
  replace-verify sound name password now none k a b e h = ground arith
  replace-verify sound name password now (some g) none a b e h = ground arith
  replace-verify sound name password now (some g) (some k) a b e h =
      let named : b.username ≡ name = ground arith in
      let hashed : b.hash ≡ g = ground arith in
      (verify-hash sound name password g b e named hashed, ground arith)

  -- After a password was set, it verifies with the trimmed name; it has at least 8 bytes and is not
  -- the default one, and the console no longer asks for a change.
  pub set_password-verify :
      IsSound
      → (username password : Text) (now : ℕ) (a b : Auth)
      → set_password crypto username password now a ≡ written b
      → (verify crypto (trim_space username) password b ≡ true)
        × (b.must_change ≡ false)
        × (8 ≤ byte_len password)
        × (text_eq password default_password ≡ false)
  unfolding set_password
  set_password-verify sound username password now a b h = ground (
    arith,
    replace-verify sound (trim_space username) password now (crypto.generate password)
        crypto.random_key a b refl,
  )

  -- Credentials that the first run has set up are left alone by the next.
  pub ensure_auth_again :
      IsSound → (a b : Auth) → ensure_auth crypto a ≡ written b → ensure_auth crypto b ≡ unchanged
  unfolding ensure_auth ensure_key first_hash first_key with_hash
  ensure_auth_again sound a b h = elim (Option-cases (crypto.generate default_password)) [
    | inl none_ ↦ elim (Option-cases crypto.random_key) [
      | inl keyless ↦ ground (arith, none_, keyless)
      | inr (k, e) ↦ ground (arith, none_, e, sound.keyed k e)
    ]
    | inr (g, f) ↦ elim (Option-cases crypto.random_key) [
      | inl keyless ↦ ground (arith, f, keyless, sound.filled default_password g f)
      | inr (k, e) ↦ ground (arith, f, e, sound.filled default_password g f, sound.keyed k e)
    ]
  ]
