-- ===== src/Web/Cookies.antt =====
-- What is read from the cookies that the console issues.
use nf_sdk.Base.{
  ℕ, ◌*◌, ◌^◌, ◌<◌, ◌==◌, ltb, Option, none, some, List, [], ◌∷◌, ◌++◌, Text, text_eq, ==_iff,
  decimal, pos, if◌then◌else◌, ◌≡◌, refl, arith, length, Bool-cases, inl, inr,
}
use nf_sdk.Web.Session.{
  split_on, Library, Session, sign, payload_of, expiry, second, issue_session, live_session,
  session_of, checked_payload, cut_cookie, read_session,
}
use nf_sdk.Web.Fields.{
  count, three_fields, more_fields, cut-field, parse_int-decimal, count-decimal, count-append,
  counted,
}

-- A cookie reads back as its session where no `|` is in the name.
abbrev pub read_back : ℕ → Text → Text → ℕ → Option Session
read_back later user nonce e =
    if count b'|' user == 0
    then if ltb (e * second) later
      then none
      else some record { user = user; nonce = nonce; expires = e }
    else none

session_of-long : (now : ℕ) (ps : List Text) → 3 < length ps → session_of now ps ≡ none
unfolding session_of
session_of-long now [] h = refl
session_of-long now (a ∷ []) h = refl
session_of-long now (a ∷ b ∷ []) h = refl
session_of-long now (a ∷ b ∷ c ∷ []) h = absurd (omega arith)
session_of-long now (a ∷ b ∷ c ∷ d ∷ ps) h = refl

session_of-payload :
    (user nonce : Text) (now later : ℕ)
    → count b'|' nonce ≡ 0
    → expiry now < 2 ^ 63
    → session_of later (split_on b'|' (payload_of now user nonce))
      ≡ read_back later user nonce (expiry now)
unfolding session_of live_session
session_of-payload user nonce now later h k = elim (Bool-cases (count b'|' user == 0)) [
  | inl e ↦ rw (
    e,
    three_fields user nonce (decimal (pos (expiry now))) ((==_iff (count b'|' user) 0).0 e) h
        (count-decimal (expiry now)),
    parse_int-decimal (expiry now) k,
  )
  | inr e ↦ rw (
    e,
    session_of-long later (split_on b'|' (payload_of now user nonce)) (
        more_fields user (nonce ++ (b'|' ∷ decimal (pos (expiry now)))) (ground arith) (
          let c = count-append b'|' nonce (b'|' ∷ decimal (pos (expiry now))) in
          let d = counted (decimal (pos (expiry now))) in omega (arith, c, d))),
  )
]

module _ (lib : Library) where
  -- base64 for URLs is undone, and has no full stop.
  pub record IsEncoding : Type 0 where
    pub undone : (t : Text) → lib.decode (lib.encode t) ≡ some t
    pub plain : (t : Text) → count b'.' (lib.encode t) ≡ 0

  -- What a cookie that was issued at one time under one key gives at another time under another key: a
  -- session with its name, nonce and end, exactly if both keys give the payload the same sum, the name
  -- has no `|`, and the session has not ended.
  pub read_session-issue :
      IsEncoding
      → (old key user nonce : Text) (now later : ℕ) → count b'|' nonce ≡ 0
      → expiry now < 2 ^ 63
      → read_session lib key later (some (issue_session lib old now user nonce)) ≡ (
          if text_eq
            (sign lib old (payload_of now user nonce))
            (sign lib key (payload_of now user nonce))
          then read_back later user nonce (expiry now)
          else none)
  unfolding read_session cut_cookie checked_payload issue_session
  read_session-issue is old key user nonce now later h k =
      let payload = payload_of now user nonce in
      rw (
        cut-field b'.' (lib.encode payload) (sign lib old payload) (is.plain payload),
        is.undone payload,
        session_of-payload user nonce now later h k,
      )
