-- ===== src/Web/Saving.antt =====
-- What a form of the proxy page makes of the configuration.
use nf_sdk.Base.{
  ℤ, pos, leb_ℤ, ℕ, Bool, true, false, not, ◌&&◌, ◌||◌, Option, none, some, [], Text, is_empty,
  trim_space, codes, text_eq, ◌≡◌, refl, arith, Bool-cases, inl, inr,
}
use nf_sdk.Store.Config.{Mode, is_valid_mode, Config, update_config}
use nf_sdk.Store.Bounds.{IsBounded, update_config-IsBounded}
use nf_sdk.Supervisor.Proxy.{is_valid_type}
use nf_sdk.Web.Session.{parse_int}
use nf_sdk.Web.Settings.{
  Form, mode_of, port_of, checked_port, new_password, is_set, settings_of, Answer, invalid_mode,
  invalid_port, invalid_type, not_saved, saved, is_off, save, with_port, post_proxy_settings,
}

-- What holds of a configuration that a form has replaced.
pub record IsReplaced (f : Form) (c d : Config) : Type 0 where
  pub mode : is_valid_mode d.proxy.mode ≡ true
  pub typed : (is_off d.proxy.mode || is_valid_type d.proxy.type) ≡ true
  pub port : (leb_ℤ (pos 0) d.proxy.port && leb_ℤ d.proxy.port (pos 65535)) ≡ true
  pub bounded : IsBounded d.watchdog
  pub auth : d.auth ≡ c.auth
  pub kept :
      is_empty f.password ≡ true
      → text_eq f.clear_password (codes "true") ≡ false
      → d.proxy.password ≡ c.proxy.password
  pub cleared : text_eq f.clear_password (codes "true") ≡ true → d.proxy.password ≡ []

-- A form that is refused changes nothing.
abbrev pub Answered : Form → Config → Answer × Config → Type 0
Answered f c (saved, d) = IsReplaced f c d
Answered f c (not_saved, d) = IsReplaced f c d
Answered f c (invalid_mode, d) = d ≡ c
Answered f c (invalid_port, d) = d ≡ c
Answered f c (invalid_type, d) = d ≡ c

checked_port-bounded :
    (o : Option ℤ) (p : ℤ)
    → checked_port o ≡ some p
    → (leb_ℤ (pos 0) p && leb_ℤ p (pos 65535)) ≡ true
unfolding checked_port
checked_port-bounded none p h = ground arith
checked_port-bounded (some n) p h = ground arith

port_of-bounded :
    (v : Text) (p : ℤ) → port_of v ≡ some p → (leb_ℤ (pos 0) p && leb_ℤ p (pos 65535)) ≡ true
unfolding port_of
port_of-bounded v p h = elim (Bool-cases (is_empty v)) [
  | inl e ↦ ground (arith, rw e at h)
  | inr e ↦ checked_port-bounded (parse_int v) p (rw e at h)
]

module _ (f : Form) (mode : Mode) (p : ℤ) (now : ℕ) (c : Config) where
  save-IsReplaced :
      is_valid_mode mode ≡ true
      → (is_off mode || is_valid_type (trim_space f.type)) ≡ true
      → (leb_ℤ (pos 0) p && leb_ℤ p (pos 65535)) ≡ true
      → IsReplaced f c (update_config (settings_of f mode p) now c)
  unfolding update_config new_password is_set
  save-IsReplaced m t b = record {
    mode = m;
    typed = t;
    port = b;
    bounded = update_config-IsBounded (settings_of f mode p) now c;
    auth = refl;
    kept = λ h k. rw (k, h);
    cleared = λ h. rw h;
  }

  save-Answered :
      (written : Bool)
      → is_valid_mode mode ≡ true
      → (is_off mode || is_valid_type (trim_space f.type)) ≡ true
      → (leb_ℤ (pos 0) p && leb_ℤ p (pos 65535)) ≡ true
      → Answered f c (save f mode p now written c)
  unfolding save
  save-Answered true m t b = save-IsReplaced m t b
  save-Answered false m t b = save-IsReplaced m t b

module _ (f : Form) (now : ℕ) (written : Bool) (c : Config) where
  with_port-Answered :
      (mode : Mode) (o : Option ℤ)
      → is_valid_mode mode ≡ true
      → port_of (trim_space f.port) ≡ o
      → Answered f c (with_port f mode o now written c)
  unfolding with_port
  with_port-Answered mode none m e = refl
  with_port-Answered mode (some p) m e =
      elim (Bool-cases (is_off mode || is_valid_type (trim_space f.type))) [
        | inl t ↦
            rw (untyped (is_off mode) (is_valid_type (trim_space f.type)) true t)
              (save-Answered f mode p now c written m t (port_of-bounded (trim_space f.port) p e))
        | inr t ↦ rw (untyped (is_off mode) (is_valid_type (trim_space f.type)) false t) refl
      ]
    where
      untyped : (a b t : Bool) → (a || b) ≡ t → (not a && not b) ≡ not t
      untyped a b t h = ground arith

  -- A form that is refused leaves the configuration as it was. Any other form replaces it, also where
  -- the file cannot be written: the mode is known, the type is one of the four unless the mode is off,
  -- the port is 0 or a port, the watchdog's settings are within their bounds, the credentials of the
  -- console stay, and so does the proxy's password where the field is empty and no clearing is asked
  -- for.
  pub post_proxy_settings-Answered : Answered f c (post_proxy_settings f now written c)
  unfolding post_proxy_settings
  post_proxy_settings-Answered = elim (Bool-cases (is_valid_mode (mode_of f.mode))) [
    | inl m ↦ rw m (with_port-Answered (mode_of f.mode) (port_of (trim_space f.port)) m refl)
    | inr m ↦ rw m refl
  ]
