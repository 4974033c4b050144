-- ===== src/Web/Guarded.antt =====
-- What a request must show before it changes anything.
use nf_sdk.Base.{Bool, true, false, not, ◌&&◌, Option, none, some, ◌≡◌}
use nf_sdk.Store.Login.{Crypto}
use nf_sdk.Web.Session.{Library, Session, read_session, check_csrf}
use nf_sdk.Web.Gate.{
  Route, ipv4, state, wifi, priority, confirm, revert, proxy_settings, apply_now, unfreeze,
  hostname, reboot, password, path_of, Request, Console, Served, ran, password_answer, has_token,
  is_open_page,
}

-- The routes whose handlers change the device or the console's settings.
abbrev pub is_change : Route → Bool
is_change (ipv4 i) = true
is_change (state i) = true
is_change (wifi i) = true
is_change priority = true
is_change confirm = true
is_change revert = true
is_change proxy_settings = true
is_change apply_now = true
is_change unfreeze = true
is_change hostname = true
is_change reboot = true
is_change password = true
is_change _ = false

abbrev pub is_password : Route → Bool
is_password password = true
is_password _ = false

-- The session with which a handler was run, or the password form was answered by the store.
abbrev pub acted : Served → Option Session
acted (ran o) = o
acted (password_answer s c) = some s
acted _ = none

module _ (crypto : Crypto) (lib : Library) (app : Console) where
  pub record IsGranted (q : Request) (s : Session) : Type 0 where
    pub session : read_session lib app.auth.session_key q.now q.cookie ≡ some s
    pub replaced : (app.auth.must_change && not (is_password q.route)) ≡ false
    pub writable : app.read_only ≡ false
    pub form : q.form_read ≡ true
    pub token : check_csrf lib app.auth.session_key s q.csrf_field q.csrf_header ≡ true

  abbrev Checked : Request → Session → Session → Type 0
  Checked q s t =
      (s ≡ t)
      × (app.read_only ≡ false)
      × (q.form_read ≡ true)
      × (has_token crypto lib app q s ≡ true)

  abbrev Entered : Request → Option Session → Session → Type 0
  Entered q o t =
      (o ≡ some t)
      × ((app.auth.must_change && not (is_open_page (path_of q.route))) ≡ false)
      × (app.read_only ≡ false)
      × (q.form_read ≡ true)
      × (has_token crypto lib app q t ≡ true)
