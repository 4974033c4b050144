-- ===== src/Web/Gate.antt =====
-- Who reaches which handler: the routes, `auth` and `mutate` of
-- balena/network-config/internal/web/server.go, and `postPassword` of pages.go.
use nf_sdk.Base.{
  ℕ, Bool, not, ◌&&◌, ◌||◌, Option, none, some, ◌++◌, Text, codes, text_eq, starts_with, is_empty,
  if◌then◌else◌,
}
use nf_sdk.Store.Config.{Auth}
use nf_sdk.Store.Login.{Crypto, verify, set_password}
use nf_sdk.Store.Login
use nf_sdk.Web.Session.{Library, Session, read_session, check_csrf}

-- The patterns of the multiplexer; the streaming and JSON endpoints by their names.
pub data Route : Type 0 where
  static_files login_form login_post health : Route
  overview interfaces proxy diagnostics activity settings : Route
  logout password : Route
  ipv4 state wifi : Text → Route
  priority confirm revert : Route
  proxy_settings apply_now unfreeze hostname reboot : Route
  api : Text → Route

abbrev interface_path : Text → Text → Text
interface_path iface what = codes "/interfaces/" ++ (iface ++ what)

abbrev pub path_of : Route → Text
path_of static_files = codes "/static/"
path_of login_form = codes "/login"
path_of login_post = codes "/login"
path_of health = codes "/healthz"
path_of overview = codes "/"
path_of interfaces = codes "/interfaces"
path_of proxy = codes "/proxy"
path_of diagnostics = codes "/diagnostics"
path_of activity = codes "/activity"
path_of settings = codes "/settings"
path_of logout = codes "/logout"
path_of password = codes "/password"
path_of (ipv4 iface) = interface_path iface (codes "/ipv4")
path_of (state iface) = interface_path iface (codes "/state")
path_of (wifi iface) = interface_path iface (codes "/wifi")
path_of priority = codes "/interfaces/priority"
path_of confirm = codes "/interfaces/confirm"
path_of revert = codes "/interfaces/revert"
path_of proxy_settings = codes "/proxy"
path_of apply_now = codes "/proxy/apply-now"
path_of unfreeze = codes "/proxy/unfreeze"
path_of hostname = codes "/hostname"
path_of reboot = codes "/reboot"
path_of (api name) = codes "/api/" ++ name

-- How `Handler` wraps the handler of a route.
pub data Wrapper : Type 0 where
  bare with_auth with_mutate : Wrapper

abbrev pub wrapper_of : Route → Wrapper
wrapper_of static_files = bare
wrapper_of login_form = bare
wrapper_of login_post = bare
wrapper_of health = bare
wrapper_of overview = with_auth
wrapper_of interfaces = with_auth
wrapper_of proxy = with_auth
wrapper_of diagnostics = with_auth
wrapper_of activity = with_auth
wrapper_of settings = with_auth
wrapper_of logout = with_auth
wrapper_of password = with_auth
wrapper_of (api name) = with_auth
wrapper_of _ = with_mutate

-- The fields of the password form.
pub record PasswordForm : Type 0 where
  pub current : Text
  pub username : Text
  pub password : Text
  pub confirm : Text

pub record Request : Type 0 where
  pub route : Route
  pub cookie : Option Text
  pub now : ℕ
  pub form_read : Bool
  pub csrf_field : Text
  pub csrf_header : Text
  pub passwords : PasswordForm

pub record Console : Type 0 where
  pub auth : Auth
  pub read_only : Bool

pub data Served : Type 0 where
  ran : Option Session → Served
  not_authenticated login_first settings_first : Served
  read_only_refused form_unread form_expired : Served
  wrong_password passwords_differ : Served
  password_answer : Session → Login.Change → Served

-- The pages that are reachable while the default password stands.
unfoldable pub is_open_page : Text → Bool
is_open_page path =
    text_eq path (codes "/settings")
    || text_eq path (codes "/password")
    || text_eq path (codes "/logout")

module _ (crypto : Crypto) (lib : Library) (app : Console) where
  unfoldable pub has_token : Request → Session → Bool
  has_token q s = check_csrf lib app.auth.session_key s q.csrf_field q.csrf_header

  -- `mutate`, behind `auth`
  unfoldable pub mutate : Request → Session → Served
  unfolding has_token
  mutate q s =
      if app.read_only
      then read_only_refused
      else if not q.form_read
      then form_unread
      else if not (has_token q s)
      then form_expired
      else ran (some s)

  unfoldable pub change_password : PasswordForm → ℕ → Session → Served
  change_password f now s =
      if not (verify crypto app.auth.username f.current app.auth)
      then wrong_password
      else if not (text_eq f.password f.confirm)
      then passwords_differ
      else password_answer s (
          set_password crypto (if is_empty f.username then app.auth.username else f.username)
            f.password now app.auth)

  -- `postPassword`
  unfoldable pub post_password : Request → Session → Served
  unfolding has_token change_password
  post_password q s =
      if not q.form_read
      then form_unread
      else if not (has_token q s)
      then form_expired
      else if app.read_only
      then read_only_refused
      else change_password q.passwords q.now s

  unfoldable pub wrapped : Wrapper → Request → Session → Served
  unfolding mutate
  wrapped with_mutate q s = mutate q s
  wrapped _ q s = ran (some s)

  -- The handler that `auth` calls.
  unfoldable pub behind_auth : Route → Request → Session → Served
  unfolding wrapped post_password
  behind_auth password q s = post_password q s
  behind_auth r q s = wrapped (wrapper_of r) q s

  unfoldable pub with_session : Request → Option Session → Served
  unfolding behind_auth is_open_page
  with_session q none =
      if starts_with (path_of q.route) (codes "/api/") then not_authenticated else login_first
  with_session q (some s) =
      if app.auth.must_change && not (is_open_page (path_of q.route))
      then settings_first
      else behind_auth q.route q s

  unfoldable pub entered : Wrapper → Request → Served
  unfolding with_session
  entered bare q = ran none
  entered _ q = with_session q (read_session lib app.auth.session_key q.now q.cookie)

  -- `Handler`
  unfoldable pub serve : Request → Served
  unfolding entered
  serve q = entered (wrapper_of q.route) q
