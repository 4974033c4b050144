-- ===== src/Web/Examples.antt =====
-- A change of an interface that is confirmed before its timer runs out.
use nf_sdk.Base.{
  ◌≡◌, ◌++◌, ◌∷◌, [], Text, ap, map, none, false, arith, if◌then◌else◌, ◌-◌, ◌+◌, ℕ, Bool, true,
  Option, some, codes, refl, text_eq,
}
use nf_sdk.Store.Config.{no_auth, Auth, initial_config}
use nf_sdk.Store.Login.{Crypto}
use nf_sdk.Web.Session.{Library, read_session, issue_session, sign, payload_of, expiry}
use nf_sdk.Web.Fields.{count}
use nf_sdk.Web.Cookies.{IsEncoding, read_back, read_session-issue}
use nf_sdk.Web.Limiter.{Limiter, new_limiter, Login, Outcome, post_login}
use nf_sdk.Web.Spread.{IsSpread}
use nf_sdk.Web.Throttle.{noted, none_yet, next_login, Attempts-IsSpread}
use nf_sdk.Web.Gate.{Console, Request, reboot}
use nf_sdk.Web.Settings.{Form, post_proxy_settings}
use nf_sdk.Web.Saving.{Answered, post_proxy_settings-Answered}
use nf_sdk.Web.Session.{Session, csrf_token}
use nf_sdk.Netmgr.Dictionary.{Settings}
use nf_sdk.Netmgr.Sample.{small_bus, small_bus-IsBus, small_bus-IsReadable, no_parsing}
use nf_sdk.Web.Addressing
use nf_sdk.Web.Addressing.{Device, post_ipv4}
use nf_sdk.Web.Reverting.{IsAnswered, post_ipv4-IsAnswered}
use nf_sdk.Web.Pending.{Change, Guard, arm, confirm, expire, confirm_window}
use nf_sdk.Web.Rollback.{
  Reaches, start, armed, woken, confirming, initial, ended, AllApart, NotIn, Reaches-AllApart,
  expire-ended,
}

abbrev manager : Option (ℕ → Bool)
manager = some (λ s. true)

abbrev eth0 : Change ℕ
eth0 = record {
  id = 0;
  iface = codes "eth0";
  snapshot = 7;
  deadline = 5 + confirm_window;
  token = codes "t";
}

abbrev kept : Guard ℕ
kept = (confirm manager (codes "t") (arm manager 5 (codes "t") (codes "eth0") 7 initial)).1

kept-Reaches : Reaches manager kept
kept-Reaches = confirming (armed start 5 (codes "t") (codes "eth0") 7) (codes "t")

Reaches-AllApart_example : AllApart (ended (expire manager eth0 kept).trace)
Reaches-AllApart_example = Reaches-AllApart manager (woken kept-Reaches eth0)

eth0-ended : ¬ NotIn eth0.id (ended kept.trace)
unfolding arm confirm text_eq
eth0-ended h = h.0 refl

expire-ended_example : expire manager eth0 kept ≡ kept
expire-ended_example = expire-ended manager kept-Reaches eth0 eth0-ended

-- A cookie of an encoding that adds 47 to each byte, which is read back.
abbrev shifted : Library
shifted = record {
  hmac = λ key t. key ++ t;
  encode = map (λ c. c + 47);
  decode = λ t. some (map (λ c. c - 47) t);
}

map-shifted : (t : Text) → map (λ c. c - 47) (map (λ c. c + 47) t) ≡ t
map-shifted [] = refl
map-shifted (c ∷ t) = let same : c + 47 - 47 ≡ c = omega arith in rw (same, map-shifted t)

shifted-plain : (t : Text) → count b'.' (map (λ c. c + 47) t) ≡ 0
unfolding count
shifted-plain [] = refl
shifted-plain (c ∷ t) = ground (arith, shifted-plain t)

shifted-IsEncoding : IsEncoding shifted
shifted-IsEncoding = record { undone = λ t. ap some (map-shifted t); plain = shifted-plain }

no_bar : count b'|' (codes "n") ≡ 0
unfolding count
no_bar = refl

read_session-issue_example :
    read_session shifted
      (codes "k")
      5
      (some (issue_session shifted (codes "k") 0 (codes "admin") (codes "n")))
    ≡ (if text_eq
          (sign shifted (codes "k") (payload_of 0 (codes "admin") (codes "n")))
          (sign shifted (codes "k") (payload_of 0 (codes "admin") (codes "n")))
        then read_back 5 (codes "admin") (codes "n") (expiry 0)
        else none)
read_session-issue_example =
    read_session-issue shifted shifted-IsEncoding (codes "k") (codes "k") (codes "admin")
      (codes "n") 0 5 no_bar (omega arith)

-- A bcrypt that accepts nothing, and one failed login.
abbrev no_crypto : Crypto
no_crypto = record { generate = λ p. none; compare_hash = λ h p. false; random_key = none }

abbrev guess : Login
guess = record {
  key = codes "10.0.0.9";
  now = 3;
  user = codes "admin";
  password = codes "normal";
  next = [];
  nonce = none;
}

abbrev guessed : Outcome × Limiter
guessed = post_login no_crypto shifted no_auth guess (new_limiter 5 900000000000)

Attempts-IsSpread_example :
    IsSpread 4 900000000000
      (if text_eq (codes "10.0.0.9") (codes "10.0.0.9") then noted guessed.0 3 [] else [])
Attempts-IsSpread_example =
    Attempts-IsSpread 4 900000000000 (codes "10.0.0.9") no_crypto shifted
      (next_login none_yet no_auth guess (omega arith))

-- A request with the cookie and the token of a session is acted on.
abbrev office_auth : Auth
office_auth = record no_auth { username = codes "admin"; session_key = codes "k" }

abbrev console : Console
console = record { auth = office_auth; read_only = false }

abbrev admin : Session
admin = record { user = codes "admin"; nonce = codes "n"; expires = 43200 }

abbrev reboot_request : Request
reboot_request = record {
  route = reboot;
  cookie = some (issue_session shifted (codes "k") 0 (codes "admin") (codes "n"));
  now = 5;
  form_read = true;
  csrf_field = csrf_token shifted (codes "k") admin;
  csrf_header = [];
  passwords = record { current = []; username = []; password = []; confirm = [] };
}

abbrev empty_form : Form
empty_form = record {
  mode = codes "static";
  type = codes "socks5";
  ip = codes "10.0.0.1";
  port = codes "1080";
  login = [];
  password = [];
  clear_password = [];
  no_proxy = [];
  dns = [];
  grace_minutes = codes "0";
  required_passes = [];
  required_failures = [];
  min_dwell_minutes = [];
  max_changes_per_hour = [];
  interval_seconds = codes "x";
  probe_target = [];
  auto_reboot = [];
  force = [];
}

post_proxy_settings-Answered_example :
    Answered empty_form initial_config (post_proxy_settings empty_form 9 true initial_config)
post_proxy_settings-Answered_example = post_proxy_settings-Answered empty_form 9 true initial_config

-- DHCP on an interface without a profile.
abbrev dhcp_form : Addressing.Form
dhcp_form = record {
  iface = codes "eth0";
  method = codes "auto";
  address = [];
  netmask = [];
  gateway = [];
  dns = [];
  now = 9;
  uuid = some (codes "u");
  token = some (codes "t");
}

abbrev fresh_device : Device (Option Settings)
fresh_device = record { guard = initial; world = none }

post_ipv4-IsAnswered_example :
    IsAnswered no_parsing small_bus small_bus-IsBus dhcp_form fresh_device
      (post_ipv4 no_parsing small_bus dhcp_form fresh_device)
post_ipv4-IsAnswered_example =
    post_ipv4-IsAnswered no_parsing small_bus small_bus-IsBus dhcp_form fresh_device
      (small_bus-IsReadable fresh_device.world)
