-- ===== src/Web/BundleExamples.antt =====
-- A bundle and a test of a proxy, with concrete answers.
use nf_sdk.Base.{
  pos, true, false, ◌||◌, Option, none, some, [], ◌∷◌, Text, codes, is_empty, eqb_ℤ, take, ◌≡◌,
  refl,
}
use nf_sdk.Store.Config.{Config, ProxyConfig, initial_config, static}
use nf_sdk.Store.State.{zero_state}
use nf_sdk.Supervisor.Proxy.{Proxy, zero_proxy}
use nf_sdk.Watchdog.World.{Candidate}
use nf_sdk.Watchdog.Desired.{is_off}
use nf_sdk.Activity.Log.{new_log}
use nf_sdk.Prober.Wire.{failed, answered}
use nf_sdk.Prober.Stages.{Result}
use nf_sdk.Diag.Endpoints.{Endpoint}
use nf_sdk.Web.Checks.{Checks, ProxyTest, probe_path, api_proxy_test}
use nf_sdk.Web.Bundle.{Around, api_bundle}
use nf_sdk.Web.Redacted.{SameButSecrets, api_bundle-SameButSecrets}
use nf_sdk.Web.Secrets.{api_bundle-password, IsOwn, IsOwnTest, checks-IsOwn}

abbrev host : Proxy
host = record zero_proxy { type = codes "socks5"; ip = codes "10.0.0.9"; port = pos 1080 }

abbrev site_proxy : ProxyConfig
site_proxy = record initial_config.proxy {
  mode = static;
  type = codes "socks5";
  ip = codes "10.0.0.9";
  port = pos 1080;
  login = codes "site";
  password = codes "one";
}

abbrev site : Config
site = record initial_config { proxy = site_proxy }

abbrev other_secrets : Config
other_secrets = record initial_config {
  proxy = record site_proxy { password = codes "two" };
  auth = record initial_config.auth { hash = 1 ∷ []; session_key = codes "k" };
}

-- Every endpoint is reached through the proxy, whatever its password is.
abbrev reached : Option Candidate → Result
reached none = record { ok = false; stages = []; failed = none }
reached (some p) = record { ok = true; stages = []; failed = none }

abbrev checks : Checks
checks = record {
  available = true;
  host_proxy = some host;
  probe = λ p e. reached p;
  parse_float = λ t. none;
  metrics = failed (codes "no cloudflared");
  udp = record {
    dial = none;
    random = answered ([], []);
    write = λ pkt. none;
    reply = answered (0x80 ∷ 0 ∷ 0 ∷ 0 ∷ 0 ∷ 0 ∷ 0 ∷ []);
  };
}

abbrev around : Around (Unit {0}) (Unit {0})
around = record {
  now = 1;
  version = codes "1";
  interfaces = tt;
  gateway = codes "10.0.0.1";
  resolvers = [];
  device = tt;
  no_device = tt;
  checks = checks;
  log = new_log (pos 10);
}

same_but_secrets : SameButSecrets site other_secrets
same_but_secrets = record {
  username = refl;
  must_change = refl;
  mode = refl;
  type = refl;
  ip = refl;
  port = refl;
  login = refl;
  no_proxy = refl;
  dns = refl;
  stored = refl;
  watchdog = refl;
  updated_at = refl;
}

reached_alike :
    (e : Endpoint)
    → around.checks.probe (probe_path true (some host) site).0 e
      ≡ around.checks.probe (probe_path true (some host) other_secrets).0 e
unfolding probe_path
reached_alike e = refl

api_bundle-SameButSecrets_example :
    api_bundle around site zero_state ≡ api_bundle around other_secrets zero_state
api_bundle-SameButSecrets_example =
    api_bundle-SameButSecrets around site other_secrets zero_state same_but_secrets reached_alike

proxy_on : is_off static || is_empty site_proxy.ip || eqb_ℤ site_proxy.port (pos 0) ≡ false
proxy_on = refl

api_bundle-password_example : codes "one" ≡ take 3 (codes "one more")
api_bundle-password_example =
    api_bundle-password around (λ t. t) site zero_state 1 (codes "one") (take 3 (codes "one more"))
      proxy_on (λ e. refl) refl

abbrev typed : ProxyTest
typed = record {
  type = codes "socks5";
  ip = codes "10.0.0.8";
  port = pos 1080;
  login = [];
  password = [];
  target = codes "gw:443";
  direct = false;
}

abbrev split_gw : Text → Option (Text × Text)
split_gw t = some (codes "gw", codes "443")

checks-IsOwn_example :
    IsOwn [] site (probe_path true (some host) site).0
    × IsOwnTest [] site (api_proxy_test split_gw site typed)
checks-IsOwn_example = checks-IsOwn true (some host) split_gw site typed
