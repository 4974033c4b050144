-- ===== src/Web/Redacted.antt =====
-- What `apiBundle` of balena/network-config/internal/web/api.go keeps to itself.
use nf_sdk.Base.{
  Bool, true, false, Option, none, some, List, [], ◌∷◌, Text, codes, is_empty, if◌then◌else◌, ◌≡◌,
  ◌∙◌, refl, ap, map, Bool-cases, inl, inr,
}
use nf_sdk.Store.Config.{Config}
use nf_sdk.Store.State.{State}
use nf_sdk.Supervisor.Proxy.{Proxy, enabled}
use nf_sdk.Prober.Stages.{Result}
use nf_sdk.Diag.Endpoints.{Endpoint, EndpointResult, endpoints, check_endpoints}
use nf_sdk.Web.Checks.{ProbeRoute, probe_path, answered_path}
use nf_sdk.Web.Bundle.{Around, redact_proxy, redact, collected, api_bundle}

-- Two configurations that differ at most in the hash of the login, the session key, the time of its
-- last change, and the proxy's password, which both have or neither.
pub record SameButSecrets (c d : Config) : Type 0 where
  pub username : c.auth.username ≡ d.auth.username
  pub must_change : c.auth.must_change ≡ d.auth.must_change
  pub mode : c.proxy.mode ≡ d.proxy.mode
  pub type : c.proxy.type ≡ d.proxy.type
  pub ip : c.proxy.ip ≡ d.proxy.ip
  pub port : c.proxy.port ≡ d.proxy.port
  pub login : c.proxy.login ≡ d.proxy.login
  pub no_proxy : c.proxy.no_proxy ≡ d.proxy.no_proxy
  pub dns : c.proxy.dns ≡ d.proxy.dns
  pub stored : is_empty c.proxy.password ≡ is_empty d.proxy.password
  pub watchdog : c.watchdog ≡ d.watchdog
  pub updated_at : c.updated_at ≡ d.updated_at

abbrev hidden : Text → Text
hidden s = if is_empty s then s else codes "[redacted]"

hidden-is_empty : (s t : Text) → is_empty s ≡ is_empty t → hidden s ≡ hidden t
hidden-is_empty [] [] h = refl
hidden-is_empty [] (d ∷ t) h = absurd (cc)
hidden-is_empty (c ∷ s) [] h = absurd (cc)
hidden-is_empty (c ∷ s) (d ∷ t) h = refl

redact-SameButSecrets : (c d : Config) → SameButSecrets c d → redact c ≡ redact d
unfolding redact redact_proxy
redact-SameButSecrets c d h =
    let password = hidden-is_empty c.proxy.password d.proxy.password h.stored in
    λ i. record {
      proxy = record {
        mode = h.mode i;
        type = h.type i;
        ip = h.ip i;
        port = h.port i;
        login = h.login i;
        password = password i;
        no_proxy = h.no_proxy i;
        dns = h.dns i;
      };
      watchdog = h.watchdog i;
      auth = record {
        username = h.username i;
        hash = [];
        must_change = h.must_change i;
        session_key = [];
        changed_at = 0;
      };
      updated_at = h.updated_at i;
    }

answered_path-shown :
    (host : Option Proxy) (c d : Config) → (answered_path c host).1 ≡ (answered_path d host).1
answered_path-shown none c d = refl
answered_path-shown (some p) c d = elim (Bool-cases (enabled p)) [
  | inl e ↦ rw e refl
  | inr e ↦ rw e refl
]

probe_path-shown :
    (available : Bool) (host : Option Proxy) (c d : Config)
    → (probe_path available host c).1 ≡ (probe_path available host d).1
unfolding probe_path
probe_path-shown false host c d = refl
probe_path-shown true host c d = answered_path-shown host c d

check_endpoints-same :
    (f g : Endpoint → Result) (es : List Endpoint)
    → ((e : Endpoint) → f e ≡ g e)
    → check_endpoints f es ≡ check_endpoints g es
unfolding check_endpoints
check_endpoints-same f g es h =
    ap (λ (k : Endpoint → Result). map (λ e. record { endpoint = e; result = k e }) es)
      (λ i e. h e i)

module _ {I D : Type 0} where
  collected-redact :
      (a : Around I D) (c d : Config) (st : State) (path : ProbeRoute)
      (results : List EndpointResult)
      → redact c ≡ redact d
      → collected a c st path results ≡ collected a d st path results
  unfolding collected
  collected-redact a c d st path results e = rw e refl

-- Two configurations that differ at most in their secrets, with the same state of the watchdog and with
-- checks that end in the same way, give the same bundle.
pub api_bundle-SameButSecrets :
    {I D : Type 0} (a : Around I D) (c d : Config) (st : State)
    → SameButSecrets c d
    → ((e : Endpoint)
        → a.checks.probe (probe_path a.checks.available a.checks.host_proxy c).0 e
          ≡ a.checks.probe (probe_path a.checks.available a.checks.host_proxy d).0 e)
    → api_bundle a c st ≡ api_bundle a d st
unfolding api_bundle
api_bundle-SameButSecrets {I} {D} a c d st h k =
    let path = probe_path-shown a.checks.available a.checks.host_proxy c d in
    let results = check_endpoints-same _ _ endpoints k in
    (λ i. collected a c st (path i) (results i))
    ∙ collected-redact a c d st _ _ (redact-SameButSecrets c d h)
