-- ===== src/Web/Secrets.antt =====
-- What the bundle of balena/network-config/internal/web/api.go gives away through the fingerprint in the
-- state of the watchdog.
use nf_sdk.Base.{
  ℕ, ℤ, pos, Bool, true, false, ◌||◌, [], Text, codes, is_empty, eqb_ℤ, take, ◌≡◌, refl, sym, ap,
  decimal,
}
use nf_sdk.Base.{
  ◌&&◌, ◌⊎◌, inl, inr, Option, none, some, text_eq, text_eq_iff, eqb_ℤ_iff, and-eq-true, Bool-cases,
  if_both,
}
use nf_sdk.Supervisor.Proxy.{Proxy, enabled}
use nf_sdk.Watchdog.World.{Candidate}
use nf_sdk.Web.Checks.{
  ProxyTest, TestAnswer, bad_target, no_proxy_address, probed, is_stored_for, with_stored,
  probe_path, answered_path, host_candidate, tested_proxy, tested_password, test_through,
  test_target, split_addr, api_proxy_test,
}
use mathlib.Core.List.{append_cancel_left, append_cancel_right}
use nf_sdk.Store.Config.{Config, ProxyConfig}
use nf_sdk.Store.State.{State, record_change}
use nf_sdk.Watchdog.Desired.{preimage, fingerprint, is_off}
use nf_sdk.Web.Bundle.{Around, collected, api_bundle}

-- A proxy with another password.
abbrev pub with_password : ProxyConfig → Text → ProxyConfig
with_password p password = record p { password = password }

preimage-password :
    (p : ProxyConfig) (s t : Text)
    → preimage (with_password p s) ≡ preimage (with_password p t)
    → s ≡ t
unfolding preimage
preimage-password p s t h =
    let bar : Text = codes "|" in
    let e1 = append_cancel_left p.type _ _ h in
    let e2 = append_cancel_left bar _ _ e1 in
    let e3 = append_cancel_left p.ip _ _ e2 in
    let e4 = append_cancel_left bar _ _ e3 in
    let e5 = append_cancel_left (decimal p.port) _ _ e4 in
    let e6 = append_cancel_left bar _ _ e5 in
    let e7 = append_cancel_left p.login _ _ e6 in
    let e8 = append_cancel_left bar _ _ e7 in append_cancel_right s t _ e8

fingerprint-password :
    (sha256_hex : Text → Text) (p : ProxyConfig) (s t : Text)
    → is_off p.mode || is_empty p.ip || eqb_ℤ p.port (pos 0) ≡ false
    → (take 16 (sha256_hex (preimage (with_password p s)))
          ≡ take 16 (sha256_hex (preimage (with_password p t)))
        → preimage (with_password p s) ≡ preimage (with_password p t))
    → fingerprint sha256_hex (with_password p s) ≡ fingerprint sha256_hex (with_password p t)
    → s ≡ t
unfolding fingerprint
fingerprint-password sha256_hex p s t on apart h =
    let same = rw on at h in preimage-password p s t (apart same)

-- Where a proxy is configured, two passwords for it whose fingerprints do not collide give the same state
-- of the watchdog, in the bundle that is taken after a change was recorded, only if they are equal.
pub api_bundle-password :
    {I D : Type 0} (a : Around I D) (sha256_hex : Text → Text) (c : Config) (st : State) (now : ℕ)
    (s t : Text)
    → is_off c.proxy.mode || is_empty c.proxy.ip || eqb_ℤ c.proxy.port (pos 0) ≡ false
    → (take 16 (sha256_hex (preimage (with_password c.proxy s)))
          ≡ take 16 (sha256_hex (preimage (with_password c.proxy t)))
        → preimage (with_password c.proxy s) ≡ preimage (with_password c.proxy t))
    → (api_bundle a
        (record c { proxy = with_password c.proxy s })
        (record_change now (fingerprint sha256_hex (with_password c.proxy s)) st)).watchdog_state
      ≡ (api_bundle a
          (record c { proxy = with_password c.proxy t })
          (record_change now (fingerprint sha256_hex (with_password c.proxy t)) st)).watchdog_state
    → s ≡ t
unfolding api_bundle collected record_change
api_bundle-password a sha256_hex c st now s t on apart h =
    fingerprint-password sha256_hex c.proxy s t on apart (ap (λ (w : State). w.applied) h)

-- The candidate's password is the one that was typed, or the stored one, which is stored for its
-- address and port.
abbrev pub IsOwn : Text → Config → Option Candidate → Type 0
IsOwn typed cfg none = Unit
IsOwn typed cfg (some p) =
    (p.password ≡ typed)
    ⊎ ((p.password ≡ cfg.proxy.password) × (p.ip ≡ cfg.proxy.ip) × (p.port ≡ cfg.proxy.port))

abbrev pub IsOwnTest : Text → Config → TestAnswer → Type 0
IsOwnTest typed cfg bad_target = Unit
IsOwnTest typed cfg no_proxy_address = Unit
IsOwnTest typed cfg (probed p target kind) = IsOwn typed cfg p

is_stored_for-same :
    (stored : ProxyConfig) (ip : Text) (port : ℤ)
    → is_stored_for stored ip port ≡ true
    → (ip ≡ stored.ip) × (port ≡ stored.port)
unfolding is_stored_for
is_stored_for-same stored ip port h =
    let both = and-eq-true (text_eq stored.ip ip) (eqb_ℤ stored.port port) h in
    (sym ((text_eq_iff stored.ip ip).0 both.0), sym ((eqb_ℤ_iff stored.port port).0 both.1))

with_stored-IsOwn :
    (cfg : Config) (p : Candidate) → IsOwn p.password cfg (some (with_stored cfg.proxy p))
unfolding with_stored
with_stored-IsOwn cfg p = elim (Bool-cases (is_stored_for cfg.proxy p.ip p.port)) [
  | inl e ↦ let own = is_stored_for-same cfg.proxy p.ip p.port e in rw e (inr (refl, own.0, own.1))
  | inr e ↦ rw e (inl refl)
]

answered_path-IsOwn : (cfg : Config) (host : Option Proxy) → IsOwn [] cfg (answered_path cfg host).0
answered_path-IsOwn cfg none = tt
answered_path-IsOwn cfg (some p) = elim (Bool-cases (enabled p)) [
  | inl e ↦ rw e (with_stored-IsOwn cfg (host_candidate p))
  | inr e ↦ rw e tt
]

probe_path-IsOwn :
    (available : Bool) (host : Option Proxy) (cfg : Config)
    → IsOwn [] cfg (probe_path available host cfg).0
unfolding probe_path
probe_path-IsOwn false host cfg = tt
probe_path-IsOwn true host cfg = answered_path-IsOwn cfg host

tested_proxy-IsOwn :
    (cfg : Config) (q : ProxyTest) → IsOwn q.password cfg (some (tested_proxy cfg q))
unfolding tested_proxy tested_password
tested_proxy-IsOwn cfg q =
    elim (Bool-cases (is_empty q.password && is_stored_for cfg.proxy q.ip q.port)) [
      | inl e ↦
          let both = and-eq-true (is_empty q.password) (is_stored_for cfg.proxy q.ip q.port) e in
          let own = is_stored_for-same cfg.proxy q.ip q.port both.1 in
          rw e (inr (refl, own.0, own.1))
      | inr e ↦ rw e (inl refl)
    ]

test_through-IsOwn :
    (cfg : Config) (q : ProxyTest) (target : Text) (port : Option ℤ)
    → IsOwnTest q.password cfg (test_through cfg q target port)
test_through-IsOwn cfg q target none = tt
test_through-IsOwn cfg q target (some port) = if_both (IsOwnTest q.password cfg) q.direct _ _ tt (
    if_both (IsOwnTest q.password cfg) (is_empty q.ip || eqb_ℤ q.port (pos 0)) _ _ tt
      (tested_proxy-IsOwn cfg q))

-- Whatever the Supervisor answers and whatever is asked for, a check goes out with the stored proxy
-- password only through the address and the port that it is stored for; otherwise with none, or with
-- the password of the request.
pub checks-IsOwn :
    (available : Bool) (host : Option Proxy) (split_host_port : Text → Option (Text × Text))
    (cfg : Config) (q : ProxyTest)
    → IsOwn [] cfg (probe_path available host cfg).0
      × IsOwnTest q.password cfg (api_proxy_test split_host_port cfg q)
unfolding api_proxy_test
checks-IsOwn available host split_host_port cfg q = (
  probe_path-IsOwn available host cfg,
  test_through-IsOwn cfg q (test_target cfg q.target)
      (split_addr split_host_port (test_target cfg q.target)),
)
