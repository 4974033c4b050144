-- ===== src/Watchdog/Dynamic.antt =====
-- When the dynamic mode gives up a proxy that is in force: `desiredDynamic` of
-- balena/network-config/internal/watchdog/watchdog.go.
use nf_sdk.Base.{
  ℕ, pos, leb_ℤ, eqb_ℤ, ◌≡◌, refl, ◌⊎◌, inl, inr, Bool, true, false, none, Text, is_empty, if_both,
  Bool-cases, codes, ends_with, if◌then◌else◌,
}
use nf_sdk.Store.Config.{Config, ProxyConfig, no_proxy_config}
use nf_sdk.Store.State.{Reason, dynamic_direct_works, dynamic_both_down}
use nf_sdk.Supervisor.Proxy.{Proxy, enabled}
use nf_sdk.Watchdog.World.{
  Deps, World, Target, https, tcp, Exit, done, next, ◌>>=◌, pure, gets, probe, update,
}
use nf_sdk.Watchdog.Desired.{
  current_intent, probe_target, enough_passes, after_failure, desired_dynamic,
}

module _ {H : Type 0} (deps : Deps H) where
  -- The last thing that was done is a direct connection to the configured target, and it worked.
  abbrev pub DirectWorks : Config → H → Type 0
  DirectWorks cfg after =
      (t : Target) × (h : H) × (t.addr ≡ cfg.watchdog.probe_target)
      × ((deps.probe none t h).0.ok ≡ true)
      × ((deps.probe none t h).1 ≡ after)

  -- The pass goes on, and what is wanted is the configured proxy, or else the direct path was seen to work.
  abbrev pub Justified : Config → Exit (ProxyConfig × Reason) × World H → Type 0
  Justified cfg (done o, w) = ⊥
  Justified cfg (next (wish, reason), w) = (wish ≡ cfg.proxy) ⊎ DirectWorks cfg w.host

  kept_on :
      (cfg : Config) (actual : Proxy)
      → enabled actual ≡ true
      → current_intent cfg actual ≡ cfg.proxy
  unfolding current_intent
  kept_on cfg actual on = rw on

  direct-Justified :
      (cfg : Config) (b : Bool) (x y : ProxyConfig × Reason) (w : World H)
      → (b ≡ true → DirectWorks cfg w.host)
      → y.0 ≡ cfg.proxy
      → Justified cfg (next (if b then x else y), w)
  direct-Justified cfg true x y w works same = inr (works refl)
  direct-Justified cfg false x y w works same = inl same

  enough_passes-Justified :
      (cfg : Config) (actual : Proxy) (passes : ℕ) (summary : Text) (w : World H)
      → enabled actual ≡ true
      → Justified cfg (next (enough_passes deps cfg actual passes summary), w)
  unfolding enough_passes
  enough_passes-Justified cfg actual passes summary w on =
      if_both (λ p. Justified cfg (next p, w)) (leb_ℤ cfg.watchdog.required_passes (pos passes)) _ _
        (inl refl) (inl (kept_on cfg actual on))

  after_failure-Justified :
      (cfg : Config) (actual : Proxy) (failures : ℕ) (summary : Text) (w : World H)
      → enabled actual ≡ true
      → Justified cfg (after_failure deps cfg actual failures summary w)
  unfolding after_failure probe_target probe ◌>>=◌ pure
  after_failure-Justified cfg actual failures summary w on =
      let t : Target = record {
        addr = cfg.watchdog.probe_target;
        kind = if ends_with cfg.watchdog.probe_target (codes ":443") then https else tcp;
        ipv4_only = false;
      } in
      elim (Bool-cases (leb_ℤ cfg.watchdog.required_failures (pos failures))) [
        | inl enough ↦ rw enough (
            direct-Justified cfg (deps.probe none t w.host).0.ok
              (no_proxy_config cfg.proxy.mode, dynamic_direct_works failures summary)
              (current_intent cfg actual, dynamic_both_down failures summary)
              (record w { host = (deps.probe none t w.host).1 })
              (λ works. (t, w.host, refl, works, refl)) (kept_on cfg actual on))
        | inr few ↦ rw few (inl (kept_on cfg actual on))
      ]

  verdict-Justified :
      (cfg : Config) (actual : Proxy) (ok : Bool) (passes failures : ℕ) (summary : Text)
      (w : World H)
      → enabled actual ≡ true
      → Justified cfg (
          (if ok
              then pure (enough_passes deps cfg actual passes summary)
              else after_failure deps cfg actual failures summary)
            w)
  unfolding pure
  verdict-Justified cfg actual true passes failures summary w on =
      enough_passes-Justified cfg actual passes summary w on
  verdict-Justified cfg actual false passes failures summary w on =
      after_failure-Justified cfg actual failures summary w on

  -- With a proxy in force, whichever it is, and an address and a port configured, the dynamic mode
  -- does not end the pass, and wants the configured proxy unless the last thing it did was a direct
  -- connection to the target that worked. So a pass that is undecided wants the configured proxy also
  -- where the host has another one.
  pub desired_dynamic-Justified :
      (cfg : Config) (actual : Proxy) (w : World H)
      → enabled actual ≡ true
      → is_empty cfg.proxy.ip ≡ false
      → eqb_ℤ cfg.proxy.port (pos 0) ≡ false
      → Justified cfg (desired_dynamic deps cfg actual w)
  unfolding desired_dynamic probe_target probe update gets ◌>>=◌ pure
  desired_dynamic-Justified cfg actual w on named numbered =
      rw (named, numbered) (verdict-Justified cfg actual _ _ _ _ _ on)
