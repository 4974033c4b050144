-- ===== src/Watchdog/Quiet.antt =====
-- Where `reconcile` does nothing, before `ReconcileOnce` writes when it ran: the no-op guard and the
-- breaker.
use nf_sdk.Base.{ℕ, ◌≡◌, ◌∙◌, true, false, none, text_eq_iff}
use nf_sdk.Store.Config.{Config, ProxyConfig, static}
use nf_sdk.Store.State.{State, Reason, nothing, freeze, mode_static}
use nf_sdk.Supervisor.Proxy.{Proxy, same_as}
use nf_sdk.Supervisor.Api.{Api, answer}
use nf_sdk.Watchdog.World.{World, Deps, done, ◌>>=◌, get_proxy}
use nf_sdk.Watchdog.Desired.{to_supervisor_proxy, fingerprint, desired}
use nf_sdk.Watchdog.Reconcile.{
  stop, require_available, handle_new_boot, check_breaker, recover_pending, recover, read_host,
  no_op_guard, freeze_expired, act, decide, reconcile_with, reconcile,
}

module _ {H : Type 0} (api : Api H) (deps : Deps H) where
  -- Where the host matches what is wanted and that was the last thing applied, the rest of a pass
  -- does nothing at all, whatever the mode, the dwell and the breaker.
  pub act_quiet :
      (cfg : Config) (now : ℕ) (st : State) (actual : Proxy) (wish : ProxyConfig) (reason : Reason)
      (w : World H)
      → same_as actual (to_supervisor_proxy wish) ≡ true
      → w.state.applied ≡ fingerprint deps.sha256_hex wish
      → act api deps cfg now st actual (wish, reason) w ≡ (done (stop nothing reason), w)
  unfolding act no_op_guard ◌>>=◌
  act_quiet cfg now st actual wish reason w same known =
      rw (same, (text_eq_iff w.state.applied (fingerprint deps.sha256_hex wish)).1 known)

  -- Nothing to do before the host is read: no new boot, no breaker, no interrupted change.
  pub record IsIdle (w : World H) : Type 0 where
    pub up : api.available w.host ≡ true
    pub boot : w.state.boot_id ≡ deps.boot_id w.host
    pub thawed : w.state.frozen ≡ false
    pub settled : w.state.pending ≡ none

  pub idle_decides :
      (cfg : Config) (now : ℕ) (w : World H)
      → IsIdle w
      → reconcile_with api deps cfg now w ≡ decide api deps cfg now w
  unfolding reconcile_with require_available handle_new_boot check_breaker recover_pending recover
      ◌>>=◌
  idle_decides cfg now w i =
      rw (i.up, (text_eq_iff w.state.boot_id (deps.boot_id w.host)).1 i.boot, i.thawed, i.settled)

  -- With a static proxy that the host has and that was applied, `reconcile` only reads the host.
  pub static_quiet :
      (w : World H) (actual : Proxy) (h : H)
      → IsIdle w
      → w.config.proxy.mode ≡ static
      → api.get_proxy w.host ≡ (answer actual, h)
      → same_as actual (to_supervisor_proxy w.config.proxy) ≡ true
      → w.state.applied ≡ fingerprint deps.sha256_hex w.config.proxy
      → reconcile api deps w ≡ (done (stop nothing mode_static), record w { host = h })
  unfolding reconcile decide read_host get_proxy desired ◌>>=◌
  static_quiet w actual h i m g same known =
      idle_decides w.config (deps.now w.host) w i
      ∙ simp (g, m)
          (act_quiet w.config (deps.now w.host) w.state actual w.config.proxy mode_static
            (record w { host = h }) same known)

  -- While the breaker is set and has not run out, `reconcile` has no effect.
  pub frozen_quiet :
      (w : World H)
      → api.available w.host ≡ true
      → w.state.boot_id ≡ deps.boot_id w.host
      → w.state.frozen ≡ true
      → freeze_expired w.state (deps.now w.host) ≡ false
      → reconcile api deps w ≡ (done (stop freeze w.state.freeze_reason), w)
  unfolding reconcile reconcile_with require_available handle_new_boot check_breaker ◌>>=◌
  frozen_quiet w up boot set_ held =
      rw (up, (text_eq_iff w.state.boot_id (deps.boot_id w.host)).1 boot, held, set_)
