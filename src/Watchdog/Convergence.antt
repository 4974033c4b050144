-- ===== src/Watchdog/Convergence.antt =====
-- A static proxy gets to a host that does what the Supervisor is told.
use nf_sdk.Base.{pos, leb_ℤ, ◌≡◌, refl, true, false, Bool, none, List, ◌∷◌, Text}
use nf_sdk.Store.Config.{static}
use nf_sdk.Store.State.{
  State, set, nothing, mode_static, Intent, record_change, changes_in_last_hour,
}
use nf_sdk.Supervisor.Proxy.{Proxy, same_as, enabled, normalized, validate}
use nf_sdk.Supervisor.Api.{Api, answer}
use nf_sdk.Watchdog.World.{
  World, Deps, Event, Outcome, noted, saved, set_called, change, changed, applying, done, get_proxy,
  set_proxy, update,
}
use nf_sdk.Watchdog.Desired.{to_supervisor_proxy, fingerprint}
use nf_sdk.Watchdog.Quiet.{IsIdle}
use nf_sdk.Watchdog.Reconcile.{stop, set_pending, within_dwell, reconcile, after_pass}

module _ {H : Type 0} (api : Api H) (deps : Deps H) where
  -- The host takes a proxy that passes the client's check, shows what it was told to use, without the
  -- password, and nothing else changes it. Nothing is asked of a proxy that the check refuses.
  pub record IsHonest : Type 0 where
    pub shown : H → Proxy
    pub up : (h : H) → api.available h ≡ true
    pub reads : (h : H) → api.get_proxy h ≡ (answer (shown h), h)
    pub saves : (s : State) (h : H) → deps.save s h ≡ (none, h)
    pub accepts :
        (p : Proxy) (force : Bool) (h : H) → validate p ≡ none → (api.set_proxy p force h).0 ≡ none
    pub uses :
        (p : Proxy) (force : Bool) (h : H)
        → validate p ≡ none
        → (secret : Text) × (shown (api.set_proxy p force h).1
            ≡ record (normalized p) { password = secret })
    pub same_boot :
        (p : Proxy) (force : Bool) (h : H)
        → deps.boot_id (api.set_proxy p force h).1 ≡ deps.boot_id h

  -- Nothing holds back a change of the configured static proxy.
  pub record IsDue (honest : IsHonest) (w : World H) : Type 0 where
    pub idle : IsIdle api deps w
    pub mode : w.config.proxy.mode ≡ static
    pub complete : enabled (to_supervisor_proxy w.config.proxy) ≡ true
    pub valid : validate (to_supervisor_proxy w.config.proxy) ≡ none
    pub differs : same_as (honest.shown w.host) (to_supervisor_proxy w.config.proxy) ≡ false
    pub dwelt : within_dwell w.config w.state (deps.now w.host) ≡ false
    pub calm :
        leb_ℤ w.config.watchdog.max_changes_per_hour
          (pos (changes_in_last_hour w.state (deps.now w.host)))
        ≡ false
    pub no_reboot : w.config.watchdog.auto_reboot ≡ false

  abbrev wanted : World H → Proxy
  wanted w = to_supervisor_proxy w.config.proxy

  abbrev print_of : World H → Text
  print_of w = fingerprint deps.sha256_hex w.config.proxy

  abbrev told : World H → H
  told w = (api.set_proxy (wanted w) w.config.watchdog.force w.host).1

  abbrev intent_of : World H → Intent
  intent_of w = record { action = set; fingerprint = print_of w; at = deps.now w.host }

  abbrev set_state : World H → State
  set_state w = record_change (deps.now w.host) (print_of w) (set_pending (intent_of w) w.state)

  -- What a pass that sets the proxy leaves in the trace, newest first.
  abbrev set_trace : World H → List Event
  set_trace w =
      noted change (changed set mode_static)
      ∷ saved true (set_state w)
      ∷ set_called (deps.now w.host) (wanted w)
      ∷ noted change (applying set mode_static)
      ∷ saved true (set_pending (intent_of w) w.state)
      ∷ w.trace

  abbrev after_set : World H → World H
  after_set w = record w { host = told w; state = set_state w; trace = set_trace w }

  abbrev finished : World H → World H
  finished w = after_pass api deps (stop set mode_static) (after_set w)

  finished-config : (w : World H) → (finished w).config ≡ w.config
  unfolding after_pass update
  finished-config w = refl

  -- The pass set the proxy, the host has it, and the next pass finds nothing to do.
  abbrev pub HasConverged : (H → Proxy) → World H → Outcome × World H → Type 0
  HasConverged shown w (o, w') =
      (o ≡ stop set mode_static)
      × (same_as (shown w'.host) (wanted w) ≡ true)
      × (reconcile api deps w' ≡ (done (stop nothing mode_static), w'))
