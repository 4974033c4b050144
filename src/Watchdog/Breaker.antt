-- ===== src/Watchdog/Breaker.antt =====
-- What survives a restart of the host, and what only an operator's release forgets: `handleNewBoot`
-- and `Unfreeze` of balena/network-config/internal/watchdog/watchdog.go.
use nf_sdk.Base.{
  ◌≡◌, refl, ap, false, Option, none, some, [], Text, text_eq, is_empty, Bool-cases, inl, inr,
}
use nf_sdk.Store.State.{State, undecided}
use nf_sdk.Supervisor.Api.{Api}
use nf_sdk.Watchdog.World.{World, Deps, Exit, done, next, ◌>>=◌, pure, gets, update, note, emit}
use nf_sdk.Watchdog.Reconcile.{handle_new_boot, start_boot, unfreeze, unfrozen, lift_breaker}

-- What the guards on a change read.
pub record SameGuards (s t : State) : Type 0 where
  pub changes : s.changes ≡ t.changes
  pub last_change_at : s.last_change_at ≡ t.last_change_at
  pub frozen : s.frozen ≡ t.frozen
  pub frozen_at : s.frozen_at ≡ t.frozen_at
  pub pending : s.pending ≡ t.pending
  pub applied : s.applied ≡ t.applied

start_boot-SameGuards : (id : Text) (s : State) → SameGuards (start_boot id s) s
unfolding start_boot
start_boot-SameGuards id s = record {
  changes = refl;
  last_change_at = refl;
  frozen = refl;
  frozen_at = refl;
  pending = refl;
  applied = refl;
}

module _ {H : Type 0} (api : Api H) (deps : Deps H) where
  -- A reboot starts the verdict and the counters afresh, and leaves all that the guards read.
  pub handle_new_boot-SameGuards :
      (w : World H)
      → text_eq w.state.boot_id (deps.boot_id w.host) ≡ false
      → SameGuards (handle_new_boot api deps w).1.state w.state
        × ((handle_new_boot api deps w).1.state.fallback_outcome ≡ undecided)
        × ((handle_new_boot api deps w).1.state.passes ≡ 0)
        × ((handle_new_boot api deps w).1.state.failures ≡ 0)
        × ((handle_new_boot api deps w).1.state.boot_id ≡ deps.boot_id w.host)
  unfolding handle_new_boot start_boot ◌>>=◌ update note emit pure gets
  handle_new_boot-SameGuards w new = rw new (elim (Bool-cases (is_empty w.state.boot_id)) [
    | inl first ↦
        rw first (start_boot-SameGuards (deps.boot_id w.host) w.state, refl, refl, refl, refl)
    | inr again ↦
        rw again (start_boot-SameGuards (deps.boot_id w.host) w.state, refl, refl, refl, refl)
  ])

  unfrozen-state :
      (r : Exit (Option Text)) (w : World H) → (unfrozen api deps (r, w)).1.state ≡ w.state
  unfolding unfrozen note emit
  unfrozen-state (done o) w = refl
  unfrozen-state (next none) w = refl
  unfrozen-state (next (some e)) w = refl

  unfreeze-state : (w : World H) → (unfreeze api deps w).1.state ≡ lift_breaker w.state
  unfolding unfreeze update
  unfreeze-state w = unfrozen-state (update deps lift_breaker w).0 (update deps lift_breaker w).1

  -- After an operator's release the breaker is open and has nothing to count, and nothing else that
  -- the guards read has changed: the dwell still holds, and an interrupted change is still settled.
  pub unfreeze-opens :
      (w : World H)
      → ((unfreeze api deps w).1.state.frozen ≡ false)
        × ((unfreeze api deps w).1.state.changes ≡ [])
        × ((unfreeze api deps w).1.state.last_change_at ≡ w.state.last_change_at)
        × ((unfreeze api deps w).1.state.pending ≡ w.state.pending)
        × ((unfreeze api deps w).1.state.applied ≡ w.state.applied)
  unfolding lift_breaker
  unfreeze-opens w =
      let e = unfreeze-state w in
      (
        ap (λ s. s.frozen) e,
        ap (λ s. s.changes) e,
        ap (λ s. s.last_change_at) e,
        ap (λ s. s.pending) e,
        ap (λ s. s.applied) e,
      )
