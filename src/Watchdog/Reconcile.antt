-- ===== src/Watchdog/Reconcile.antt =====
-- One pass: `reconcile`, `apply`, `recoverPending`, `handleNewBoot`, `ReconcileOnce` and `Unfreeze`
-- of balena/network-config/internal/watchdog/watchdog.go.
use nf_sdk.Base.{
  ℕ, pos, ltb_ℤ, leb_ℤ, ◌-ℤ◌, sub_ℕ, ◌==◌, [], Bool, true, false, not, ◌&&◌, ◌||◌, Option, none,
  some, Text, text_eq, is_empty, if◌then◌else◌,
}
use nf_sdk.Store.Config.{ProxyConfig, Config}
use nf_sdk.Store.State.{
  State, Action, Reason, Intent, nothing, set, clear, deferred, freeze, adopt, blank, unavailable,
  could_not_read, recovering, waiting, flap_limit, intent_not_recorded, undecided, hour,
  record_change, changes_in_last_hour,
}
use nf_sdk.Supervisor.Proxy.{Proxy, enabled, same_as}
use nf_sdk.Supervisor.Api.{Api, Reply, answer, failure}
use nf_sdk.Watchdog.World.{
  Deps, World, Pass, Outcome, Exit, done, next, pure, finish, gets, ◌>>=◌, ◌>>◌, update, note,
  get_proxy, set_proxy, clear_proxy, reboot, info, warn, error, change, resumed, adopted,
  breaker_set, applying, change_failed, changed, rebooting, reboot_failed, recovered, not_landed,
  boot_detected, breaker_cleared,
}
use nf_sdk.Watchdog.Desired.{to_supervisor_proxy, fingerprint, minutes, desired}

-- `freezeExpiry`
abbrev pub freeze_expiry : ℕ
freeze_expiry = hour

abbrev is_set : Action → Bool
is_set set = true
is_set _ = false

abbrev is_clear : Action → Bool
is_clear clear = true
is_clear _ = false

-- `Unfreeze` and the expiry of the breaker
unfoldable pub lift_breaker : State → State
lift_breaker s = record s { frozen = false; freeze_reason = blank; changes = [] }

-- `now.Sub(st.FrozenAt) >= freezeExpiry`, for a time that is set
unfoldable pub freeze_expired : State → ℕ → Bool
freeze_expired st now =
    not (st.frozen_at == 0) && leb_ℤ (pos freeze_expiry) (sub_ℕ now st.frozen_at)

-- Whether the host already shows what an intent was about.
unfoldable pub has_landed : Intent → Proxy → Bool
has_landed i actual =
    (is_set i.action && enabled actual) || (is_clear i.action && not (enabled actual))

-- `!st.LastChangeAt.IsZero() && now.Sub(st.LastChangeAt) < dwell`
unfoldable pub within_dwell : Config → State → ℕ → Bool
within_dwell cfg st now =
    not (st.last_change_at == 0)
    && ltb_ℤ (sub_ℕ now st.last_change_at) (minutes cfg.watchdog.min_dwell_minutes)

abbrev pub stop : Action → Reason → Outcome
stop a r = record { action = a; reason = r; error = none }

abbrev pub fail : Action → Reason → Text → Outcome
fail a r e = record { action = a; reason = r; error = some e }

-- The state of a fresh boot.
unfoldable pub start_boot : Text → State → State
start_boot id s = record s { boot_id = id; fallback_outcome = undecided; passes = 0; failures = 0 }

unfoldable pub set_pending : Intent → State → State
set_pending i s = record s { pending = some i }

abbrev pub action_of : Proxy → Action
action_of want = if enabled want then set else clear

module _ {H : Type 0} (api : Api H) (deps : Deps H) where
  unfoldable pub handle_new_boot : Pass H (Unit {0})
  unfolding start_boot
  handle_new_boot = do
    id ← gets (λ w. deps.boot_id w.host)
    st ← gets (λ w. w.state)
    if text_eq st.boot_id id then pure tt else (do
      update deps (start_boot id)
      if is_empty st.boot_id then pure tt else note info (boot_detected id st.frozen))

  -- The block on `st.Frozen`.
  unfoldable pub check_breaker : ℕ → Pass H (Unit {0})
  check_breaker now = do
    st ← gets (λ w. w.state)
    if st.frozen
        then (if freeze_expired st now
            then (do update deps lift_breaker; note info (resumed (sub_ℕ now st.frozen_at)))
            else finish (stop freeze st.freeze_reason))
        else pure tt

  unfoldable pub settle : Intent → Reply Proxy → Pass H (Unit {0})
  unfolding has_landed record_change
  settle i (failure e) = finish (fail nothing recovering e)
  settle i (answer actual) =
      if has_landed i actual
      then (do update deps (record_change i.at i.fingerprint); note info (recovered i.action))
      else (do
        update deps (λ s. record s { pending = none; last_change_at = i.at })
        note warn (not_landed i.action i.at))

  unfoldable pub recover : Option Intent → Pass H (Unit {0})
  unfolding settle
  recover none = pure tt
  recover (some i) = do actual ← get_proxy api; settle i actual

  -- The block on `st.Pending` with `recoverPending`.
  unfoldable pub recover_pending : Pass H (Unit {0})
  unfolding recover
  recover_pending = do st ← gets (λ w. w.state); recover st.pending

  unfoldable pub known : Reply Proxy → Pass H Proxy
  known (answer actual) = pure actual
  known (failure e) = finish (fail nothing could_not_read e)

  unfoldable pub read_host : Pass H Proxy
  unfolding known
  read_host = do actual ← get_proxy api; known actual

  -- The block on `actual.SameAs(want)`, from which the state is read afresh.
  unfoldable pub no_op_guard : State → Proxy → Proxy → ProxyConfig → Text → Reason → Pass H State
  no_op_guard st actual want wish print reason =
      if same_as actual want
      then (do
        fresh ← gets (λ w. w.state)
        if text_eq fresh.applied print
            then finish (stop nothing reason)
            else (if is_empty wish.password
                then (do
                  update deps (λ s. record s { applied = print })
                  note info (adopted reason)
                  finish (stop adopt reason))
                else pure fresh))
      else pure st

  unfoldable pub dwell_guard : Config → State → ℕ → Reason → Pass H (Unit {0})
  dwell_guard cfg st now reason =
      let elapsed = sub_ℕ now st.last_change_at in
      if within_dwell cfg st now
      then finish (
          stop deferred
            (waiting reason elapsed (minutes cfg.watchdog.min_dwell_minutes -ℤ elapsed)))
      else pure tt

  unfoldable pub flap_guard : Config → ℕ → Pass H (Unit {0})
  flap_guard cfg now = do
    n ← gets (λ w. changes_in_last_hour w.state now)
    let limit = cfg.watchdog.max_changes_per_hour
    let why = flap_limit n limit
    if leb_ℤ limit (pos n)
        then (do
          update deps (λ s. record s { frozen = true; freeze_reason = why; frozen_at = now })
          note error (breaker_set why)
          finish (stop freeze why))
        else pure tt

  unfoldable pub call_supervisor : Config → Proxy → ℕ → Pass H (Option Text)
  call_supervisor cfg want now =
      if enabled want
      then set_proxy api now want cfg.watchdog.force
      else clear_proxy api now cfg.watchdog.force

  unfoldable pub log_reboot : Option Text → Pass H (Unit {0})
  log_reboot none = pure tt
  log_reboot (some e) = note error (reboot_failed e)

  -- The end of `apply`, once the Supervisor has taken the change.
  unfoldable pub report : Config → Proxy → Action → Reason → Pass H Outcome
  report cfg want action reason = do
    note change (changed action reason)
    if cfg.watchdog.auto_reboot && enabled want
        then (do note change rebooting; failed ← reboot api cfg.watchdog.force; log_reboot failed)
        else pure tt
    finish (stop action reason)

  unfoldable pub after_call :
      Config → Proxy → Action → Text → Reason → ℕ → Option Text → Pass H Outcome
  after_call cfg want action print reason now (some e) = do
    note error (change_failed e)
    finish (fail action reason e)
  after_call cfg want action print reason now none = do
    update deps (record_change now print)
    report cfg want action reason

  unfoldable pub attempt :
      Config → Proxy → Action → Text → Reason → ℕ → Option Text → Pass H Outcome
  attempt cfg want action print reason now (some e) = finish (fail nothing intent_not_recorded e)
  attempt cfg want action print reason now none = do
    note change (applying action reason)
    failed ← call_supervisor cfg want now
    after_call cfg want action print reason now failed

  -- `apply`: the intent is written first.
  unfoldable pub apply : Config → Proxy → Text → Reason → ℕ → Pass H Outcome
  unfolding set_pending
  apply cfg want print reason now = do
    let action = action_of want
    unsaved ← update deps (set_pending (record { action = action; fingerprint = print; at = now }))
    attempt cfg want action print reason now unsaved

  unfoldable pub require_available : Pass H (Unit {0})
  require_available = do
    up ← gets (λ w. api.available w.host)
    if up then pure tt else finish (stop nothing unavailable)

  -- The end of `reconcile`, from the no-op guard on.
  unfoldable pub act : Config → ℕ → State → Proxy → ProxyConfig × Reason → Pass H Outcome
  act cfg now st actual (wish, reason) =
      let want = to_supervisor_proxy wish in
      let print = fingerprint deps.sha256_hex wish in
      (do
        latest ← no_op_guard st actual want wish print reason
        dwell_guard cfg latest now reason
        flap_guard cfg now
        apply cfg want print reason now)

  -- What follows the recovery of an interrupted change.
  unfoldable pub decide : Config → ℕ → Pass H Outcome
  decide cfg now = do
    st ← gets (λ w. w.state)
    actual ← read_host
    wanted ← desired deps cfg st actual
    act cfg now st actual wanted

  unfoldable pub reconcile_with : Config → ℕ → Pass H Outcome
  reconcile_with cfg now = do
    require_available
    handle_new_boot
    check_breaker now
    recover_pending
    decide cfg now

  unfoldable pub reconcile : Pass H Outcome
  reconcile w = reconcile_with w.config (deps.now w.host) w

  abbrev outcome : Exit Outcome → Outcome
  outcome (done o) = o
  outcome (next o) = o

  unfoldable pub after_pass : Outcome → World H → World H
  after_pass out w =
      (update deps (λ s. record s { last_run_at = deps.now w.host; last_error = out.error }) w).1

  -- `ReconcileOnce`
  unfoldable pub reconcile_once : World H → Outcome × World H
  unfolding after_pass
  reconcile_once w = let (r, w') = reconcile w in let out = outcome r in (out, after_pass out w')

  unfoldable pub unfrozen : Exit (Option Text) × World H → Option Text × World H
  unfrozen (done o, w) = (none, w)
  unfrozen (next none, w) = (none, (note info breaker_cleared w).1)
  unfrozen (next (some e), w) = (some e, w)

  -- `Unfreeze`
  unfoldable pub unfreeze : World H → Option Text × World H
  unfreeze w = unfrozen (update deps lift_breaker w)
