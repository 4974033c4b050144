-- ===== src/Watchdog/Stages.antt =====
-- Every stage of a pass before the call of the Supervisor keeps what is steady.
use nf_sdk.Base.{
  ℕ, ℤ, ◌≡◌, refl, Bool, true, false, Option, none, some, List, Text, inl, inr, Bool-cases, arith,
}
use nf_sdk.Store.Config.{Mode, off, static, fallback, dynamic, unknown, ProxyConfig, Config}
use nf_sdk.Store.State.{
  State, Reason, Intent, FallbackOutcome, undecided, confirmed, cleared, record_change,
}
use nf_sdk.Supervisor.Proxy.{Proxy}
use nf_sdk.Supervisor.Api.{Api, Reply, answer, failure}
use nf_sdk.Watchdog.World.{
  World, next, Deps, Event, Candidate, ProbeResult, finish, gets, ◌>>=◌, update, note, get_proxy,
}
use nf_sdk.Watchdog.Desired.{
  probe_target, give_up_or_wait, judge_proxy, desired_fallback, count_probe, after_failure,
  desired_dynamic, desired_by, desired,
}
use nf_sdk.Watchdog.Reconcile.{
  lift_breaker, start_boot, handle_new_boot, check_breaker, known, read_host, no_op_guard,
  dwell_guard, flap_guard, require_available, settle, recover, recover_pending, has_landed,
}
use nf_sdk.Watchdog.Triple.{IsFrame, IsSteady, Keeps, On, keeps_rules, Keeps-update}

module _ {H : Type 0} {I : State → List Event → Type 0} (steady : IsSteady I) (deps : Deps H) where
  -- A field that no rule of a proxy change reads.
  Keeps-set_fallback :
      (o : FallbackOutcome) → Keeps I (update deps (λ s. record s { fallback_outcome = o }))
  Keeps-set_fallback o =
      Keeps-update steady deps _
        (record { pending = λ s. refl; last_change_at = λ s. refl; changes = λ s. inl refl })

  Keeps-set_probe : (b : Bool) → Keeps I (update deps (λ s. record s { last_probe_ok = b }))
  Keeps-set_probe b =
      Keeps-update steady deps _
        (record { pending = λ s. refl; last_change_at = λ s. refl; changes = λ s. inl refl })

  Keeps-count_probe : (b : Bool) → Keeps I (update deps (count_probe deps b))
  unfolding count_probe
  Keeps-count_probe true =
      Keeps-update steady deps _
        (record { pending = λ s. refl; last_change_at = λ s. refl; changes = λ s. inl refl })
  Keeps-count_probe false =
      Keeps-update steady deps _
        (record { pending = λ s. refl; last_change_at = λ s. refl; changes = λ s. inl refl })

  ruleset desired_rules = (keeps_rules, Keeps-set_fallback, Keeps-set_probe, Keeps-count_probe)

  Keeps-probe_target :
      (p : Option Candidate) (addr : Text) (b : Bool) → Keeps I (probe_target deps p addr b)
  unfolding probe_target
  Keeps-probe_target p addr b = search keeps_rules

  Keeps-after_failure :
      (cfg : Config) (actual : Proxy) (n : ℕ) (t : Text)
      → Keeps I (after_failure deps cfg actual n t)
  unfolding after_failure
  Keeps-after_failure cfg actual n t = search (desired_rules, Keeps-probe_target)

  Keeps-desired_dynamic :
      (cfg : Config) (actual : Proxy) → Keeps I (desired_dynamic deps cfg actual)
  unfolding desired_dynamic
  Keeps-desired_dynamic cfg actual =
      search (desired_rules, Keeps-probe_target, Keeps-after_failure) depth 12

  Keeps-give_up_or_wait :
      (cfg : Config) (res : ProbeResult) (up : Option ℤ) → Keeps I (give_up_or_wait deps cfg res up)
  unfolding give_up_or_wait
  Keeps-give_up_or_wait cfg res none = search keeps_rules
  Keeps-give_up_or_wait cfg res (some up) = search desired_rules

  Keeps-judge_proxy : (cfg : Config) → Keeps I (judge_proxy deps cfg)
  unfolding judge_proxy
  Keeps-judge_proxy cfg = search (desired_rules, Keeps-probe_target, Keeps-give_up_or_wait) depth 12

  Keeps-desired_fallback :
      (cfg : Config) (o : FallbackOutcome) (actual : Proxy)
      → Keeps I (desired_fallback deps cfg o actual)
  unfolding desired_fallback
  Keeps-desired_fallback cfg undecided actual = search (keeps_rules, Keeps-judge_proxy)
  Keeps-desired_fallback cfg confirmed actual = search keeps_rules
  Keeps-desired_fallback cfg cleared actual = search keeps_rules

  Keeps-desired_by :
      (m : Mode) (cfg : Config) (st : State) (actual : Proxy)
      → Keeps I (desired_by deps m cfg st actual)
  unfolding desired_by
  Keeps-desired_by off cfg st actual = search keeps_rules
  Keeps-desired_by static cfg st actual = search keeps_rules
  Keeps-desired_by fallback cfg st actual = Keeps-desired_fallback cfg st.fallback_outcome actual
  Keeps-desired_by dynamic cfg st actual = Keeps-desired_dynamic cfg actual
  Keeps-desired_by (unknown m) cfg st actual = search keeps_rules

  pub Keeps-desired :
      (cfg : Config) (st : State) (actual : Proxy) → Keeps I (desired deps cfg st actual)
  unfolding desired
  Keeps-desired cfg st actual = Keeps-desired_by cfg.proxy.mode cfg st actual

module _ {H : Type 0} {I : State → List Event → Type 0} (steady : IsSteady I) (api : Api H)
    (deps : Deps H) where
  IsFrame-start_boot : (id : Text) → IsFrame (start_boot id)
  unfolding start_boot
  IsFrame-start_boot id = record {
    pending = λ s. refl;
    last_change_at = λ s. refl;
    changes = λ s. inl refl;
  }

  IsFrame-lift_breaker : IsFrame lift_breaker
  unfolding lift_breaker
  IsFrame-lift_breaker = record {
    pending = λ s. refl;
    last_change_at = λ s. refl;
    changes = λ s. inr refl;
  }

  pub Keeps-handle_new_boot : Keeps I (handle_new_boot api deps)
  unfolding handle_new_boot
  Keeps-handle_new_boot = search (keeps_rules, IsFrame-start_boot) depth 12

  pub Keeps-check_breaker : (now : ℕ) → Keeps I (check_breaker api deps now)
  unfolding check_breaker
  Keeps-check_breaker now = search (keeps_rules, IsFrame-lift_breaker) depth 12

  Keeps-known : (r : Reply Proxy) → Keeps I (known api deps r)
  unfolding known
  Keeps-known (answer actual) = search keeps_rules
  Keeps-known (failure e) = search keeps_rules

  pub Keeps-read_host : Keeps I (read_host api deps)
  unfolding read_host
  Keeps-read_host = search (keeps_rules, Keeps-known)

  IsFrame-adopt : (print : Text) → IsFrame (λ s. record s { applied = print })
  IsFrame-adopt print = record {
    pending = λ s. refl;
    last_change_at = λ s. refl;
    changes = λ s. inl refl;
  }

  pub Keeps-no_op_guard :
      (st : State) (actual want : Proxy) (wish : ProxyConfig) (print : Text) (reason : Reason)
      → Keeps I (no_op_guard api deps st actual want wish print reason)
  unfolding no_op_guard
  Keeps-no_op_guard st actual want wish print reason = search (keeps_rules, IsFrame-adopt) depth 14

  pub Keeps-dwell_guard :
      (cfg : Config) (st : State) (now : ℕ) (reason : Reason)
      → Keeps I (dwell_guard api deps cfg st now reason)
  unfolding dwell_guard
  Keeps-dwell_guard cfg st now reason = search keeps_rules

  IsFrame-freeze :
      (why : Reason) (now : ℕ)
      → IsFrame (λ s. record s { frozen = true; freeze_reason = why; frozen_at = now })
  IsFrame-freeze why now = record {
    pending = λ s. refl;
    last_change_at = λ s. refl;
    changes = λ s. inl refl;
  }

  pub Keeps-flap_guard : (cfg : Config) (now : ℕ) → Keeps I (flap_guard api deps cfg now)
  unfolding flap_guard
  Keeps-flap_guard cfg now = search (keeps_rules, IsFrame-freeze) depth 12

  pub Keeps-require_available : Keeps I (require_available api deps)
  unfolding require_available
  Keeps-require_available = search keeps_rules

  Keeps-settle :
      (i : Intent) (r : Reply Proxy) (w : World H)
      → w.state.pending ≡ some i
      → On I w
      → On I (settle api deps i r w).1
  unfolding settle update note ◌>>=◌ finish
  Keeps-settle i (failure e) w p h = h
  Keeps-settle i (answer actual) w p h = elim (Bool-cases (has_landed i actual)) [
    | inl yes_ ↦ rw yes_ (
        steady.noted _ _ _ _ (
          steady.settled i (record_change i.at i.fingerprint)
            (record { pending = λ s. refl; last_change_at = λ s. refl; changes = λ s. inl refl }) _
            w.state w.trace p h))
    | inr no_ ↦ rw no_ (
        steady.noted _ _ _ _ (
          steady.settled i (λ s. record s { pending = none; last_change_at = i.at })
            (record { pending = λ s. refl; last_change_at = λ s. refl; changes = λ s. inr refl }) _
            w.state w.trace p h))
  ]

  Keeps-recover :
      (o : Option Intent) (w : World H)
      → w.state.pending ≡ o
      → On I w
      → On I (recover api deps o w).1
  unfolding recover ◌>>=◌ get_proxy
  Keeps-recover none w p h = h
  Keeps-recover (some i) w p h = Keeps-settle i (api.get_proxy w.host).0 _ p h

  pub Keeps-recover_pending : Keeps I (recover_pending api deps)
  unfolding recover_pending ◌>>=◌ gets
  Keeps-recover_pending = record { at = λ w h. Keeps-recover w.state.pending w refl h }

-- A pass that goes on after recovery has no intent left.
pub recover_pending_settled :
    {H : Type 0} (api : Api H) (deps : Deps H) (w : World H)
    → (recover_pending api deps w).0 ≡ next tt
    → (recover_pending api deps w).1.state.pending ≡ none
unfolding recover_pending recover settle ◌>>=◌ get_proxy update note
recover_pending_settled api deps w e = ground arith
