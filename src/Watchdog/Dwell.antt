-- ===== src/Watchdog/Dwell.antt =====
-- Every pass keeps the passes that call the Supervisor apart by the dwell.
use nf_sdk.Base.{
  ℕ, pos, ◌+◌, ◌≤◌, ◌<◌, ◌≡◌, refl, false, Option, none, some, List, arith, Text, ◌⊎◌, ◌∙◌,
}
use nf_sdk.Store.Config.{Config, ProxyConfig}
use nf_sdk.Store.State.{State, Reason}
use nf_sdk.Supervisor.Proxy.{Proxy}
use nf_sdk.Supervisor.Api.{Api}
use nf_sdk.Watchdog.World.{World, Deps, next, Event, update, note, finish, pure, gets, ◌>>=◌, ◌>>◌}
use nf_sdk.Watchdog.Desired.{minutes, desired, to_supervisor_proxy, fingerprint}
use nf_sdk.Watchdog.Reconcile.{
  no_op_guard, act, decide, reconcile_with, reconcile, after_pass, reconcile_once,
  require_available, handle_new_boot, check_breaker, recover_pending, read_host, apply, dwell_guard,
  flap_guard, within_dwell,
}
use nf_sdk.Watchdog.Triple.{IsSteady, On, bind_post}
use nf_sdk.Watchdog.Stages.{
  Keeps-desired, Keeps-handle_new_boot, Keeps-check_breaker, Keeps-read_host, Keeps-no_op_guard,
  Keeps-dwell_guard, Keeps-flap_guard, Keeps-require_available, Keeps-recover_pending,
  recover_pending_settled,
}
use nf_sdk.Watchdog.Spacing.{last_call, Spaced, Known, Inv, Inv-IsSteady, saved-Inv}
use nf_sdk.Watchdog.Calling.{Clear, Clear-IsSteady, apply-Inv}

module _ (d : ℕ) (first : State) where
  -- No intent is open, and the last change is the one that is at hand.
  pub record Calm (n : ℕ) (s : State) (es : List Event) : Type 0 where
    pub inv : Inv d first s es
    pub pending : s.pending ≡ none
    pub last_change_at : s.last_change_at ≡ n

  pub Calm-IsSteady : (n : ℕ) → IsSteady (Calm n)
  Calm-IsSteady n = record {
    noted = λ l k s es h. record {
      inv = (Inv-IsSteady d first).noted l k s es h.inv;
      pending = h.pending;
      last_change_at = h.last_change_at;
    };
    framed = λ fn f b s es h. record {
      inv = (Inv-IsSteady d first).framed fn f b s es h.inv;
      pending = f.pending s ∙ h.pending;
      last_change_at = f.last_change_at s ∙ h.last_change_at;
    };
    settled = λ i fn f b s es p h. cc (p, h.pending);
  }

  known-Spaced :
      (o : Option ℕ) (last now : ℕ)
      → Known o last
      → (last ≡ 0) ⊎ (last + d ≤ now)
      → Spaced d o now × Known o now
  known-Spaced none last now k h = (tt, tt)
  known-Spaced (some t) last now k h = ground arith

  -- The test of the dwell, read in natural numbers.
  dwell_over :
      (cfg : Config) (st : State) (now : ℕ)
      → minutes cfg.watchdog.min_dwell_minutes ≡ pos d
      → within_dwell cfg st now ≡ false
      → (st.last_change_at ≡ 0) ⊎ (st.last_change_at + d ≤ now)
  unfolding within_dwell
  dwell_over cfg st now e h = ground arith

  Calm-Clear :
      (n now : ℕ) (s : State) (es : List Event)
      → (n ≡ 0) ⊎ (n + d ≤ now)
      → Calm n s es
      → Clear d first now s es
  Calm-Clear n now s es h c =
      let r : Known (last_call es) n = rw (c.pending, c.last_change_at) at c.inv.remembers in
      let both = known-Spaced (last_call es) n now r h in
      record { inv = c.inv; spaced = both.0; known = both.1 }

  module _ {H : Type 0} (api : Api H) (deps : Deps H) where
    dwell_guard_passed :
        (cfg : Config) (st : State) (now : ℕ) (reason : Reason) (w : World H)
        → (dwell_guard api deps cfg st now reason w).0 ≡ next tt
        → (within_dwell cfg st now ≡ false) × ((dwell_guard api deps cfg st now reason w).1 ≡ w)
    unfolding dwell_guard finish pure
    dwell_guard_passed cfg st now reason w e = ground arith

    no_op_guard_state :
        (st : State) (actual want : Proxy) (wish : ProxyConfig) (print : Text) (reason : Reason)
        (w : World H) (latest : State)
        → (no_op_guard api deps st actual want wish print reason w).0 ≡ next latest
        → (latest ≡ st) ⊎ (latest ≡ w.state)
    unfolding no_op_guard ◌>>=◌ update note
    no_op_guard_state st actual want wish print reason w latest e = ground arith

    -- `latest` is the state that the dwell is judged by.
    guarded-Inv :
        (cfg : Config) (want : Proxy) (print : Text) (reason : Reason) (now n : ℕ) (latest : State)
        (w : World H)
        → minutes cfg.watchdog.min_dwell_minutes ≡ pos d
        → 0 < now
        → latest.last_change_at ≡ n
        → On (Calm n) w
        → On
            (Inv d first)
            ((do
              dwell_guard api deps cfg latest now reason
              flap_guard api deps cfg now
              apply api deps cfg want print reason now)
              w).1
    guarded-Inv cfg want print reason now n latest w dwell p e h =
        bind_post (On (Inv d first)) (dwell_guard api deps cfg latest now reason) _ w
          (λ o _. ((Keeps-dwell_guard (Calm-IsSteady n) api deps cfg latest now reason).at w h).inv)
          (λ _ passed.
            let over = dwell_guard_passed cfg latest now reason w passed in
            let clear_now : On (Clear d first now) w =
              Calm-Clear n now w.state w.trace (rw e at (dwell_over cfg latest now dwell over.0))
                h in
            rw over.1 (
              bind_post (On (Inv d first)) (flap_guard api deps cfg now) _ w
                (λ o _.
                  ((Keeps-flap_guard (Clear-IsSteady d first now) api deps cfg now).at w
                    clear_now).inv)
                (λ _ _. apply-Inv d first api deps cfg want print reason now _ p (
                  (Keeps-flap_guard (Clear-IsSteady d first now) api deps cfg now).at w
                    clear_now))))

    act-Inv :
        (cfg : Config) (now n : ℕ) (st : State) (actual : Proxy) (wanted : ProxyConfig × Reason)
        (w : World H)
        → minutes cfg.watchdog.min_dwell_minutes ≡ pos d
        → 0 < now
        → st.last_change_at ≡ n
        → On (Calm n) w
        → On (Inv d first) (act api deps cfg now st actual wanted w).1
    unfolding act
    act-Inv cfg now n st actual (wish, reason) w dwell p e h =
        let want = to_supervisor_proxy wish in
        let print = fingerprint deps.sha256_hex wish in
        let kept =
          (Keeps-no_op_guard (Calm-IsSteady n) api deps st actual want wish print reason).at w h in
        bind_post (On (Inv d first)) (no_op_guard api deps st actual want wish print reason) _ w
          (λ o _. kept.inv)
          (λ latest went.
            guarded-Inv cfg want print reason now n latest _ dwell p
              (ground (
                arith,
                no_op_guard_state st actual want wish print reason w latest went,
                h.last_change_at,
              ))
              kept)

    decide-Inv :
        (cfg : Config) (now : ℕ) (w : World H)
        → minutes cfg.watchdog.min_dwell_minutes ≡ pos d
        → 0 < now
        → w.state.pending ≡ none
        → On (Inv d first) w
        → On (Inv d first) (decide api deps cfg now w).1
    unfolding decide gets
    decide-Inv cfg now w dwell p settled h =
        let n = w.state.last_change_at in
        let calm : On (Calm n) w = record { inv = h; pending = settled; last_change_at = refl } in
        let read = (Keeps-read_host (Calm-IsSteady n) api deps).at w calm in
        bind_post (On (Inv d first)) (gets (λ v. v.state)) _ w (λ o _. h)
          (λ st same.
            bind_post (On (Inv d first)) (read_host api deps) _ w (λ o _. read.inv)
              (λ actual _.
                let v = (read_host api deps w).1 in
                let wished = (Keeps-desired (Calm-IsSteady n) deps cfg st actual).at v read in
                bind_post (On (Inv d first)) (desired deps cfg st actual) _ v (λ o _. wished.inv)
                  (λ wanted _. act-Inv cfg now n st actual wanted _ dwell p (ground arith) wished)))

    reconcile_with-Inv :
        (cfg : Config) (now : ℕ) (w : World H)
        → minutes cfg.watchdog.min_dwell_minutes ≡ pos d
        → 0 < now
        → On (Inv d first) w
        → On (Inv d first) (reconcile_with api deps cfg now w).1
    unfolding reconcile_with
    reconcile_with-Inv cfg now w dwell p h =
        let steady = Inv-IsSteady d first in
        let h1 = (Keeps-require_available steady api deps).at w h in
        bind_post (On (Inv d first)) (require_available api deps) _ w (λ o _. h1)
          (λ _ _.
            let w1 = (require_available api deps w).1 in
            let h2 = (Keeps-handle_new_boot steady api deps).at w1 h1 in
            bind_post (On (Inv d first)) (handle_new_boot api deps) _ w1 (λ o _. h2)
              (λ _ _.
                let w2 = (handle_new_boot api deps w1).1 in
                let h3 = (Keeps-check_breaker steady api deps now).at w2 h2 in
                bind_post (On (Inv d first)) (check_breaker api deps now) _ w2 (λ o _. h3)
                  (λ _ _.
                    let w3 = (check_breaker api deps now w2).1 in
                    let h4 = (Keeps-recover_pending steady api deps).at w3 h3 in
                    bind_post (On (Inv d first)) (recover_pending api deps) _ w3 (λ o _. h4)
                      (λ _ went.
                        decide-Inv cfg now _ dwell p (recover_pending_settled api deps w3 went)
                          h4))))

    -- A pass keeps the invariant, whatever the world answers.
    pub reconcile_once-Inv :
        (w : World H)
        → minutes w.config.watchdog.min_dwell_minutes ≡ pos d
        → 0 < deps.now w.host
        → On (Inv d first) w
        → On (Inv d first) (reconcile_once api deps w).1
    unfolding reconcile_once reconcile after_pass update
    reconcile_once-Inv w dwell p h =
        let kept = reconcile_with-Inv w.config (deps.now w.host) w dwell p h in
        saved-Inv d first _ _ _ _ kept.remembers kept
