-- ===== src/Watchdog/Spending.antt =====
-- Opening an intent, calling the Supervisor and recording the change stay within the limit of an
-- hour.
use nf_sdk.Base.{
  ℕ, pos, ◌<◌, ◌≡◌, refl, ap, Bool, Option, none, some, is_none, List, [], ◌∷◌, ◌++◌, Text, inl,
  arith,
}
use nf_sdk.Store.Config.{Config}
use nf_sdk.Store.State.{
  State, Intent, Reason, Action, trim_changes, changes_in_last_hour, record_change,
}
use nf_sdk.Store.Changes.{trim_changes-antitone}
use nf_sdk.Supervisor.Proxy.{Proxy, enabled}
use nf_sdk.Supervisor.Api.{Api}
use nf_sdk.Watchdog.World.{
  World, Deps, next, Event, saved, set_called, clear_called, update, note, finish, gets, pure,
  ◌>>=◌, set_proxy, clear_proxy, reboot, Level, Note, change, error, reboot_failed, change_failed,
  applying,
}
use nf_sdk.Watchdog.Reconcile.{
  apply, attempt, after_call, call_supervisor, report, log_reboot, flap_guard, set_pending,
  action_of,
}
use nf_sdk.Watchdog.Triple.{
  On, Keeps, keeps_rules, Keeps-note, Keeps-bind, Keeps-if, Keeps-finish, bind-Keeps, bind_post,
}
use nf_sdk.Watchdog.Budget.{Fits, AllFit, Budget, Budget-IsSteady, settled-Fits}

-- An intent of this time is open.
record Armed (m now : ℕ) (s : State) (es : List Event) : Type 0 where
  budget : Budget m now s es
  open_now : (i : Intent) × (s.pending ≡ some i) × (i.at ≡ now)

module _ {H : Type 0} (api : Api H) (deps : Deps H) (m now : ℕ) where
  Keeps-note-Armed : (l : Level) (n : Note) → Keeps {H = H} (Armed m now) (note l n)
  unfolding note
  Keeps-note-Armed l n = record {
    at = λ w h. record {
      budget = (Budget-IsSteady m now).noted l n w.state w.trace h.budget;
      open_now = h.open_now;
    };
  }

  Keeps-call_supervisor :
      (cfg : Config) (want : Proxy) → Keeps (Armed m now) (call_supervisor api deps cfg want now)
  unfolding call_supervisor set_proxy clear_proxy
  Keeps-call_supervisor cfg want =
      let kept : (w : World H) (e : Event) (l : AllFit m now (e ∷ w.trace))
          → On (Armed m now) w
          → Armed m now w.state (e ∷ w.trace) =
        λ w e l h. record {
          budget = record { held = h.budget.held; trail = l };
          open_now = h.open_now;
        } in
      Keeps-if (enabled want) (set_proxy api now want cfg.watchdog.force)
        (clear_proxy api now cfg.watchdog.force)
        (record { at = λ w h. kept w (set_called now want) h.budget.trail h })
        (record { at = λ w h. kept w (clear_called now) h.budget.trail h })

  Keeps-reboot : (b : Bool) → Keeps (Budget m now) (reboot api b)
  unfolding reboot
  Keeps-reboot b = record { at = λ w h. record { held = h.held; trail = h.trail } }

  Keeps-log_reboot : (o : Option Text) → Keeps (Budget m now) (log_reboot api deps o)
  unfolding log_reboot
  Keeps-log_reboot none = search keeps_rules
  Keeps-log_reboot (some e) = Keeps-note (Budget-IsSteady m now) error (reboot_failed e)

  Keeps-report :
      (cfg : Config) (want : Proxy) (a : Action) (r : Reason)
      → Keeps (Budget m now) (report api deps cfg want a r)
  unfolding report
  Keeps-report cfg want a r =
      let steady = Budget-IsSteady m now in
      search (keeps_rules, Keeps-reboot, Keeps-log_reboot) depth 14

  record_change-Budget :
      (print : Text) (b : Bool) (s : State) (es : List Event)
      → Armed m now s es
      → Budget m now (record_change now print s) (saved b (record_change now print s) ∷ es)
  unfolding record_change
  record_change-Budget print b s es h =
      let (i, p, at) = h.open_now in
      let recorded = record_change now print s in
      let entry : recorded.changes ≡ trim_changes (s.changes ++ i.at ∷ []) i.at = rw at refl in
      let fits = settled-Fits m now i s recorded p refl (inl entry) h.budget.held in
      record { held = fits; trail = (fits, h.budget.trail) }

  update-Armed :
      (print : Text) (w : World H)
      → On (Armed m now) w
      → On (Budget m now) (update deps (record_change now print) w).1
  unfolding update
  update-Armed print w h = record_change-Budget print _ w.state w.trace h

  after_call-Budget :
      (cfg : Config) (want : Proxy) (a : Action) (print : Text) (r : Reason) (o : Option Text)
      (w : World H)
      → On (Armed m now) w
      → On (Budget m now) (after_call api deps cfg want a print r now o w).1
  unfolding after_call finish
  after_call-Budget cfg want a print r (some e) w h =
      (Keeps-bind (note error (change_failed e)) _
          (Keeps-note (Budget-IsSteady m now) error (change_failed e)) (λ _. Keeps-finish _)).at
        w h.budget
  after_call-Budget cfg want a print r none w h =
      bind-Keeps (update deps (record_change now print)) _ w (update-Armed print w h)
        (λ _. Keeps-report cfg want a r)

  attempt-Budget :
      (cfg : Config) (want : Proxy) (a : Action) (print : Text) (r : Reason) (w : World H)
      → On (Armed m now) w
      → On (Budget m now) (attempt api deps cfg want a print r now none w).1
  unfolding attempt
  attempt-Budget cfg want a print r w h =
      let v = (note change (applying a r) w).1 in
      let noted_armed = (Keeps-note-Armed change (applying a r)).at w h in
      bind_post (On (Budget m now)) (note change (applying a r)) _ w (λ o _. noted_armed.budget)
        (λ _ _.
          let called = (Keeps-call_supervisor cfg want).at v noted_armed in
          bind_post (On (Budget m now)) (call_supervisor api deps cfg want now) _ v
            (λ o _. called.budget) (λ o _. after_call-Budget cfg want a print r o _ called))

  -- The limit leaves room for one more change.
  set_pending-Fits :
      (i : Intent) (s : State)
      → i.at ≡ now
      → changes_in_last_hour s now < m
      → Fits m now (set_pending i s)
  unfolding set_pending changes_in_last_hour
  set_pending-Fits i s e h = record {
    counted = λ t l. omega (arith, trim_changes-antitone s.changes now t l, h);
    stamped = λ j q. let same : i ≡ j = cc in omega (arith, e, ap (λ (k : Intent). k.at) same);
  }

  attempt_saved-Budget :
      (cfg : Config) (want : Proxy) (a : Action) (print : Text) (r : Reason) (i : Intent)
      (w : World H) (o : Option Text) (host : H)
      → i.at ≡ now
      → changes_in_last_hour w.state now < m
      → On (Budget m now) w
      → let st = set_pending i w.state in
        On
          (Budget m now)
          (attempt api deps cfg want a print r now o
            (record w { host = host; state = st; trace = saved (is_none o) st ∷ w.trace })).1
  unfolding attempt finish set_pending
  attempt_saved-Budget cfg want a print r i w (some e) host at h k =
      let fits = set_pending-Fits i w.state at h in record { held = fits; trail = (fits, k.trail) }
  attempt_saved-Budget cfg want a print r i w none host at h k =
      let fits = set_pending-Fits i w.state at h in
      attempt-Budget cfg want a print r _ (record {
        budget = record { held = fits; trail = (fits, k.trail) };
        open_now = (i, refl, at);
      })

  pub apply-Budget :
      (cfg : Config) (want : Proxy) (print : Text) (r : Reason) (w : World H)
      → changes_in_last_hour w.state now < m
      → On (Budget m now) w
      → On (Budget m now) (apply api deps cfg want print r now w).1
  unfolding apply update ◌>>=◌
  apply-Budget cfg want print r w h k =
      attempt_saved-Budget cfg want (action_of want) print r _ w _ _ refl h k

  pub flap_guard_passed :
      (cfg : Config) (w : World H)
      → cfg.watchdog.max_changes_per_hour ≡ pos m
      → (flap_guard api deps cfg now w).0 ≡ next tt
      → (changes_in_last_hour w.state now < m) × ((flap_guard api deps cfg now w).1 ≡ w)
  unfolding flap_guard ◌>>=◌ update note finish pure gets
  flap_guard_passed cfg w limit e = ground arith
