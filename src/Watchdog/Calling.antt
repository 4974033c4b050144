-- ===== src/Watchdog/Calling.antt =====
-- The call of the Supervisor: `apply` keeps the invariant where the last call is far enough.
use native.Mathlib.Nat.{le_refl}
use nf_sdk.Base.{
  is_none, ℕ, ◌≤◌, ◌<◌, ◌≡◌, refl, Bool, true, false, Option, none, some, List, ◌∷◌, Text, inl, inr,
  Bool-cases,
}
use nf_sdk.Store.Config.{Config}
use nf_sdk.Store.State.{State, Reason, Intent, Action, record_change, set, clear}
use nf_sdk.Supervisor.Proxy.{Proxy, enabled}
use nf_sdk.Supervisor.Api.{Api}
use nf_sdk.Watchdog.World.{
  Level, Note, change, applying, World, Deps, Event, saved, set_called, clear_called, noted, update,
  note, set_proxy, clear_proxy, reboot, finish, ◌>>=◌,
}
use nf_sdk.Watchdog.Reconcile.{
  apply, attempt, report, set_pending, action_of, after_call, call_supervisor, log_reboot,
}
use nf_sdk.Watchdog.Triple.{
  IsSteady, Keeps, On, bind-Keeps, bind_post, keeps_rules, Keeps-bind, Keeps-note,
}
use nf_sdk.Watchdog.Spacing.{
  last_call, disk_of, Spaced, Known, Inv, disk-Remembers, Announces, Inv-IsSteady, saved-Inv,
  known_by,
}

module _ (d : ℕ) (first : State) where
  -- A call at `now` is far enough from the last one.
  pub record Clear (now : ℕ) (s : State) (es : List Event) : Type 0 where
    pub inv : Inv d first s es
    pub spaced : Spaced d (last_call es) now
    pub known : Known (last_call es) now

  pub Clear-IsSteady : (now : ℕ) → IsSteady (Clear now)
  Clear-IsSteady now = record {
    noted = λ l k s es h. record {
      inv = (Inv-IsSteady d first).noted l k s es h.inv;
      spaced = h.spaced;
      known = h.known;
    };
    framed = λ fn f b s es h. record {
      inv = (Inv-IsSteady d first).framed fn f b s es h.inv;
      spaced = h.spaced;
      known = h.known;
    };
    settled = λ i fn f b s es p h. record {
      inv = (Inv-IsSteady d first).settled i fn f b s es p h.inv;
      spaced = h.spaced;
      known = h.known;
    };
  }

  module _ {H : Type 0} (api : Api H) (deps : Deps H) where
    Keeps-reboot : (force : Bool) → Keeps (Inv d first) (reboot api force)
    unfolding reboot
    Keeps-reboot force = record {
      at = λ w h. record {
        spaced = h.spaced;
        durable = (disk-Remembers first w.trace h.durable, h.durable);
        announced = h.announced;
        remembers = h.remembers;
      };
    }

    Keeps-log_reboot : (o : Option Text) → Keeps (Inv d first) (log_reboot api deps o)
    unfolding log_reboot
    Keeps-log_reboot none = search keeps_rules
    Keeps-log_reboot (some e) = search (keeps_rules, Inv-IsSteady)

    Keeps-report :
        (cfg : Config) (want : Proxy) (a : Action) (reason : Reason)
        → Keeps (Inv d first) (report api deps cfg want a reason)
    unfolding report
    Keeps-report cfg want a reason =
        search (keeps_rules, Inv-IsSteady, Keeps-reboot, Keeps-log_reboot) depth 14

    -- The Supervisor was just called.
    record Called (now : ℕ) (s : State) (es : List Event) : Type 0 where
      inv : Inv d first s es
      called : last_call es ≡ some now

    after_call-Inv :
        (cfg : Config) (want : Proxy) (a : Action) (print : Text) (reason : Reason) (now : ℕ)
        (r : Option Text) (w : World H)
        → 0 < now
        → On (Called now) w
        → On (Inv d first) (after_call api deps cfg want a print reason now r w).1
    unfolding after_call update record_change
    after_call-Inv cfg want a print reason now (some e) w p h =
        (Keeps-bind _ _ (Keeps-note (Inv-IsSteady d first) _ _) (λ _. search keeps_rules)).at w
          h.inv
    after_call-Inv cfg want a print reason now none w p h =
        bind-Keeps {I = Inv d first} (update deps (record_change now print)) _ w
          (saved-Inv d first _ w.state (record_change now print w.state) w.trace
            (rw h.called (p, le_refl now)) h.inv)
          (λ _. Keeps-report cfg want a reason)

    -- The intent is on disk, and the Supervisor may be called.
    record Armed (a : Action) (now : ℕ) (s : State) (es : List Event) : Type 0 where
      clear : Clear now s es
      held : now ≤ known_by s.pending s.last_change_at
      announced : Announces a now (disk_of first es).pending
      on_disk : now ≤ known_by (disk_of first es).pending (disk_of first es).last_change_at

    note-Armed :
        (a : Action) (now : ℕ) (l : Level) (n : Note) (s : State) (es : List Event)
        → Armed a now s es
        → Armed a now s (noted l n ∷ es)
    note-Armed a now l n s es h = record {
      clear = (Clear-IsSteady now).noted l n s es h.clear;
      held = h.held;
      announced = h.announced;
      on_disk = h.on_disk;
    }

    set-Called :
        (now : ℕ) (p : Proxy) (s : State) (es : List Event)
        → 0 < now
        → Armed set now s es
        → Called now s (set_called now p ∷ es)
    set-Called now p s es pos_now h = record {
      inv = record {
        spaced = (h.clear.spaced, h.clear.inv.spaced);
        durable = ((pos_now, h.on_disk), h.clear.inv.durable);
        announced = (h.announced, h.clear.inv.announced);
        remembers = (pos_now, h.held);
      };
      called = refl;
    }

    clear-Called :
        (now : ℕ) (s : State) (es : List Event)
        → 0 < now
        → Armed clear now s es
        → Called now s (clear_called now ∷ es)
    clear-Called now s es pos_now h = record {
      inv = record {
        spaced = (h.clear.spaced, h.clear.inv.spaced);
        durable = ((pos_now, h.on_disk), h.clear.inv.durable);
        announced = (h.announced, h.clear.inv.announced);
        remembers = (pos_now, h.held);
      };
      called = refl;
    }

    call_supervisor-Called :
        (cfg : Config) (want : Proxy) (now : ℕ) (w : World H)
        → 0 < now
        → On (Armed (action_of want) now) w
        → On (Called now) (call_supervisor api deps cfg want now w).1
    unfolding call_supervisor set_proxy clear_proxy
    call_supervisor-Called cfg want now w p h = elim (Bool-cases (enabled want)) [
      | inl on ↦ rw on (set-Called now want w.state w.trace p (rw on at h))
      | inr off ↦ rw off (clear-Called now w.state w.trace p (rw off at h))
    ]

    attempt-Inv :
        (cfg : Config) (want : Proxy) (print : Text) (reason : Reason) (now : ℕ) (w : World H)
        → 0 < now
        → On (Armed (action_of want) now) w
        → On (Inv d first) (attempt api deps cfg want (action_of want) print reason now none w).1
    unfolding attempt note
    attempt-Inv cfg want print reason now w p h =
        let a = action_of want in
        let armed = note-Armed a now change (applying a reason) w.state w.trace h in
        bind_post (On (Inv d first)) (note change (applying a reason)) _ w (λ o e. armed.clear.inv)
          (λ _ e.
            let v = (note change (applying a reason) w).1 in
            let called = call_supervisor-Called cfg want now v p armed in
            bind_post (On (Inv d first)) (call_supervisor api deps cfg want now) _ v
              (λ o e. called.inv) (λ r e. after_call-Inv cfg want a print reason now r _ p called))

    -- The intent was written, or not; `r` is what the write gave.
    attempt-Inv_saved :
        (cfg : Config) (want : Proxy) (print : Text) (reason : Reason) (now : ℕ) (i : Intent)
        (w : World H) (r : Option Text) (host : H)
        → i.action ≡ action_of want
        → i.at ≡ now
        → 0 < now
        → On (Clear now) w
        → let st = set_pending i w.state in
          On
            (Inv d first)
            (attempt api deps cfg want
              (action_of want)
              print
              reason
              now
              r
              (record w { host = host; state = st; trace = saved (is_none r) st ∷ w.trace })).1
    unfolding set_pending attempt finish
    attempt-Inv_saved cfg want print reason now i w (some e) host what at p h =
        saved-Inv d first false w.state (set_pending i w.state) w.trace (rw at h.known) h.inv
    attempt-Inv_saved cfg want print reason now i w none host what at p h =
        attempt-Inv cfg want print reason now _ p (record {
          clear = record {
            inv =
                saved-Inv d first true w.state (set_pending i w.state) w.trace (rw at h.known)
                  h.inv;
            spaced = h.spaced;
            known = h.known;
          };
          held = rw at (le_refl now);
          announced = (what, at);
          on_disk = rw at (le_refl now);
        })

    -- A change whose time is clear of the last call, whatever fails on the way.
    pub apply-Inv :
        (cfg : Config) (want : Proxy) (print : Text) (reason : Reason) (now : ℕ) (w : World H)
        → 0 < now
        → On (Clear now) w
        → On (Inv d first) (apply api deps cfg want print reason now w).1
    unfolding apply update ◌>>=◌
    apply-Inv cfg want print reason now w p h =
        attempt-Inv_saved cfg want print reason now _ w _ _ refl refl p h
