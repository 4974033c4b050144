-- ===== src/Watchdog/Lifetime.antt =====
-- The watchdog over its whole life: passes, restarts at any point of a pass, operators and a world
-- that change meanwhile.
use nf_sdk.Base.{ℕ, pos, ◌<◌, ◌≡◌, refl, List, [], ◌∷◌, ◌++◌, Option, none, some, Text, inr}
use nf_sdk.Store.Config.{Config}
use nf_sdk.Store.State.{State}
use nf_sdk.Supervisor.Api.{Api}
use nf_sdk.Watchdog.World.{
  Exit, done, next, World, Deps, Event, saved, set_called, clear_called, reboot_called, noted,
  update, note,
}
use nf_sdk.Watchdog.Desired.{minutes}
use nf_sdk.Watchdog.Reconcile.{reconcile_once, unfreeze, unfrozen, lift_breaker}
use nf_sdk.Watchdog.Triple.{On}
use nf_sdk.Watchdog.Spacing.{
  disk_of, IsSpaced, IsDurable, IsAnnounced, Inv, Inv-IsSteady, disk-Remembers,
}
use nf_sdk.Watchdog.Dwell.{reconcile_once-Inv}

module _ {H : Type 0} (api : Api H) (deps : Deps H) (d : ℕ) (first : State) where
  -- The worlds that the watchdog can come to, from a state `first` on disk. The dwell is `d` in
  -- every pass; all else may change between passes.
  pub data Life : World H → Type 0 where
    start : (w : World H) → w.state ≡ first → w.trace ≡ [] → Life w
    pass :
        {w : World H}
        → Life w
        → minutes w.config.watchdog.min_dwell_minutes ≡ pos d
        → 0 < deps.now w.host
        → Life (reconcile_once api deps w).1
    -- The process is killed after the effects in `cut`, and starts again from the disk.
    killed :
        {w : World H}
        → Life w
        → minutes w.config.watchdog.min_dwell_minutes ≡ pos d
        → 0 < deps.now w.host
        → (rest cut : List Event) → (reconcile_once api deps w).1.trace ≡ rest ++ cut
        → (v : World H) → v.state ≡ disk_of first cut
        → v.trace ≡ cut
        → Life v
    -- An operator clears the breaker.
    released : {w : World H} → Life w → Life (unfreeze api deps w).1
    -- The world and the configuration change.
    meanwhile :
        {w : World H} → Life w → (h : H) (c : Config) → Life (record w { host = h; config = c })

  tail-IsSpaced : (e : Event) (es : List Event) → IsSpaced d (e ∷ es) → IsSpaced d es
  tail-IsSpaced (set_called t p) es h = h.1
  tail-IsSpaced (clear_called t) es h = h.1
  tail-IsSpaced (saved b st) es h = h
  tail-IsSpaced reboot_called es h = h
  tail-IsSpaced (noted l n) es h = h

  tail-IsAnnounced :
      (e : Event) (es : List Event) → IsAnnounced first (e ∷ es) → IsAnnounced first es
  tail-IsAnnounced (set_called t p) es h = h.1
  tail-IsAnnounced (clear_called t) es h = h.1
  tail-IsAnnounced (saved b st) es h = h
  tail-IsAnnounced reboot_called es h = h
  tail-IsAnnounced (noted l n) es h = h

  -- What is on disk at an earlier point of the trace is enough to go on from.
  cut-Inv :
      (rest cut : List Event)
      → IsSpaced d (rest ++ cut)
      → IsDurable first (rest ++ cut)
      → IsAnnounced first (rest ++ cut)
      → Inv d first (disk_of first cut) cut
  cut-Inv [] cut s h a = record {
    spaced = s;
    durable = h;
    announced = a;
    remembers = disk-Remembers first cut h;
  }
  cut-Inv (e ∷ rest) cut s h a = cut-Inv rest cut (tail-IsSpaced e _ s) h.1 (tail-IsAnnounced e _ a)

  unfrozen-Inv :
      (r : Exit (Option Text)) (w : World H)
      → On (Inv d first) w
      → On (Inv d first) (unfrozen api deps (r, w)).1
  unfolding unfrozen note
  unfrozen-Inv (done o) w h = h
  unfrozen-Inv (next none) w h = (Inv-IsSteady d first).noted _ _ w.state w.trace h
  unfrozen-Inv (next (some e)) w h = h

  unfreeze-Inv : (w : World H) → On (Inv d first) w → On (Inv d first) (unfreeze api deps w).1
  unfolding unfreeze update lift_breaker
  unfreeze-Inv w h = unfrozen-Inv (update deps lift_breaker w).0 (update deps lift_breaker w).1 (
      (Inv-IsSteady d first).framed lift_breaker
        (record { pending = λ s. refl; last_change_at = λ s. refl; changes = λ s. inr refl }) _
        w.state w.trace h)

  Life-Inv : {w : World H} → Life w → On (Inv d first) w
  Life-Inv (start w e t) =
      rw t (record { spaced = tt; durable = tt; announced = tt; remembers = tt })
  Life-Inv (pass l dwell p) = reconcile_once-Inv d first api deps _ dwell p (Life-Inv l)
  Life-Inv (killed {w = u} l dwell p rest cut t v s e) =
      let h = reconcile_once-Inv d first api deps u dwell p (Life-Inv l) in
      rw (s, e) (cut-Inv rest cut (rw t at h.spaced) (rw t at h.durable) (rw t at h.announced))
  Life-Inv (released l) = unfreeze-Inv _ (Life-Inv l)
  Life-Inv (meanwhile l h c) = Life-Inv l

  -- Over the watchdog's life, the pass of each call that changes the host's proxy began at least the
  -- dwell after the pass of the call before it: the dwell is kept between the readings of the clock at
  -- the start of two passes, not between the calls themselves.
  pub Life-IsSpaced : {w : World H} → Life w → IsSpaced d w.trace
  Life-IsSpaced l = (Life-Inv l).spaced

  -- Over the watchdog's life, the disk held the intent of each call that changes the host's proxy when
  -- the call was made.
  pub Life-IsAnnounced : {w : World H} → Life w → IsAnnounced first w.trace
  Life-IsAnnounced l = (Life-Inv l).announced
