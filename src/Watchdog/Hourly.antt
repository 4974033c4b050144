-- ===== src/Watchdog/Hourly.antt =====
-- The limit of changes in an hour over the life of the watchdog, as long as its clock does not go back.
use nf_sdk.Base.{ℕ, pos, ◌≤◌, ◌≡◌, List, [], ◌++◌}
use nf_sdk.Store.Config.{Config}
use nf_sdk.Store.State.{State}
use nf_sdk.Supervisor.Proxy.{Proxy}
use nf_sdk.Supervisor.Api.{Api}
use nf_sdk.Watchdog.World.{World, Deps, Event, ◌>>◌}
use nf_sdk.Watchdog.Reconcile.{reconcile_once, unfreeze}
use nf_sdk.Watchdog.Spacing.{disk_of}
use nf_sdk.Watchdog.Budget.{Budget}

module _ {H : Type 0} (api : Api H) (deps : Deps H) (m : ℕ) where
  module _ (first : State) (began : ℕ) where
    -- The worlds that the watchdog can come to from a state `first` on disk at the time `began`, with
    -- the time up to which its passes have run: passes in the order of the clock, kills after any effect of a pass followed
    -- by a restart from the disk, releases by an operator, and a world and a configuration that
    -- change. The limit is the same in all passes.
    pub data Course : World H → ℕ → Type 0 where
      begun : (w : World H) → w.state ≡ first → w.trace ≡ [] → Course w began
      passed :
          {w : World H} {c : ℕ}
          → Course w c
          → c ≤ deps.now w.host
          → w.config.watchdog.max_changes_per_hour ≡ pos m
          → Course (reconcile_once api deps w).1 (deps.now w.host)
      cut_off :
          {w : World H} {c : ℕ}
          → Course w c
          → c ≤ deps.now w.host
          → w.config.watchdog.max_changes_per_hour ≡ pos m
          → (rest cut : List Event) → (reconcile_once api deps w).1.trace ≡ rest ++ cut
          → (v : World H) → v.state ≡ disk_of first cut
          → v.trace ≡ cut
          → Course v (deps.now w.host)
      released : {w : World H} {c : ℕ} → Course w c → Course (unfreeze api deps w).1 c
      altered :
          {w : World H} {c : ℕ}
          → Course w c
          → (h : H) (cfg : Config) → Course (record w { host = h; config = cfg }) c
