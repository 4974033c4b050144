-- ===== src/Historian/Track.antt =====
-- `trackVersions` of sparkplug-historian/sparkplug-sql/historian.go: the recovery state machine.
use nf_sdk.Base.{ℕ, Bool, false, none, some, Text, is_empty, lookup, if◌then◌else◌}
use nf_sdk.Historian.Metric.{Run, ok, ◌>>=◌, deref, Floats}
use nf_sdk.Historian.Node.{Sync, good, recovering, desynced, Node, Sys, put_node}

module _ (floats : Floats) where
  -- `loadVersion`, when the database answers: a node with no row reads as 0.
  unfoldable pub load_version : Text → Sys floats → ℕ
  load_version id s = elim (lookup id s.lgsns) [ none ↦ 0 | some v ↦ v ]

  -- The start of `trackVersions`.
  unfoldable pub run_track : Text → Sys floats → Run (Sys floats)
  run_track id s = do
    n ← deref (lookup id s.nodes)
    ok (put_node floats id (record n { lgsn = load_version id s; state = desynced }) s)

  -- `makeRetryCmd`: the node keeps the identifier it asked with. `uuid` is a fresh one.
  unfoldable pub ask_again : Text → Node → Node
  ask_again uuid n = if is_empty n.recovery_id then record n { recovery_id = uuid } else n

  unfoldable pub after_check : Bool → Text → Sync → Node → Node
  after_check published uuid desynced n =
      let asked = ask_again uuid n in
      if published then record asked { state = recovering } else asked
  after_check published uuid recovering n = if n.hdata then n else record n { state = desynced }
  after_check published uuid good n = n

  -- One round of the loop of `trackVersions`, once the database answers.
  unfoldable pub check_node : Bool → Text → Node → Node
  unfolding after_check ask_again
  check_node published uuid n = record (after_check published uuid n.state n) { hdata = false }
