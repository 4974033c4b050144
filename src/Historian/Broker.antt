-- ===== src/Historian/Broker.antt =====
-- The MQTT handlers of sparkplug-historian/sparkplug-sql/historian.go: `messagePubHandler`,
-- `createNodeConnection`, `closeNodeConnection` and `connectLostHandler`.
use nf_sdk.Base.{
  ℕ, ◌/◌, ◌-◌, ℤ, pos, eqb_ℤ, Bool, false, not, ◌&&◌, ◌||◌, Option, none, some, List, [], ◌∷◌, ◌++◌,
  Text, codes, text_eq, length, ltb, leb, ◌==◌, map, lookup, if◌then◌else◌,
}
use nf_sdk.Historian.Metric.{begin_failed, Run, ok, panic, ◌>>=◌, deref, Floats, get_bd_seq}
use nf_sdk.Historian.Node.{
  good, desynced, Node, fresh_node, Connection, Tx, not_begun, rolled_back, committed, index,
  Payload, Task, track, insert_data, update_aliases, invalidate, Sys, put_node,
}

module _ (floats : Floats) where
  unfoldable pub upper_byte : ℕ → ℕ
  upper_byte c = if leb b'a' c && leb c b'z' then c - 32 else c

  -- `strings.ToUpper`, of the ASCII letters.
  unfoldable pub upper : Text → Text
  upper = map upper_byte

  unfoldable pub spawn : Task floats → Sys floats → Sys floats
  spawn t s = record s { tasks = s.tasks ++ t ∷ [] }

  unfoldable pub known_node : Text → Option Node → Sys floats → Sys floats
  known_node id (some n) s = s
  known_node id none s = spawn (track id) (put_node floats id fresh_node s)

  -- A node that is new gets its state and its recovery watcher.
  unfoldable pub ensure_node : Text → Sys floats → Sys floats
  unfolding known_node spawn
  ensure_node id s = known_node id (lookup id s.nodes) s

  -- `createNodeConnection`
  unfoldable pub create_connection : Tx → Text → Payload floats → Sys floats → Run (Sys floats)
  create_connection tx id p s = do
    seq ← get_bd_seq floats p.metrics
    if eqb_ℤ seq (pos 0) then ok s else (elim tx [
      | not_begun ↦ panic begin_failed
      | rolled_back ↦ deref p.timestamp >>= λ _. ok s
      | committed ↦ deref p.timestamp >>= λ ts. ok (record s {
        connections =
            s.connections
            ++ record { node = id; nbirth = ts / 1000; ndeath = none; bd_seq = seq } ∷ [];
      })
    ])

  mark_death : Text → ℤ → ℕ → List Connection → List Connection
  mark_death id seq t [] = []
  mark_death id seq t (c ∷ cs) =
      (if text_eq c.node id && eqb_ℤ c.bd_seq seq then record c { ndeath = some t } else c)
      ∷ mark_death id seq t cs

  -- `closeNodeConnection`
  unfoldable pub close_connection : Tx → Text → Payload floats → Sys floats → Run (Sys floats)
  unfolding mark_death
  close_connection tx id p s = do
    seq ← get_bd_seq floats p.metrics
    if eqb_ℤ seq (pos 0) then ok s else (elim tx [
      | not_begun ↦ panic begin_failed
      | rolled_back ↦ deref p.timestamp >>= λ _. ok s
      | committed ↦ deref p.timestamp >>= λ ts.
          ok (record s { connections = mark_death id seq (ts / 1000) s.connections })
    ])

  same_id : Option Text → Text → Bool
  same_id none id = false
  same_id (some u) id = text_eq id u

  -- The NDATA case: the answer to a retry request completes the recovery.
  unfoldable pub complete_recovery : Option Text → Node → Node
  unfolding same_id
  complete_recovery uuid n =
      if same_id uuid n.recovery_id then record n { state = good; recovery_id = [] } else n

  unfoldable pub dispatch :
      Tx → List Text → Text → Text → Payload floats → Node → Sys floats → Run (Sys floats)
  unfolding upper
  dispatch tx topic kind id p n s =
      if text_eq (upper kind) (codes "DBIRTH")
      then ok (if length topic == 5 then spawn (update_aliases topic p) s else s)
      else if text_eq (upper kind) (codes "DDATA")
      then ok (spawn (insert_data topic p) s)
      else if text_eq (upper kind) (codes "NDATA")
      then ok (put_node floats id (complete_recovery p.uuid n) s)
      else if text_eq (upper kind) (codes "NBIRTH")
      then create_connection tx id p s
      else if text_eq (upper kind) (codes "NDEATH")
      then close_connection tx id p
          (put_node floats id (record n { state = desynced }) (spawn (invalidate id) s))
      else ok s

  unfoldable pub accepted : Tx → List Text → Option (Payload floats) → Sys floats → Run (Sys floats)
  accepted tx topic none s = ok s
  accepted tx topic (some p) s = do
    kind ← index topic 2
    id ← index topic 3
    let known = ensure_node id s
    n ← deref (lookup id known.nodes)
    dispatch tx topic kind id p n known

  -- `messagePubHandler`, given the parts of the topic and the decoded payload.
  unfoldable pub receive : Tx → List Text → Option (Payload floats) → Sys floats → Run (Sys floats)
  receive tx topic payload s = do
    namespace ← index topic 0
    if not (text_eq namespace (codes "spBv1.0")) then ok s else (do
      group ← index topic 1
      if not (text_eq group s.group) || ltb (length topic) 4
          then ok s
          else accepted tx topic payload s)

  lose_node : Text × Node → Text × Node
  lose_node (id, n) = (id, record n { state = desynced; hdata = false })

  -- `connectLostHandler`
  unfoldable pub connection_lost : Sys floats → Sys floats
  unfolding lose_node
  connection_lost s = record s { nodes = map lose_node s.nodes }
