-- ===== src/Historian/Crashes.antt =====
-- A message that ends the process, and an order of goroutines that loses data.
use nf_sdk.Base.{
  ℕ, ◌≡◌, refl, ap, Option, none, some, List, [], ◌∷◌, Text, codes, text_eq, text_eq_refl, lookup,
  lookup-insert_self, if◌then◌else◌,
}
use nf_sdk.Historian.Metric.{Floats, Metric, ok, panic, index_out_of_range}
use nf_sdk.Historian.Node.{
  Node, fresh_node, Tx, committed, index, Payload, Sys, insert_data, put_node,
}
use nf_sdk.Historian.Insert.{store_data, run_insert}
use nf_sdk.Historian.Track.{load_version}
use nf_sdk.Historian.Broker.{
  receive, accepted, dispatch, ensure_node, spawn, known_node, upper, upper_byte,
}
use nf_sdk.Historian.Recovery.{store_data-lgsns}

abbrev pub data_topic : Text → Text → List Text
data_topic group id = codes "spBv1.0" ∷ group ∷ codes "DDATA" ∷ id ∷ []

module _ (floats : Floats) where
  known_node-lookup :
      (id : Text) (o : Option Node) (s : Sys floats)
      → lookup id s.nodes ≡ o
      → (n : Node) × (lookup id (known_node floats id o s).nodes ≡ some n)
  unfolding known_node spawn put_node
  known_node-lookup id (some n) s e = (n, e)
  known_node-lookup id none s e = (fresh_node, lookup-insert_self id fresh_node s.nodes)

  ensure_node-lookup :
      (id : Text) (s : Sys floats)
      → (n : Node) × (lookup id (ensure_node floats id s).nodes ≡ some n)
  unfolding ensure_node
  ensure_node-lookup id s = known_node-lookup id (lookup id s.nodes) s refl

  dispatch_data :
      (tx : Tx) (topic : List Text) (id : Text) (p : Payload floats) (n : Node) (s : Sys floats)
      → dispatch floats tx topic (codes "DDATA") id p n s
        ≡ ok (spawn floats (insert_data topic p) s)
  unfolding dispatch upper upper_byte text_eq
  dispatch_data tx topic id p n s = refl

  accepted_data :
      (s : Sys floats) (tx : Tx) (p : Payload floats) (id : Text)
      → accepted floats tx (data_topic s.group id) (some p) s
        ≡ ok (spawn floats (insert_data (data_topic s.group id) p) (ensure_node floats id s))
  unfolding accepted index
  accepted_data s tx p id = rw (ensure_node-lookup id s).1 (
      dispatch_data tx (data_topic s.group id) id p (ensure_node-lookup id s).0
        (ensure_node floats id s))

  -- A DDATA message on a topic with no device is accepted and starts a goroutine, and that goroutine
  -- panics in every later state.
  pub no_device_crashes :
      (s t : Sys floats) (tx : Tx) (p : Payload floats) (id : Text)
      → (receive floats tx (data_topic s.group id) (some p) s
          ≡ ok (spawn floats (insert_data (data_topic s.group id) p) (ensure_node floats id s)))
        × (run_insert floats tx (data_topic s.group id) p t ≡ panic index_out_of_range)
  unfolding receive index run_insert
  no_device_crashes s t tx p id = (rw (text_eq_refl, text_eq_refl) (accepted_data s tx p id), refl)

  load_version-some :
      (id : Text) (s : Sys floats) (v : ℕ)
      → lookup id s.lgsns ≡ some v
      → load_version floats id s ≡ v
  unfolding load_version
  load_version-some id s v e = ap (λ o. elim o [ none ↦ 0 | some x ↦ x ]) e

  ensure_node-fresh :
      (id : Text) (s : Sys floats)
      → lookup id s.nodes ≡ none
      → lookup id (ensure_node floats id s).nodes ≡ some fresh_node
  unfolding ensure_node known_node spawn put_node
  ensure_node-fresh id s new = rw new (lookup-insert_self id fresh_node s.nodes)

  stored_start :
      (s s' : Sys floats) (id device : Text) (ms : List (Metric floats)) (seq : ℕ)
      → store_data floats committed id device ms seq fresh_node s ≡ ok s'
      → load_version floats id s' ≡ seq
  stored_start s s' id device ms seq h =
      let moved : lookup id s'.lgsns ≡ (if text_eq id id then some seq else lookup id s.lgsns) =
        store_data-lgsns floats committed id device ms seq fresh_node s s' h id in
      let stored : lookup id s'.lgsns ≡ some seq = rw text_eq_refl at moved in
      load_version-some id s' seq stored

  -- Where the data of a node that was never seen is stored before the node's watcher starts, the
  -- watcher then loads the number of that data as the position to recover from, whatever position
  -- the database held.
  pub early_insert_moves_start :
      (s s' : Sys floats) (space group kind id device : Text) (p : Payload floats) (seq : ℕ)
      → lookup id s.nodes ≡ none
      → p.seq ≡ some seq
      → run_insert floats committed
          (space ∷ group ∷ kind ∷ id ∷ device ∷ [])
          p
          (ensure_node floats id s)
        ≡ ok s'
      → load_version floats id s' ≡ seq
  unfolding run_insert index
  early_insert_moves_start s s' space group kind id device p seq new e h =
      stored_start (ensure_node floats id s) s' id device p.metrics seq
        (rw (ensure_node-fresh id s new, e) at h)
