-- ===== src/Historian/Insert.antt =====
-- `insertData` of sparkplug-historian/sparkplug-sql/historian.go and `logAllMetrics` of wal.go.
use nf_sdk.Base.{
  ℕ, ◌/◌, Bool, true, false, not, ◌&&◌, ◌||◌, Option, none, some, List, [], ◌∷◌, ◌++◌, Text,
  text_eq, is_empty, length, take, ltb, ◌==◌, lookup, insert, if◌then◌else◌,
}
use nf_sdk.Historian.Metric.{
  slice_out_of_range, Run, ok, panic, ◌>>=◌, deref, Floats, Metric, holds, make_scalar,
}
use nf_sdk.Historian.Node.{
  recovering, Node, Tx, not_begun, rolled_back, committed, index, is_good, Payload, Row, Sys,
  alias_key, put_node,
}

module _ (floats : Floats) where
  open floats use {F, bits}

  abbrev or_empty : Option Text → Text
  or_empty none = []
  or_empty (some t) = t

  -- The name under which a metric is logged; `none` is `continue`.
  unfoldable pub log_name : Sys floats → Text → Text → Metric floats → Option Text
  log_name s node device m = elim m.name [
    | some n ↦ some n
    | none ↦ elim m.alias [
      | some a ↦ some (or_empty (lookup (alias_key floats node device a) s.aliases))
      | none ↦ none
    ]
  ]

  -- `name[:36]`
  unfoldable pub slice36 : Text → Run Text
  slice36 name = if ltb (length name) 36 then panic slice_out_of_range else ok (take 36 name)

  unfoldable pub log_one :
      Bool → Text → Text → Metric floats → Option Text → Sys floats → Run (Sys floats)
  log_one only_historical node device m none s = ok s
  log_one only_historical node device m (some name) s =
      if is_empty name || only_historical && not (holds floats m.is_historical) then ok s else (do
        short ← slice36 name
        ts ← deref m.timestamp
        ok (record s {
          wal =
              s.wal
              ++ (node, device, record { name = short; ts = ts; val = bits (make_scalar floats m) })
                ∷ [];
        }))

  -- `logAllMetrics`
  unfoldable pub log_all : Bool → Text → Text → List (Metric floats) → Sys floats → Run (Sys floats)
  log_all only_historical node device [] s = ok s
  log_all only_historical node device (m ∷ ms) s =
      log_one only_historical node device m (log_name s node device m) s >>= λ s'.
      log_all only_historical node device ms s'

  same_row : Row floats → Row floats → Bool
  same_row a b =
      text_eq a.node b.node && text_eq a.device b.device && a.alias == b.alias && a.time == b.time

  has_row : Row floats → List (Row floats) → Bool
  has_row r [] = false
  has_row r (q ∷ qs) = same_row q r || has_row r qs

  -- INSERT … ON CONFLICT (metric_id, time) DO NOTHING
  unfoldable pub insert_row : Row floats → List (Row floats) → List (Row floats)
  unfolding same_row has_row
  insert_row r rows = if has_row r rows then rows else rows ++ r ∷ []

  abbrev is_queued : Metric floats → Bool
  is_queued m = not (holds floats m.is_historical)

  -- The loop over the metrics: what is queued, and whether historical data was seen.
  unfoldable pub queue : Text → Text → List (Metric floats) → List (Row floats) × Bool
  queue node device [] = ([], false)
  queue node device (m ∷ ms) =
      let (rows, seen) = queue node device ms in
      elim m.timestamp [
        | none ↦ (rows, seen)
        | some ts ↦ elim m.alias [
          | none ↦ (rows, seen)
          | some a ↦ if holds floats m.is_historical then (rows, true) else (
            record {
              node = node;
              device = device;
              alias = a;
              time = ts / 1000;
              value = make_scalar floats m;
            }
                ∷ rows,
            seen,
          )
        ]
      ]

  insert_rows : List (Row floats) → List (Row floats) → List (Row floats)
  insert_rows [] rows = rows
  insert_rows (r ∷ rs) rows = insert_rows rs (insert_row r rows)

  -- The transaction of `insertData` and what follows it, for a node that is known.
  unfoldable pub store_data :
      Tx → Text → Text → List (Metric floats) → ℕ → Node → Sys floats → Run (Sys floats)
  unfolding insert_rows
  store_data not_begun id device ms seq n s =
      log_all false id device ms (put_node floats id (record n { state = recovering }) s)
  store_data rolled_back id device ms seq n s =
      let (rows, seen) = queue id device ms in
      log_all false id device ms
        (put_node floats id (record n { state = recovering; hdata = n.hdata || seen }) s)
  store_data committed id device ms seq n s =
      let (rows, seen) = queue id device ms in
      let n' = record n { hdata = n.hdata || seen } in
      let s' = record s { rows = insert_rows rows s.rows } in
      log_all true id device ms (
        if is_good n.state
        then put_node floats id (record n' { lgsn = seq })
            (record s' { lgsns = insert id seq s.lgsns })
        else put_node floats id n' s')

  -- `insertData`
  unfoldable pub run_insert : Tx → List Text → Payload floats → Sys floats → Run (Sys floats)
  run_insert tx topic p s = do
    id ← index topic 3
    device ← index topic 4
    n ← deref (lookup id s.nodes)
    seq ← deref p.seq
    store_data tx id device p.metrics seq n s
