-- ===== src/Historian/Node.antt =====
-- What the historian keeps: the recovery state of each node, the alias map, the tables, the log, and
-- the goroutines that were started. sparkplug-historian/sparkplug-sql/historian.go.
use nf_sdk.Base.{
  ℕ, zero, suc, ℤ, pos, Bool, true, false, Option, List, [], ◌∷◌, ◌++◌, Text, decimal, insert,
}
use nf_sdk.Historian.Metric.{index_out_of_range, Run, ok, panic, Floats, Metric}
use nf_sdk.Historian.Codec.{Record}

-- STATE_GOOD is Go's zero value.
pub data Sync : Type 0 where
  good recovering desynced : Sync

-- `node_state`
pub record Node : Type 0 where
  pub state : Sync
  pub lgsn : ℕ
  pub recovery_id : Text
  pub hdata : Bool

-- `&node_state{}`
abbrev pub fresh_node : Node
fresh_node = record { state = good; lgsn = 0; recovery_id = []; hdata = false }

pub record Connection : Type 0 where
  pub node : Text
  pub nbirth : ℕ
  pub ndeath : Option ℕ
  pub bd_seq : ℤ

-- How a database transaction goes.
pub data Tx : Type 0 where
  not_begun rolled_back committed : Tx

-- The element of a slice; out of range is a panic.
unfoldable pub index : {A : Type 0} → List A → ℕ → Run A
index [] i = panic index_out_of_range
index (x ∷ xs) zero = ok x
index (x ∷ xs) (suc i) = index xs i

abbrev pub is_good : Sync → Bool
is_good good = true
is_good _ = false

module _ (floats : Floats) where
  open floats use {F, bits}

  pub record Payload : Type 0 where
    pub uuid : Option Text
    pub seq : Option ℕ
    pub timestamp : Option ℕ
    pub metrics : List (Metric floats)

  -- A row of the table `metrics`; the metric is named by node, device and alias.
  pub record Row : Type 0 where
    pub node : Text
    pub device : Text
    pub alias : ℕ
    pub time : ℕ
    pub value : F

  -- A goroutine that was started and has not run yet.
  pub data Task : Type 0 where
    track : Text → Task
    insert_data : List Text → Payload → Task
    update_aliases : List Text → Payload → Task
    invalidate : Text → Task

  pub record Sys : Type 0 where
    pub group : Text
    pub nodes : List (Text × Node)
    pub aliases : List (Text × Text)
    pub tasks : List Task
    -- the tables `nodes` (its column lgsn), `metrics` and `node_connections`
    pub lgsns : List (Text × ℕ)
    pub rows : List Row
    pub connections : List Connection
    -- what was appended to the log files of each node and device
    pub wal : List (Text × Text × Record)

  unfoldable pub alias_key : Text → Text → ℕ → Text
  alias_key node device alias = node ++ (0 ∷ (device ++ (0 ∷ decimal (pos alias))))

  unfoldable pub put_node : Text → Node → Sys → Sys
  put_node id n s = record s { nodes = insert id n s.nodes }
