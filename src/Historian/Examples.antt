-- ===== src/Historian/Examples.antt =====
-- The historian with whole numbers for floats, and one node.
use nf_sdk.Base.{
  ◌⊎◌, ends_with, remove, ◌≡◌, ℕ, pos, refl, true, false, none, some, [], ◌∷◌, ◌++◌, Text, codes,
  text_eq, lookup, insert, arith,
}
use nf_sdk.Historian.Metric.{
  Floats, Metric, int_value, ok, panic, index_out_of_range, slice_out_of_range,
}
use nf_sdk.Historian.Codec.{Record, Fits, encode_many, read_records, read_records-encode_many}
use nf_sdk.Historian.Node.{
  Node, fresh_node, put_node, index, recovering, Payload, Sys, committed, is_good, insert_data,
}
use nf_sdk.Historian.Insert.{store_data, run_insert, queue, log_all, log_one, log_name, slice36}
use nf_sdk.Historian.Track.{load_version}
use nf_sdk.Historian.Broker.{receive, ensure_node, spawn, known_node, complete_recovery}
use nf_sdk.Historian.Recovery.{check_rounds, answer_completes, stored_after, store_data-lgsns}
use nf_sdk.Historian.Segment.{
  Calls, Disk, file, recovery_suffix, recover_file, recover_segment, replay_segment, replay_content,
  after_replay, rename, not_stored,
}
use nf_sdk.Historian.Replay.{IsKept, segment_of, recover_file-IsKept}
use nf_sdk.Historian.Crashes.{data_topic, no_device_crashes, early_insert_moves_start}

abbrev whole : Floats
whole = record {
  F = ℕ;
  F32 = ℕ;
  nan = 0;
  zero_f = 0;
  one_f = 1;
  of_uint32 = λ n. n;
  of_uint64 = λ n. n;
  of_float32 = λ n. n;
  to_int = λ n. pos n;
  bits = λ n. n;
  of_bits = λ n. n;
  of_bits-bits = λ n. refl;
}

abbrev reading : Record
reading = record {
  name = codes "0123456789abcdef0123456789abcdef0123";
  ts = 1700000000000;
  val = 42;
}

reading-Fits : Fits reading
reading-Fits = record { name = refl; ts = omega arith; val = omega arith }

read_records-encode_many_example :
    read_records (encode_many (reading ∷ reading ∷ []) ++ (1 ∷ 2 ∷ 3 ∷ [])) ≡ reading ∷ reading ∷ []
read_records-encode_many_example =
    read_records-encode_many (reading ∷ reading ∷ []) (1 ∷ 2 ∷ 3 ∷ [])
      (reading-Fits, (reading-Fits, tt)) (omega arith)

abbrev asking : Node
asking = record { state = recovering; lgsn = 12; recovery_id = codes "u1"; hdata = true }

answer_completes_example :
    is_good
      (complete_recovery whole
        (some (codes "u1"))
        (check_rounds whole ((true, codes "u2") ∷ (true, codes "u3") ∷ []) asking)).state
    ≡ text_eq (codes "u1") (codes "u1")
answer_completes_example =
    answer_completes whole ((true, codes "u2") ∷ (true, codes "u3") ∷ []) asking (codes "u1") refl
      refl

abbrev node_id : Text
node_id = codes "n1"

abbrev metric : Metric whole
metric = record {
  name = some (codes "temperature");
  alias = some 3;
  timestamp = some 1700000000000;
  is_historical = none;
  is_null = none;
  value = int_value 21;
}

abbrev historian : Sys whole
historian = record {
  group = codes "normalgw";
  nodes = [];
  aliases = [];
  tasks = [];
  lgsns = (node_id, 17) ∷ [];
  rows = [];
  connections = [];
  wal = [];
}

abbrev payload : Payload whole
payload = record { uuid = none; seq = some 99; timestamp = some 1700000000000; metrics = [] }

-- After an empty message of a node that is synchronised.
abbrev stored : Sys whole → Sys whole
stored s = record s {
  nodes = insert node_id (record fresh_node { lgsn = 99 }) s.nodes;
  lgsns = insert node_id 99 s.lgsns;
}

store-stored :
    (s : Sys whole)
    → store_data whole committed node_id (codes "d") [] 99 fresh_node s ≡ ok (stored s)
unfolding store_data put_node queue log_all
store-stored s = refl

store_data-lgsns_example :
    lookup node_id (stored historian).lgsns
    ≡ stored_after committed true node_id 99 node_id (lookup node_id historian.lgsns)
store_data-lgsns_example =
    store_data-lgsns whole committed node_id (codes "d") [] 99 fresh_node historian
      (stored historian) (store-stored historian) node_id

no_device_crashes_example :
    (receive whole committed (data_topic historian.group node_id) (some payload) historian
      ≡ ok (
          spawn whole
            (insert_data (data_topic historian.group node_id) payload)
            (ensure_node whole node_id historian)))
    × (run_insert whole committed (data_topic historian.group node_id) payload historian
        ≡ panic index_out_of_range)
no_device_crashes_example = no_device_crashes whole historian historian committed payload node_id

short_name_panics :
    log_all whole false node_id (codes "d") (metric ∷ []) historian ≡ panic slice_out_of_range
unfolding log_all log_one log_name slice36
short_name_panics = refl

abbrev joined : Sys whole
joined = ensure_node whole node_id historian

joined-stores :
    run_insert whole committed
      (codes "spBv1.0" ∷ codes "normalgw" ∷ codes "DDATA" ∷ node_id ∷ codes "d" ∷ [])
      payload
      joined
    ≡ ok (stored joined)
unfolding run_insert index ensure_node known_node spawn put_node lookup insert text_eq store_data
    queue log_all
joined-stores = refl

early_insert_moves_start_example : load_version whole node_id (stored joined) ≡ 99
early_insert_moves_start_example =
    early_insert_moves_start whole historian (stored joined) (codes "spBv1.0") (codes "normalgw")
      (codes "DDATA") node_id (codes "d") payload 99 (unfold lookup in refl) refl joined-stores

abbrev hour_file : Text
hour_file = codes "d/2026-01-01T10:00"

-- The hour's file, and what an earlier replay of it has left.
abbrev disk : Disk
disk = record {
  files = (hour_file, 1 ∷ []) ∷ (hour_file ++ recovery_suffix, 2 ∷ []) ∷ [];
  inserted = [];
}

abbrev outage : Calls
outage = record {
  renames_recovery = true;
  renames_tooold = false;
  opens = true;
  removes = true;
  replay = not_stored;
  owner = λ path. (node_id, codes "d");
}

hour_file-found : lookup hour_file disk.files ≡ some (1 ∷ [])
unfolding lookup text_eq
hour_file-found = refl

recover_file-IsKept_example :
    (lookup hour_file (recover_file outage hour_file (file 1) disk).files ≡ some (1 ∷ []))
    ⊎ IsKept outage
        (segment_of hour_file)
        (1 ∷ [])
        disk
        (recover_file outage hour_file (file 1) disk)
recover_file-IsKept_example =
    recover_file-IsKept outage hour_file (1 ∷ []) disk hour_file-found (omega arith)

abbrev disk_after : Disk
disk_after = record { files = (hour_file ++ recovery_suffix, 1 ∷ []) ∷ []; inserted = [] }

-- What an earlier replay has left is overwritten.
hour_file-overwrites : recover_file outage hour_file (file 1) disk ≡ disk_after
unfolding recover_file recover_segment replay_segment replay_content after_replay rename ends_with
    lookup insert remove text_eq
hour_file-overwrites = refl
