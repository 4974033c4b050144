-- ===== src/Historian/Segment.antt =====
-- The replay of a log file: `recoverFile` and `insertRecoveryData` of
-- sparkplug-historian/sparkplug-sql/wal.go. A call that fails leaves the files as they are.
use nf_sdk.Base.{
  ℕ, ◌/◌, ◌*◌, ◌==◌, ltb, Bool, Option, none, some, List, [], ◌∷◌, ◌++◌, Text, codes, ends_with,
  length, lookup, insert, remove, if◌then◌else◌,
}
use nf_sdk.Historian.Codec.{Record, record_size, decode_many}

-- What `filepath.Walk` says of a path; nil is `no_info`.
pub data Info : Type 0 where
  no_info directory : Info
  file : ℕ → Info

-- How the transaction of `insertRecoveryData` ends: its error may contain "not permitted on chunk".
pub data Replay : Type 0 where
  stored chunk_closed not_stored : Replay

-- Which of the calls succeed, and the node and device in a path.
pub record Calls : Type 0 where
  pub renames_recovery : Bool
  pub renames_tooold : Bool
  pub opens : Bool
  pub removes : Bool
  pub replay : Replay
  pub owner : Text → Text × Text

pub record Batch : Type 0 where
  pub owner : Text × Text
  pub records : List Record

pub record Disk : Type 0 where
  pub files : List (Text × List ℕ)
  pub inserted : List Batch

abbrev pub recovery_suffix : Text
recovery_suffix = codes ".recovery"

abbrev pub tooold_suffix : Text
tooold_suffix = codes ".tooold"

moved : Text → Text → Option (List ℕ) → List (Text × List ℕ) → List (Text × List ℕ)
moved from to none fs = fs
moved from to (some c) fs = insert to c (remove from fs)

-- `os.Rename`, which replaces what has the new name; `from` and `to` differ.
unfoldable pub rename : Text → Text → Disk → Disk
unfolding moved
rename from to d = record d { files = moved from to (lookup from d.files) d.files }

unfoldable pub remove_file : Bool → Text → Disk → Disk
remove_file removes path d = if removes then record d { files = remove path d.files } else d

-- What follows the insertion.
unfoldable pub after_replay : Replay → Calls → Text → List Record → Disk → Disk
unfolding remove_file
after_replay stored calls path records d = remove_file calls.removes path (record d {
  inserted = d.inserted ++ record { owner = calls.owner path; records = records } ∷ [];
})
after_replay chunk_closed calls path records d =
    if calls.renames_tooold then rename path (path ++ tooold_suffix) d else d
after_replay not_stored calls path records d = d

-- The records that the size has room for, if the file has that many bytes.
unfoldable pub replay_content : Calls → Text → ℕ → Option (List ℕ) → Disk → Disk
unfolding after_replay
replay_content calls path size none d = d
replay_content calls path size (some c) d =
    if ltb (length c) (size / record_size * record_size)
    then d
    else after_replay calls.replay calls path (decode_many (size / record_size) c) d

unfoldable pub replay_segment : Calls → Text → ℕ → Disk → Disk
unfolding replay_content
replay_segment calls path size d =
    if calls.opens then replay_content calls path size (lookup path d.files) d else d

unfoldable pub recover_segment : Calls → Text → ℕ → Disk → Disk
unfolding replay_segment
recover_segment calls path size d =
    if ends_with path recovery_suffix
    then replay_segment calls path size d
    else if calls.renames_recovery
    then replay_segment calls (path ++ recovery_suffix) size
        (rename path (path ++ recovery_suffix) d)
    else d

-- `recoverFile`
unfoldable pub recover_file : Calls → Text → Info → Disk → Disk
unfolding recover_segment
recover_file calls path no_info d = d
recover_file calls path directory d = d
recover_file calls path (file size) d =
    if size == 0
    then remove_file calls.removes path d
    else if ends_with path tooold_suffix
    then d
    else recover_segment calls path size d
