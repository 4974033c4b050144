-- ===== src/Historian/Replay.antt =====
-- What a replay keeps of the log.
use nf_sdk.Base.{
  ℕ, ◌/◌, ◌*◌, ◌==◌, ◌<◌, ltb, ◌≡◌, refl, ◌⊎◌, inl, inr, Bool, true, false, some, List, [], ◌∷◌,
  ◌++◌, Text, ends_with, length, lookup, remove, lookup-insert_self, if◌then◌else◌, arith,
  Bool-cases, if_both,
}
use nf_sdk.Historian.Codec.{record_size, decode_many}
use nf_sdk.Historian.Segment.{
  file, Replay, stored, chunk_closed, not_stored, Calls, Disk, recovery_suffix, tooold_suffix,
  rename, remove_file, after_replay, replay_content, replay_segment, recover_segment, recover_file,
}

rename-to :
    (from to : Text) (c : List ℕ) (d : Disk)
    → lookup from d.files ≡ some c
    → lookup to (rename from to d).files ≡ some c
unfolding rename
rename-to from to c d e = rw e (lookup-insert_self to c (remove from d.files))

-- The content `c` of a segment is still in a file, or was stored.
abbrev pub IsKept : Calls → Text → List ℕ → Disk → Disk → Type 0
IsKept calls path c d d' =
    (lookup path d'.files ≡ some c)
    ⊎ ((lookup (path ++ tooold_suffix) d'.files ≡ some c)
        ⊎ (d'.inserted
            ≡ d.inserted
              ++ record {
                owner = calls.owner path;
                records = decode_many (length c / record_size) c;
              }
                ∷ []))

remove_file-inserted :
    (removes : Bool) (path : Text) (d : Disk) → (remove_file removes path d).inserted ≡ d.inserted
unfolding remove_file
remove_file-inserted true path d = refl
remove_file-inserted false path d = refl

set_aside-IsKept :
    (renames : Bool) (calls : Calls) (path : Text) (c : List ℕ) (d : Disk)
    → lookup path d.files ≡ some c
    → IsKept calls path c d (if renames then rename path (path ++ tooold_suffix) d else d)
set_aside-IsKept true calls path c d e = inr (inl (rename-to path (path ++ tooold_suffix) c d e))
set_aside-IsKept false calls path c d e = inl e

after_replay-IsKept :
    (r : Replay) (calls : Calls) (path : Text) (c : List ℕ) (d : Disk)
    → lookup path d.files ≡ some c
    → IsKept calls path c d (after_replay r calls path (decode_many (length c / record_size) c) d)
unfolding after_replay
after_replay-IsKept stored calls path c d e = inr (inr (remove_file-inserted calls.removes path _))
after_replay-IsKept chunk_closed calls path c d e =
    set_aside-IsKept calls.renames_tooold calls path c d e
after_replay-IsKept not_stored calls path c d e = inl e

replay_content-IsKept :
    (calls : Calls) (path : Text) (c : List ℕ) (d : Disk)
    → lookup path d.files ≡ some c
    → IsKept calls path c d (replay_content calls path (length c) (some c) d)
unfolding replay_content
replay_content-IsKept calls path c d e =
    let whole : ltb (length c) (length c / record_size * record_size) ≡ false = ground arith in
    rw whole (after_replay-IsKept calls.replay calls path c d e)

replay_segment-IsKept :
    (calls : Calls) (path : Text) (c : List ℕ) (d : Disk)
    → lookup path d.files ≡ some c
    → IsKept calls path c d (replay_segment calls path (length c) d)
unfolding replay_segment
replay_segment-IsKept calls path c d e =
    if_both (IsKept calls path c d) calls.opens
      (replay_content calls path (length c) (lookup path d.files) d) d
      (rw e (replay_content-IsKept calls path c d e)) (inl e)

-- The name under which a segment is replayed.
abbrev pub segment_of : Text → Text
segment_of path = if ends_with path recovery_suffix then path else path ++ recovery_suffix

renamed-IsKept :
    (calls : Calls) (path to : Text) (c : List ℕ) (d : Disk)
    → lookup path d.files ≡ some c
    → IsKept calls to c d (replay_segment calls to (length c) (rename path to d))
unfolding rename
renamed-IsKept calls path to c d e =
    replay_segment-IsKept calls to c (rename path to d) (rename-to path to c d e)

recover_segment-IsKept :
    (calls : Calls) (path : Text) (c : List ℕ) (d : Disk)
    → lookup path d.files ≡ some c
    → (lookup path (recover_segment calls path (length c) d).files ≡ some c)
      ⊎ IsKept calls (segment_of path) c d (recover_segment calls path (length c) d)
unfolding recover_segment
recover_segment-IsKept calls path c d e = elim (Bool-cases (ends_with path recovery_suffix)) [
  | inl renamed ↦ rw renamed (inr (replay_segment-IsKept calls path c d e))
  | inr plain ↦
      let to : Text = path ++ recovery_suffix in
      rw plain (
        if_both (λ d'. (lookup path d'.files ≡ some c) ⊎ IsKept calls to c d d')
          calls.renames_recovery (replay_segment calls to (length c) (rename path to d)) d
          (inr (renamed-IsKept calls path to c d e)) (inl e))
]

-- The content of a file that is not empty, and whose size was read as it is, is not lost by a replay,
-- whichever of the calls fail, the two renamings apart: it is still in the file, or under one of the
-- two names that a replay gives it, or its records were stored.
pub recover_file-IsKept :
    (calls : Calls) (path : Text) (c : List ℕ) (d : Disk)
    → lookup path d.files ≡ some c
    → 0 < length c
    → (lookup path (recover_file calls path (file (length c)) d).files ≡ some c)
      ⊎ IsKept calls (segment_of path) c d (recover_file calls path (file (length c)) d)
unfolding recover_file
recover_file-IsKept calls path c d e filled =
    let there : (length c == 0) ≡ false = ground arith in
    rw there (
      if_both (λ d'. (lookup path d'.files ≡ some c) ⊎ IsKept calls (segment_of path) c d d')
        (ends_with path tooold_suffix) d (recover_segment calls path (length c) d) (inl e)
        (recover_segment-IsKept calls path c d e))
