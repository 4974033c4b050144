-- ===== src/Store/Files.antt =====
-- How the stores write their files: `writeJSONAtomic` of
-- balena/network-config/internal/store/config.go. A disk gives each path its bytes; what the system
-- calls of one write answer is a parameter.
use nf_sdk.Base.{ℕ, Option, none, some, List, [], ◌∷◌, ◌++◌, Text, codes, map, take, insert, remove}
use nf_sdk.Prober.Wire.{Answer, answered, failed}

abbrev pub Disk : Type 0
Disk = List (Text × List ℕ)

-- The encoded value; the error of creating the file; after each write of `os.WriteFile` the number of
-- bytes that the file has, at last `left`; the error of a write; the error of the renaming.
pub record Calls : Type 0 where
  pub encode : Answer (List ℕ)
  pub create : Option Text
  pub so_far : List ℕ
  pub left : ℕ
  pub write : Option Text
  pub rename : Option Text

-- The error, the disk at the end, and the disks before it from the first effect on: what a crash at
-- each point leaves.
pub record Written : Type 0 where
  pub error : Option Text
  pub disk : Disk
  pub before : List Disk

unfoldable pub temporary : Text → Text
temporary path = path ++ codes ".tmp"

module _ (calls : Calls) (path : Text) (d : Disk) where
  -- The temporary file while it is written.
  unfoldable pub partly : List ℕ → ℕ → Disk
  unfolding temporary
  partly bytes n = insert (temporary path) (take n bytes) d

  unfoldable pub filled : List ℕ → Disk
  unfolding temporary
  filled bytes = insert (temporary path) bytes d

  unfoldable pub while_writing : List ℕ → List Disk
  unfolding partly
  while_writing bytes = partly bytes 0 ∷ map (partly bytes) calls.so_far

  -- `os.Rename`
  unfoldable pub renamed : List ℕ → Option Text → Written
  unfolding filled while_writing temporary
  renamed bytes (some e) = record {
    error = some e;
    disk = filled bytes;
    before = d ∷ while_writing bytes;
  }
  renamed bytes none = record {
    error = none;
    disk = insert path bytes (remove (temporary path) d);
    before = filled bytes ∷ d ∷ while_writing bytes;
  }

  -- `os.WriteFile`
  unfoldable pub written : List ℕ → Option Text → Written
  unfolding partly while_writing renamed
  written bytes (some e) = record {
    error = some e;
    disk = partly bytes calls.left;
    before = d ∷ while_writing bytes;
  }
  written bytes none = renamed bytes calls.rename

  unfoldable pub created : List ℕ → Option Text → Written
  unfolding written
  created bytes (some e) = record { error = some e; disk = d; before = [] }
  created bytes none = written bytes calls.write

  unfoldable pub encoded : Answer (List ℕ) → Written
  unfolding created
  encoded (failed e) = record { error = some e; disk = d; before = [] }
  encoded (answered bytes) = created bytes calls.create

  unfoldable pub write_json_atomic : Written
  unfolding encoded
  write_json_atomic = encoded calls.encode
