-- ===== src/Store/Atomic.antt =====
-- What `writeJSONAtomic` of balena/network-config/internal/store/config.go leaves, wherever it ends or
-- is cut off.
use nf_sdk.Base.{
  ℕ, false, Option, none, some, List, [], ◌∷◌, ◌++◌, Text, codes, map, take, insert, remove, lookup,
  lookup-insert, lookup-remove, text_eq, text_eq_iff, text_eq_refl, text_eq_comm, length,
  length-append, All, ◌≡◌, ◌∙◌, refl, ap, ◌⊎◌, inl, inr, arith, Bool-cases,
}
use nf_sdk.Prober.Wire.{answered}
use nf_sdk.Store.Files.{
  Disk, Calls, Written, temporary, partly, filled, while_writing, renamed, written, created,
  encoded, write_json_atomic,
}

-- A disk on which the path holds what it held, or `bytes`, and every other path but the temporary one
-- what it held.
pub record IsSafe (path : Text) (d : Disk) (bytes : List ℕ) (s : Disk) : Type 0 where
  pub content : (lookup path s ≡ lookup path d) ⊎ (lookup path s ≡ some bytes)
  pub others :
      (other : Text)
      → text_eq path other ≡ false
      → text_eq (temporary path) other ≡ false
      → lookup other s ≡ lookup other d

-- The path has the new bytes where there was no error, and otherwise what it had.
abbrev pub Ends : Text → Disk → List ℕ → Option Text → Disk → Type 0
Ends path d bytes none s = (lookup path s ≡ some bytes) × (lookup (temporary path) s ≡ none)
Ends path d bytes (some e) s = lookup path s ≡ lookup path d

abbrev pub IsWritten : Text → Disk → List ℕ → Written → Type 0
IsWritten path d bytes w =
    Ends path d bytes w.error w.disk × All (IsSafe path d bytes) (w.disk ∷ w.before)

temporary-differs : (path : Text) → text_eq (temporary path) path ≡ false
unfolding temporary
temporary-differs path = elim (Bool-cases (text_eq (path ++ codes ".tmp") path)) [
  | inl e ↦
      let same : length (path ++ codes ".tmp") ≡ length path =
        ap length ((text_eq_iff (path ++ codes ".tmp") path).0 e) in
      absurd (omega (arith, length-append path (codes ".tmp"), same))
  | inr e ↦ e
]

module _ (path : Text) (d : Disk) (bytes : List ℕ) where
  unchanged-IsSafe : IsSafe path d bytes d
  unchanged-IsSafe = record { content = inl refl; others = λ other h k. refl }

  beside :
      (some_bytes : List ℕ) → lookup path (insert (temporary path) some_bytes d) ≡ lookup path d
  beside some_bytes =
      lookup-insert (temporary path) path some_bytes d ∙ (rw (temporary-differs path) refl)

  temporary-IsSafe :
      (some_bytes : List ℕ) → IsSafe path d bytes (insert (temporary path) some_bytes d)
  temporary-IsSafe some_bytes = record {
    content = inl (beside some_bytes);
    others = λ other h k. lookup-insert (temporary path) other some_bytes d ∙ (rw k refl);
  }

  replaced : Disk
  replaced = insert path bytes (remove (temporary path) d)

  replaced-IsSafe : IsSafe path d bytes (insert path bytes (remove (temporary path) d))
  replaced-IsSafe = record {
    content =
        inr (
          lookup-insert path path bytes (remove (temporary path) d)
          ∙ (rw (text_eq_refl path) refl));
    others = λ other h k.
        lookup-insert path other bytes (remove (temporary path) d)
        ∙ (rw h (lookup-remove (temporary path) other d ∙ (rw k refl)));
  }

  replaced-Ends : Ends path d bytes none (insert path bytes (remove (temporary path) d))
  replaced-Ends = (
    lookup-insert path path bytes (remove (temporary path) d) ∙ (rw (text_eq_refl path) refl),
    lookup-insert path (temporary path) bytes (remove (temporary path) d)
        ∙ (rw (text_eq_comm path (temporary path), temporary-differs path)
            (lookup-remove (temporary path) (temporary path) d
              ∙ (rw (text_eq_refl (temporary path)) refl))),
  )

  module _ (calls : Calls) where
    partly-IsSafe : (n : ℕ) → IsSafe path d bytes (partly calls path d bytes n)
    unfolding partly
    partly-IsSafe n = temporary-IsSafe (take n bytes)

    each-IsSafe : (ns : List ℕ) → All (IsSafe path d bytes) (map (partly calls path d bytes) ns)
    each-IsSafe [] = tt
    each-IsSafe (n ∷ ns) = (partly-IsSafe n, each-IsSafe ns)

    while_writing-IsSafe : All (IsSafe path d bytes) (while_writing calls path d bytes)
    unfolding while_writing
    while_writing-IsSafe = (partly-IsSafe 0, each-IsSafe calls.so_far)

    filled-IsSafe : IsSafe path d bytes (filled calls path d bytes)
    unfolding filled
    filled-IsSafe = temporary-IsSafe bytes

    renamed-IsWritten : (o : Option Text) → IsWritten path d bytes (renamed calls path d bytes o)
    unfolding renamed filled
    renamed-IsWritten (some e) =
        (beside bytes, (filled-IsSafe, (unchanged-IsSafe, while_writing-IsSafe)))
    renamed-IsWritten none = (
      replaced-Ends,
      (replaced-IsSafe, (filled-IsSafe, (unchanged-IsSafe, while_writing-IsSafe))),
    )

    written-IsWritten : (o : Option Text) → IsWritten path d bytes (written calls path d bytes o)
    unfolding written partly
    written-IsWritten (some e) = (
      beside (take calls.left bytes),
      (partly-IsSafe calls.left, (unchanged-IsSafe, while_writing-IsSafe)),
    )
    written-IsWritten none = renamed-IsWritten calls.rename

    created-IsWritten : (o : Option Text) → IsWritten path d bytes (created calls path d bytes o)
    unfolding created
    created-IsWritten (some e) = (refl, (unchanged-IsSafe, tt))
    created-IsWritten none = written-IsWritten calls.write

-- Whatever the system calls answer, and wherever the process is stopped between two of them, the path
-- holds the whole of what it held or the whole of the new value, and no path but it and the temporary
-- one is touched. Where there is no error the path holds the new value and the temporary file is gone,
-- otherwise the path holds what it held.
pub write_json_atomic-IsWritten :
    (calls : Calls) (path : Text) (d : Disk) (bytes : List ℕ)
    → calls.encode ≡ answered bytes
    → IsWritten path d bytes (write_json_atomic calls path d)
unfolding write_json_atomic encoded
write_json_atomic-IsWritten calls path d bytes e =
    rw e (created-IsWritten path d bytes calls calls.create)
