-- ===== src/Prober/Wire.antt =====
-- A connection as the prober uses it: `net.Conn`, `io.ReadFull` and `io.CopyN`. A text is its bytes;
-- the error of a write is given with the words that the caller puts before it.
use nf_sdk.Base.{
  ℕ, Option, none, some, List, [], ◌∷◌, ◌++◌, Text, codes, length, take, drop, ltb, if◌then◌else◌,
}

pub data Answer (A : Type 0) : Type 0 where
  answered : A → Answer A
  failed : Text → Answer A

-- The bytes that the peer will have sent, the bytes that were written, and how the writes end that
-- are still to come; a write past the end of that list succeeds.
pub record Conn : Type 0 where
  pub input : List ℕ
  pub output : List ℕ
  pub writes : List (Option Text)

abbrev pub Io : Type 0 → Type 0
Io A = Conn → Answer A × Conn

abbrev pub proceed : {A B : Type 0} → Answer A → (A → Io B) → Io B
proceed (answered a) f c = f a c
proceed (failed e) f c = (failed e, c)

infixl 5 ◌>>=◌ ◌>>◌
abbrev pub ◌>>=◌ : {A B : Type 0} → Io A → (A → Io B) → Io B
◌>>=◌ m f c = let (r, c') = m c in proceed r f c'

abbrev pub ◌>>◌ : {B : Type 0} → Io (Unit {0}) → Io B → Io B
m >> n = m >>= λ _. n

abbrev pub pure : {A : Type 0} → A → Io A
pure a c = (answered a, c)

abbrev pub fail : {A : Type 0} → Text → Io A
fail e c = (failed e, c)

abbrev written : List ℕ → List (Option Text) → Io (Unit {0})
written bs [] c = (answered tt, record c { output = c.output ++ bs })
written bs (none ∷ ws) c = (answered tt, record c { output = c.output ++ bs; writes = ws })
written bs (some e ∷ ws) c = (failed e, record c { writes = ws })

-- `conn.Write`
unfoldable pub write : List ℕ → Io (Unit {0})
write bs c = written bs c.writes c

-- `io.ReadFull`
unfoldable pub read_full : ℕ → Io (List ℕ)
read_full n c =
    if ltb (length c.input) n
    then (failed (codes "unexpected EOF"), record c { input = [] })
    else (answered (take n c.input), record c { input = drop n c.input })

-- `io.CopyN(io.Discard, conn, n)`
unfoldable pub discard : ℕ → Io (Unit {0})
discard n c =
    if ltb (length c.input) n
    then (failed (codes "EOF"), record c { input = [] })
    else (answered tt, record c { input = drop n c.input })
