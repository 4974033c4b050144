-- ===== src/Historian/Codec.antt =====
-- The records of the write-ahead log, as `binary.Write` and `binary.Read` lay them out in
-- sparkplug-historian/sparkplug-sql/wal.go: 36 bytes of name, and two little-endian 64-bit words.
use native.Mathlib.Nat.{pow-suc}
use mathlib.Core.List.{append_assoc}
use nf_sdk.Base.{
  ℕ, zero, suc, ◌+◌, ◌*◌, ◌/◌, ◌%◌, ◌^◌, ◌<◌, ◌≡◌, refl, ap, ◌∙◌, List, [], ◌∷◌, ◌++◌, arith,
  length, take, drop, length-append, All, take-append, drop-append,
}

-- A field of fixed width, least significant byte first.
unfoldable pub put_le : ℕ → ℕ → List ℕ
put_le zero n = []
put_le (suc w) n = n % 256 ∷ put_le w (n / 256)

unfoldable pub get_le : ℕ → List ℕ → ℕ
get_le zero bs = 0
get_le (suc w) [] = 0
get_le (suc w) (b ∷ bs) = b + 256 * get_le w bs

pub length-put_le : (w n : ℕ) → length (put_le w n) ≡ w
unfolding put_le
length-put_le zero n = refl
length-put_le (suc w) n = ap suc (length-put_le w (n / 256))

-- A word that fits its width reads back, whatever follows it.
pub get_le-put_le : (w n : ℕ) (rest : List ℕ) → n < 256 ^ w → get_le w (put_le w n ++ rest) ≡ n
unfolding put_le get_le
get_le-put_le zero n rest h = omega arith
get_le-put_le (suc w) n rest h =
    omega (arith, get_le-put_le w (n / 256) rest (omega (arith, pow-suc 256 w)))

-- `record`, with the bits of the float64.
pub record Record : Type 0 where
  pub name : List ℕ
  pub ts : ℕ
  pub val : ℕ

abbrev pub record_size : ℕ
record_size = 52

unfoldable pub encode : Record → List ℕ
encode r = r.name ++ (put_le 8 r.ts ++ put_le 8 r.val)

unfoldable pub decode : List ℕ → Record
decode bs = record {
  name = take 36 bs;
  ts = get_le 8 (drop 36 bs);
  val = get_le 8 (drop 8 (drop 36 bs));
}

unfoldable pub decode_many : ℕ → List ℕ → List Record
decode_many zero bs = []
decode_many (suc n) bs = decode bs ∷ decode_many n (drop record_size bs)

-- The reading part of `recoverFile`: as many records as the size has room for.
unfoldable pub read_records : List ℕ → List Record
read_records bs = decode_many (length bs / record_size) bs

unfoldable pub encode_many : List Record → List ℕ
encode_many [] = []
encode_many (r ∷ rs) = encode r ++ encode_many rs

-- A name of 36 bytes and two words of 64 bits.
pub record Fits (r : Record) : Type 0 where
  pub name : length r.name ≡ 36
  pub ts : r.ts < 2 ^ 64
  pub val : r.val < 2 ^ 64

length-encode : (r : Record) → Fits r → length (encode r) ≡ 52
unfolding encode
length-encode r f = omega (
  arith,
  length-append r.name (put_le 8 r.ts ++ put_le 8 r.val),
  length-append (put_le 8 r.ts) (put_le 8 r.val),
  length-put_le 8 r.ts,
  length-put_le 8 r.val,
  f.name,
)

-- The three fields as they lie in the file.
laid_out :
    (r : Record) (rest : List ℕ)
    → encode r ++ rest ≡ r.name ++ (put_le 8 r.ts ++ (put_le 8 r.val ++ rest))
unfolding encode
laid_out r rest = simp append_assoc

decode_laid :
    (r : Record) (rest : List ℕ)
    → Fits r
    → decode (r.name ++ (put_le 8 r.ts ++ (put_le 8 r.val ++ rest))) ≡ r
unfolding decode
decode_laid r rest f =
    let tail : List ℕ = put_le 8 r.ts ++ (put_le 8 r.val ++ rest) in
    let words : drop 36 (r.name ++ tail) ≡ tail = drop-append 36 r.name tail f.name in
    let last : drop 8 tail ≡ put_le 8 r.val ++ rest =
      drop-append 8 (put_le 8 r.ts) (put_le 8 r.val ++ rest) (length-put_le 8 r.ts) in
    simp (
      take-append 36 r.name tail f.name,
      words,
      last,
      get_le-put_le 8 r.ts (put_le 8 r.val ++ rest) f.ts,
      get_le-put_le 8 r.val rest f.val,
    )

decode-encode : (r : Record) (rest : List ℕ) → Fits r → decode (encode r ++ rest) ≡ r
decode-encode r rest f = ap decode (laid_out r rest) ∙ decode_laid r rest f

length-encode_many : (rs : List Record) → All Fits rs → length (encode_many rs) ≡ 52 * length rs
unfolding encode_many
length-encode_many [] f = refl
length-encode_many (r ∷ rs) f = omega (
  arith,
  length-append (encode r) (encode_many rs),
  length-encode r f.0,
  length-encode_many rs f.1,
)

decode_many-encode_many :
    (rs : List Record) (torn : List ℕ)
    → All Fits rs
    → decode_many (length rs) (encode_many rs ++ torn) ≡ rs
unfolding decode_many encode_many
decode_many-encode_many [] torn f = refl
decode_many-encode_many (r ∷ rs) torn f = rw (
  append_assoc,
  decode-encode r (encode_many rs ++ torn) f.0,
  drop-append 52 (encode r) (encode_many rs ++ torn) (length-encode r f.0),
  decode_many-encode_many rs torn f.1,
)

-- A log of whole records, with less than one more after them, reads back as those records.
pub read_records-encode_many :
    (rs : List Record) (torn : List ℕ)
    → All Fits rs
    → length torn < record_size
    → read_records (encode_many rs ++ torn) ≡ rs
unfolding read_records
read_records-encode_many rs torn f short =
    let count : length (encode_many rs ++ torn) / 52 ≡ length rs =
      omega (arith, length-append (encode_many rs) torn, length-encode_many rs f) in
    rw count (decode_many-encode_many rs torn f)
