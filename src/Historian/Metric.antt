-- ===== src/Historian/Metric.antt =====
-- Sparkplug metrics and the ways a Go handler can panic: `makeScalar` and `getBDSeq` of
-- sparkplug-historian/sparkplug-sql/historian.go. Strings are lists of bytes here, floats a parameter.
use nf_sdk.Base.{
  ℕ, ℤ, pos, Bool, false, Option, none, some, List, [], ◌∷◌, Text, codes, text_eq, if◌then◌else◌,
  ◌≡◌,
}

pub data Panic : Type 0 where
  index_out_of_range nil_dereference slice_out_of_range begin_failed : Panic

pub data Run (A : Type 0) : Type 0 where
  ok : A → Run A
  panic : Panic → Run A

infixl 5 ◌>>=◌
abbrev pub ◌>>=◌ : {A B : Type 0} → Run A → (A → Run B) → Run B
ok a >>= f = f a
panic p >>= f = panic p

-- `*p`
abbrev pub deref : {A : Type 0} → Option A → Run A
deref none = panic nil_dereference
deref (some a) = ok a

-- Go's floats: the conversions that the historian makes, and the bits of a float64.
pub record Floats : Type 1 where
  pub F : Type 0
  pub F32 : Type 0
  pub nan : F
  pub zero_f : F
  pub one_f : F
  pub of_uint32 : ℕ → F
  pub of_uint64 : ℕ → F
  pub of_float32 : F32 → F
  pub to_int : F → ℤ
  pub bits : F → ℕ
  pub of_bits : ℕ → F
  pub of_bits-bits : (x : F) → of_bits (bits x) ≡ x

module _ (floats : Floats) where
  open floats use {F, F32, nan, zero_f, one_f, of_uint32, of_uint64, of_float32, to_int}

  pub data Value : Type 0 where
    int_value long_value : ℕ → Value
    double_value : F → Value
    float_value : F32 → Value
    boolean_value : Bool → Value
    other_value : Value

  -- `Payload_Metric`; a nil pointer is `none`.
  pub record Metric : Type 0 where
    pub name : Option Text
    pub alias : Option ℕ
    pub timestamp : Option ℕ
    pub is_historical : Option Bool
    pub is_null : Option Bool
    pub value : Value

  -- `p != nil && *p`
  abbrev pub holds : Option Bool → Bool
  holds none = false
  holds (some b) = b

  unfoldable pub scalar_of : Value → F
  scalar_of (int_value n) = of_uint32 n
  scalar_of (long_value n) = of_uint64 n
  scalar_of (double_value x) = x
  scalar_of (float_value x) = of_float32 x
  scalar_of (boolean_value b) = if b then one_f else zero_f
  scalar_of other_value = nan

  unfoldable pub make_scalar : Metric → F
  unfolding scalar_of
  make_scalar m = if holds m.is_null then nan else scalar_of m.value

  bd_seq_from : ℤ → List Metric → Run ℤ
  bd_seq_from seq [] = ok seq
  bd_seq_from seq (m ∷ ms) = deref m.name >>= λ name.
      bd_seq_from (if text_eq name (codes "bdSeq") then to_int (make_scalar m) else seq) ms

  unfoldable pub get_bd_seq : List Metric → Run ℤ
  unfolding bd_seq_from
  get_bd_seq ms = bd_seq_from (pos 0) ms
