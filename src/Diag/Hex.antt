-- ===== src/Diag/Hex.antt =====
-- The addresses of /proc/net/route as the kernel prints them, for `parseHexIPLE` of
-- balena/network-config/internal/diag/net.go.
use nf_sdk.Base.{
  ℕ, ◌+◌, ◌-◌, ◌*◌, ◌/◌, ◌%◌, ◌^◌, ◌<◌, Bool, true, false, ◌&&◌, some, [], ◌∷◌, Text, codes,
  text_eq, ltb, ◌==◌, if◌then◌else◌, is_space, ◌≡◌, ◌∙◌, refl, ap, arith, All,
}
use nf_sdk.Diag.Icmp.{byte_length, utf8_size}
use nf_sdk.Diag.Route.{
  hex_value, hex_digits, parse_hex_32, fits_32, dotted, address_of, parse_hex_ip_le,
}

pub record Octets : Type 0 where
  pub a : ℕ
  pub b : ℕ
  pub c : ℕ
  pub d : ℕ

unfoldable pub IsOctets : Octets → Type 0
IsOctets o = (o.a < 256) × (o.b < 256) × (o.c < 256) × (o.d < 256)

unfoldable pub hex_digit : ℕ → ℕ
hex_digit n = if ltb n 10 then b'0' + n else b'A' + (n - 10)

-- `%02X`, before a text
abbrev pub hex_byte : ℕ → Text → Text
hex_byte n s = hex_digit (n / 16) ∷ hex_digit (n % 16) ∷ s

-- `%08X` of an address in network order, on a little-endian machine, before a text.
abbrev pub hex_le : Octets → Text → Text
hex_le o s = hex_byte o.d (hex_byte o.c (hex_byte o.b (hex_byte o.a s)))

hex_value-hex_digit : (n : ℕ) → n < 16 → hex_value (hex_digit n) ≡ some n
unfolding hex_value hex_digit
hex_value-hex_digit n h = ground arith

hex_digits-next :
    (v c d : ℕ) (s : Text) → hex_value c ≡ some d → hex_digits v (c ∷ s) ≡ hex_digits (v * 16 + d) s
unfolding hex_digits
hex_digits-next v c d s e = rw (e, hex_digits) refl

hex_digits-two :
    (v n : ℕ) (s : Text) → n < 256 → hex_digits v (hex_byte n s) ≡ hex_digits (v * 256 + n) s
hex_digits-two v n s h =
    let sum : (v * 16 + n / 16) * 16 + n % 16 ≡ v * 256 + n = omega arith in
    hex_digits-next v (hex_digit (n / 16)) (n / 16) _ (hex_value-hex_digit (n / 16) (omega arith))
    ∙ hex_digits-next (v * 16 + n / 16) (hex_digit (n % 16)) (n % 16) s
        (hex_value-hex_digit (n % 16) (omega arith))
    ∙ ap (λ k. hex_digits k s) sum

number_of : Octets → ℕ
number_of o = ((o.d * 256 + o.c) * 256 + o.b) * 256 + o.a

hex_digits-hex_le : (o : Octets) → IsOctets o → hex_digits 0 (hex_le o []) ≡ some (number_of o)
unfolding hex_digits IsOctets number_of
hex_digits-hex_le o h =
    hex_digits-two 0 o.d (hex_byte o.c (hex_byte o.b (hex_byte o.a []))) h.3
    ∙ hex_digits-two (0 * 256 + o.d) o.c (hex_byte o.b (hex_byte o.a [])) h.2
    ∙ hex_digits-two ((0 * 256 + o.d) * 256 + o.c) o.b (hex_byte o.a []) h.1
    ∙ hex_digits-two (((0 * 256 + o.d) * 256 + o.c) * 256 + o.b) o.a [] h.0
    ∙ ap (λ k. some k)
        (let same : (((0 * 256 + o.d) * 256 + o.c) * 256 + o.b) * 256 + o.a ≡ number_of o =
            omega arith in
          same)

number_of-IsSmall : (o : Octets) → IsOctets o → number_of o < 2 ^ 32
unfolding IsOctets number_of
number_of-IsSmall o h = omega arith

fits_32-some : (v : ℕ) → v < 2 ^ 32 → fits_32 (some v) ≡ some v
fits_32-some v h = ground arith

parse_hex_32-hex_le : (o : Octets) → IsOctets o → parse_hex_32 (hex_le o []) ≡ some (number_of o)
unfolding parse_hex_32
parse_hex_32-hex_le o h =
    ap fits_32 (hex_digits-hex_le o h) ∙ fits_32-some (number_of o) (number_of-IsSmall o h)

parts_of : (o : Octets) → IsOctets o → address_of (some (number_of o)) ≡ dotted o.a o.b o.c o.d
unfolding IsOctets number_of
parts_of o h =
    let first : number_of o % 256 ≡ o.a = omega arith in
    let next : number_of o / 2 ^ 8 % 256 ≡ o.b = omega arith in
    let third : number_of o / 2 ^ 16 % 256 ≡ o.c = omega arith in
    let last : number_of o / 2 ^ 24 % 256 ≡ o.d = omega arith in rw (first, next, third, last) refl

hex_digit-IsPlain :
    (n : ℕ) → n < 16 → (utf8_size (hex_digit n) ≡ 1) × (is_space (hex_digit n) ≡ false)
unfolding hex_digit utf8_size is_space
hex_digit-IsPlain n h = ground arith

byte_length-hex_byte : (n : ℕ) (s : Text) → n < 256 → byte_length (hex_byte n s) ≡ 2 + byte_length s
unfolding byte_length
byte_length-hex_byte n s h =
    let high = hex_digit-IsPlain (n / 16) (omega arith) in
    let low = hex_digit-IsPlain (n % 16) (omega arith) in omega (arith, high.0, low.0)

byte_length-hex_le : (o : Octets) → IsOctets o → byte_length (hex_le o []) ≡ 8
unfolding IsOctets byte_length
byte_length-hex_le o h =
    let first = byte_length-hex_byte o.d (hex_byte o.c (hex_byte o.b (hex_byte o.a []))) h.3 in
    let next = byte_length-hex_byte o.c (hex_byte o.b (hex_byte o.a [])) h.2 in
    let third = byte_length-hex_byte o.b (hex_byte o.a []) h.1 in
    let last = byte_length-hex_byte o.a [] h.0 in omega (arith, first, next, third, last)

pub parse_hex_ip_le-hex_le :
    (o : Octets) → IsOctets o → parse_hex_ip_le (hex_le o []) ≡ dotted o.a o.b o.c o.d
unfolding parse_hex_ip_le
parse_hex_ip_le-hex_le o h =
    let size : (byte_length (hex_le o []) == 8) ≡ true = rw (byte_length-hex_le o h) refl in
    rw (size, parse_hex_32-hex_le o h) (parts_of o h)

abbrev pub is_zero : Octets → Bool
is_zero o = o.a == 0 && o.b == 0 && o.c == 0 && o.d == 0

hex_digit-zero : (n : ℕ) → n < 16 → (hex_digit n == b'0') ≡ (n == 0)
unfolding hex_digit
hex_digit-zero n h = ground arith

hex_byte-zero :
    (n : ℕ) (s t : Text)
    → n < 256
    → text_eq (hex_byte n s) (b'0' ∷ b'0' ∷ t) ≡ (n == 0 && text_eq s t)
unfolding text_eq
hex_byte-zero n s t h =
    let high = hex_digit-zero (n / 16) (omega arith) in
    let low = hex_digit-zero (n % 16) (omega arith) in rw (high, low) (ground arith)

pub hex_le-zero : (o : Octets) → IsOctets o → text_eq (hex_le o []) (codes "00000000") ≡ is_zero o
unfolding IsOctets text_eq
hex_le-zero o h =
    rw
      (
        hex_byte-zero o.d (hex_byte o.c (hex_byte o.b (hex_byte o.a []))) (codes "000000") h.3,
        hex_byte-zero o.c (hex_byte o.b (hex_byte o.a [])) (codes "0000") h.2,
        hex_byte-zero o.b (hex_byte o.a []) (codes "00") h.1,
        hex_byte-zero o.a [] [] h.0,
      )
      (ground arith)

hex_byte-All :
    (n : ℕ) (s : Text)
    → n < 256
    → All (λ x. is_space x ≡ false) s
    → All (λ x. is_space x ≡ false) (hex_byte n s)
hex_byte-All n s h k = (
  (hex_digit-IsPlain (n / 16) (omega arith)).1,
  ((hex_digit-IsPlain (n % 16) (omega arith)).1, k),
)

pub hex_le-All : (o : Octets) → IsOctets o → All (λ x. is_space x ≡ false) (hex_le o [])
unfolding IsOctets
hex_le-All o h = hex_byte-All o.d (hex_byte o.c (hex_byte o.b (hex_byte o.a []))) h.3 (
    hex_byte-All o.c (hex_byte o.b (hex_byte o.a [])) h.2
      (hex_byte-All o.b (hex_byte o.a []) h.1 (hex_byte-All o.a [] h.0 tt)))
