-- ===== src/Netmgr/Dictionary.antt =====
-- NetworkManager's dictionaries of settings: `Settings`, `str`, `i64` and `sanitize` of
-- balena/network-config/internal/netmgr/nm.go.
use nf_sdk.Base.{
  ℕ, ◌-◌, ◌^◌, ltb, ℤ, pos, negsuc, Bool, Option, none, some, List, [], Text, codes, lookup, insert,
  remove, if◌then◌else◌,
}

-- `dbus.Variant`, with the types that the code reads; `other` is a value of another type.
pub data Variant : Type 0 where
  text : Text → Variant
  flag : Bool → Variant
  int32 int64 : ℤ → Variant
  uint32 uint64 : ℕ → Variant
  bytes : Text → Variant
  addresses : Text → ℕ → Variant
  uint32s : List ℕ → Variant
  texts : List Text → Variant
  other : ℕ → Variant

abbrev pub Section : Type 0
Section = List (Text × Variant)

abbrev pub Settings : Type 0
Settings = List (Text × Section)

abbrev pub or_empty : Option Section → Section
or_empty none = []
or_empty (some kv) = kv

abbrev pub value_of : Settings → Text → Text → Option Variant
value_of s section key = lookup key (or_empty (lookup section s))

abbrev text_in : Option Variant → Text
text_in (some (text t)) = t
text_in _ = []

-- `str`
unfoldable pub str : Settings → Text → Text → Text
str s section key = text_in (value_of s section key)

-- `int64(n)` of a uint64
signed64 : ℕ → ℤ
signed64 n = if ltb n (2 ^ 63) then pos n else negsuc (2 ^ 64 - 1 - n)

int_in : Option Variant → ℤ
unfolding signed64
int_in (some (int64 n)) = n
int_in (some (uint64 n)) = signed64 n
int_in (some (int32 n)) = n
int_in (some (uint32 n)) = pos n
int_in _ = pos 0

-- `i64`
unfoldable pub i64 : Settings → Text → Text → ℤ
unfolding int_in
i64 s section key = int_in (value_of s section key)

unfoldable pub clean_section : Text → Option Section → Settings → Settings
clean_section name none s = s
clean_section name (some kv) s =
    insert name (remove (codes "routes") (remove (codes "addresses") kv)) s

abbrev clean : Text → Settings → Settings
clean name s = clean_section name (lookup name s) s

-- `sanitize`
unfoldable pub sanitize : Settings → Settings
unfolding clean_section
sanitize s = clean (codes "ipv6") (clean (codes "ipv4") s)
