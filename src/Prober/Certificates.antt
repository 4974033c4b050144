-- ===== src/Prober/Certificates.antt =====
-- The certificates of an intercepting proxy: balena/network-config/internal/proxyprobe/tls.go. The
-- check of a chain, the pools of trusted certificates, SHA-256, PEM and base64 are parameters.
use nf_sdk.Base.{
  ℕ, ◌+◌, ◌-◌, ◌/◌, ◌%◌, ltb, Bool, true, false, ◌&&◌, ◌||◌, Option, none, some, is_none, List, [],
  ◌∷◌, ◌++◌, Text, codes, text_eq, is_empty, trim_space, text_contains, if◌then◌else◌,
}

-- `pkix.Name`, with what its `String` gives
pub record DistinguishedName : Type 0 where
  pub common_name : Text
  pub organization : List Text
  pub printed : Text

pub record Certificate : Type 0 where
  pub subject : DistinguishedName
  pub issuer : DistinguishedName
  pub is_ca : Bool
  pub raw : List ℕ
  pub not_after : ℕ

pub record CertInfo : Type 0 where
  pub subject : Text
  pub issuer : Text
  pub is_ca : Bool
  pub self_signed : Bool
  pub fingerprint : Text
  pub not_after : ℕ
  pub pem : Text
  pub base64 : Text

pub record Interception : Type 0 where
  pub leaf_issuer : Text
  pub chain : List CertInfo
  pub root_ca : Option CertInfo
  pub ca_presented : Bool
  pub trusted : Bool

-- `x509.Verify` is given the leaf, the name to check, the roots and the intermediates; no roots are
-- the system's.
pub record X509 (P : Type 0) : Type 0 where
  pub sha256 : List ℕ → List ℕ
  pub encode_pem : List ℕ → Text
  pub encode_base64 : Text → Text
  pub system_pool : Option P
  pub empty_pool : P
  pub append_certs : Text → P → Option P
  pub verify : Certificate → Option Text → Option P → List Certificate → Option Text
  pub any_usage : Certificate → List Certificate → Option Text

-- `nameOf`
unfoldable pub name_of : DistinguishedName → Text
unfolding text_eq
name_of n = elim n.organization [
  | [] ↦ if is_empty n.common_name then codes "unnamed" else n.common_name
  | org ∷ orgs ↦
      if is_empty n.common_name
      then org
      else if text_eq org n.common_name
      then n.common_name
      else n.common_name ++ (codes " (" ++ (org ++ codes ")"))
]

-- A digit of `strings.ToUpper(hex.EncodeToString(…))`
unfoldable pub upper_digit : ℕ → ℕ
upper_digit n = if ltb n 10 then b'0' + n else b'A' + (n - 10)

-- The bytes behind the first, each after a colon.
unfoldable pub colon_bytes : List ℕ → Text
unfolding upper_digit
colon_bytes [] = []
colon_bytes (b ∷ bs) = b':' ∷ upper_digit (b / 16) ∷ upper_digit (b % 16) ∷ colon_bytes bs

unfoldable pub colon_hex : List ℕ → Text
unfolding colon_bytes upper_digit
colon_hex [] = []
colon_hex (b ∷ bs) = upper_digit (b / 16) ∷ upper_digit (b % 16) ∷ colon_bytes bs

-- `selfSigned`
unfoldable pub is_self_signed : Certificate → Bool
unfolding text_eq
is_self_signed c = text_eq c.subject.printed c.issuer.printed

unfoldable pub is_root : Certificate → Bool
unfolding is_self_signed
is_root c = c.is_ca && is_self_signed c

-- An entry of the chain, and the root that is offered where it is the first.
unfoldable pub add_info : Bool → CertInfo → Interception → Interception
add_info root info out =
    let first = root && is_none out.root_ca in
    record out {
      chain = out.chain ++ info ∷ [];
      root_ca = if first then some info else out.root_ca;
      ca_presented = if first then true else out.ca_presented;
    }

module _ {P : Type 0} (x509 : X509 P) where
  unfoldable pub info_of : Certificate → CertInfo
  unfolding name_of colon_hex is_root is_self_signed
  info_of c = record {
    subject = name_of c.subject;
    issuer = name_of c.issuer;
    is_ca = c.is_ca;
    self_signed = is_self_signed c;
    fingerprint = colon_hex (x509.sha256 c.raw);
    not_after = c.not_after;
    pem = if is_root c then x509.encode_pem c.raw else [];
    base64 = if is_root c then x509.encode_base64 (x509.encode_pem c.raw) else [];
  }

  -- The body of the loop of describeInterception.
  unfoldable pub add_certificate : Interception → Certificate → Interception
  add_certificate out c = add_info (is_root c) (info_of c) out

  unfoldable pub add_certificates : Interception → List Certificate → Interception
  unfolding add_certificate
  add_certificates out [] = out
  add_certificates out (c ∷ cs) = add_certificates (add_certificate out c) cs

  unfoldable pub describe_interception : List Certificate → Bool → Option Interception
  unfolding add_certificates name_of
  describe_interception [] trusted = none
  describe_interception (c ∷ cs) trusted = some (
      add_certificates
        (record {
          leaf_issuer = name_of c.issuer;
          chain = [];
          root_ca = none;
          ca_presented = false;
          trusted = trusted;
        })
        (c ∷ cs))

  -- The pool of the process, and the note about where it came from.
  abbrev pub Trust : Type 0
  Trust = Option P × Text

  abbrev pub with_system : Option P → P
  with_system none = x509.empty_pool
  with_system (some p) = p

  abbrev pub loaded : Text → Option P → Trust → Bool × Trust
  loaded note none t = (false, t)
  loaded note (some p) t = (true, (some p, note))

  -- `LoadTrustedCAs`, with whether it succeeds
  unfoldable pub load_trusted_cas : Text → Text → Trust → Bool × Trust
  unfolding trim_space
  load_trusted_cas pem note t =
      if is_empty (trim_space pem)
      then (true, t)
      else loaded note (x509.append_certs pem (with_system x509.system_pool)) t

  -- `verifyChain`
  unfoldable pub verify_chain : List Certificate → Text → Trust → Option Text
  verify_chain [] host t = some (codes "the server presented no certificate")
  verify_chain (leaf ∷ rest) host t = x509.verify leaf (some host) t.0 rest

  -- `publiclyRooted`
  unfoldable pub publicly_rooted : List Certificate → Bool
  publicly_rooted [] = false
  publicly_rooted (leaf ∷ rest) = is_none (x509.any_usage leaf rest)

-- `untrustedAuthority`, of whether an error is an `x509.UnknownAuthorityError`, and its text
unfoldable pub untrusted_authority : Option (Bool × Text) → Bool
unfolding text_contains
untrusted_authority none = false
untrusted_authority (some (unknown, message)) =
    unknown
    || text_contains message (codes "unknown authority")
    || text_contains message (codes "certificate signed by unknown authority")
