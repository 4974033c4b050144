-- ===== src/Prober/Roots.antt =====
-- What `describeInterception` of balena/network-config/internal/proxyprobe/tls.go offers to trust.
use nf_sdk.Base.{
  Bool, true, false, not, ◌&&◌, Option, none, some, is_none, List, [], ◌∷◌, ◌++◌, Text, text_eq,
  map, ◌≡◌, ◌∙◌, refl, sym, ap, Bool-cases, inl, inr, if◌then◌else◌,
}
use mathlib.Core.List.{append_assoc, append-nil}
use nf_sdk.Prober.Certificates.{
  Certificate, CertInfo, Interception, X509, is_root, is_self_signed, name_of, info_of, add_info,
  add_certificate, add_certificates, describe_interception,
}

-- The first self-signed CA of a chain.
abbrev pub first_root : List Certificate → Option Certificate
first_root [] = none
first_root (c ∷ cs) =
    if c.is_ca && text_eq c.subject.printed c.issuer.printed then some c else first_root cs

abbrev pub or_found : Option CertInfo → Option CertInfo → Option CertInfo
or_found none found = found
or_found (some i) found = some i

abbrev pub summary : Text → List CertInfo → Option CertInfo → Bool → Interception
summary issuer chain root trusted = record {
  leaf_issuer = issuer;
  chain = chain;
  root_ca = root;
  ca_presented = not (is_none root);
  trusted = trusted;
}

module _ {P : Type 0} (x509 : X509 P) where
  abbrev pub shown : Option Certificate → Option CertInfo
  shown none = none
  shown (some c) = some (info_of x509 c)

  abbrev pub or_first : Option CertInfo → List Certificate → Option CertInfo
  or_first root cs = or_found root (shown (first_root cs))

  next_info :
      (issuer : Text) (chain : List CertInfo) (root : Option CertInfo) (trusted b : Bool)
      (info : CertInfo)
      → add_info b info (summary issuer chain root trusted)
        ≡ summary issuer
            (chain ++ info ∷ [])
            (or_found root (if b then some info else none))
            trusted
  unfolding add_info
  next_info issuer chain none trusted true info = refl
  next_info issuer chain none trusted false info = refl
  next_info issuer chain (some i) trusted true info = refl
  next_info issuer chain (some i) trusted false info = refl

  found_here :
      (root : Option CertInfo) (c : Certificate) (b : Bool)
      → or_found root (if b then some (info_of x509 c) else none)
        ≡ or_found root (shown (if b then some c else none))
  found_here root c true = refl
  found_here root c false = refl

  next_certificate :
      (issuer : Text) (chain : List CertInfo) (root : Option CertInfo) (trusted : Bool)
      (c : Certificate)
      → add_certificate x509 (summary issuer chain root trusted) c
        ≡ summary issuer (chain ++ info_of x509 c ∷ []) (or_first root (c ∷ [])) trusted
  unfolding add_certificate is_root is_self_signed
  next_certificate issuer chain root trusted c =
      next_info issuer chain root trusted (is_root c) (info_of x509 c)
      ∙ ap (λ o. summary issuer (chain ++ info_of x509 c ∷ []) o trusted)
          (found_here root c (is_root c))

  first_of :
      (root : Option CertInfo) (c : Certificate) (cs : List Certificate)
      → or_first (or_first root (c ∷ [])) cs ≡ or_first root (c ∷ cs)
  first_of none c cs = elim (Bool-cases (c.is_ca && text_eq c.subject.printed c.issuer.printed)) [
    | inl e ↦ rw e refl
    | inr e ↦ rw e refl
  ]
  first_of (some i) c cs = refl

  no_more : (root : Option CertInfo) → or_first root [] ≡ root
  no_more none = refl
  no_more (some i) = refl

  all_certificates :
      (issuer : Text) (chain : List CertInfo) (root : Option CertInfo) (trusted : Bool)
      (cs : List Certificate)
      → add_certificates x509 (summary issuer chain root trusted) cs
        ≡ summary issuer (chain ++ map (info_of x509) cs) (or_first root cs) trusted
  unfolding add_certificates
  all_certificates issuer chain root trusted [] =
      λ i. summary issuer (sym (append-nil chain) i) (sym (no_more root) i) trusted
  all_certificates issuer chain root trusted (c ∷ cs) =
      ap (λ out. add_certificates x509 out cs) (next_certificate issuer chain root trusted c)
      ∙ all_certificates issuer (chain ++ info_of x509 c ∷ []) (or_first root (c ∷ [])) trusted cs
      ∙ (λ i.
          summary issuer (append_assoc chain (info_of x509 c ∷ []) (map (info_of x509) cs) i)
            (first_of root c cs i) trusted)

  -- Of a chain that is not empty every certificate is shown, in its order, and the first that is a CA
  -- and signed by itself is the root that is offered; a CA counts as presented exactly if there is one.
  pub describe_interception-root :
      (c : Certificate) (cs : List Certificate) (trusted : Bool)
      → describe_interception x509 (c ∷ cs) trusted
        ≡ some (
            summary
              (name_of c.issuer)
              (map (info_of x509) (c ∷ cs))
              (shown (first_root (c ∷ cs)))
              trusted)
  unfolding describe_interception
  describe_interception-root c cs trusted =
      ap (λ out. some out) (all_certificates (name_of c.issuer) [] none trusted (c ∷ cs))
