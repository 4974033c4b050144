-- ===== src/Prober/Examples.antt =====
-- A probe through a SOCKS5 proxy that asks for a login, and its messages.
use nf_sdk.Base.{◌≡◌, refl, arith, none, some, [], ◌∷◌, codes}
use nf_sdk.Base.{Text, true, false, map}
use nf_sdk.Prober.Certificates.{
  DistinguishedName, Certificate, X509, name_of, info_of, describe_interception,
}
use nf_sdk.Prober.Roots.{summary, shown, first_root, describe_interception-root}
use nf_sdk.Prober.Wire.{answered}
use nf_sdk.Prober.Socks.{socks5_connect, socks5_address, socks5_request}
use nf_sdk.Prober.Http.{HttpLibrary}
use nf_sdk.Prober.Probe.{Proxy, https, Target, Network, probe}
use nf_sdk.Prober.Rows.{IsReport}
use nf_sdk.Prober.Paths.{probe-IsReport}
use nf_sdk.Prober.RoundTrip.{Requested, parse_request-request, domain}
use nf_sdk.Prober.Drain.{socks5_connect-reply, conn_of, reply_bytes}

abbrev http_library : HttpLibrary
http_library = record {
  read_response = λ bs. (answered record { status = 200; line = codes "200 OK"; scheme = [] }, []);
  base64 = λ t. t;
  join_host_port = λ h p. h;
}

-- A proxy that chooses the login and then rejects it.
abbrev rejecting : Network
rejecting = record {
  target = answered (codes "example.com", 443);
  parse_ip = λ t. none;
  lookup = none;
  dial = answered (conn_of (5 ∷ 2 ∷ 1 ∷ 1 ∷ []) []);
  tls_error = λ k. none;
  http_error = none;
  library = http_library;
}

abbrev office : Proxy
office = record {
  type = codes "SOCKS5";
  ip = codes "proxy.local";
  port = 1080;
  login = codes "u";
  password = codes "p";
}

abbrev site : Target
site = record { addr = codes "example.com:443"; kind = https }

probe-IsReport_example : IsReport (probe rejecting (some office) site)
probe-IsReport_example = probe-IsReport rejecting (some office) site

parse_request-request_example : Requested none (codes "example.com") 443
parse_request-request_example =
    parse_request-request none (codes "example.com") 443 (omega arith) (omega arith)

named_host : socks5_address none (codes "ab") ≡ some (3 ∷ 2 ∷ b'a' ∷ b'b' ∷ [])
unfolding socks5_address
named_host = refl

socks5_connect-reply_example :
    socks5_connect none
      (codes "ab")
      443
      (conn_of (reply_bytes (domain (codes "gw")) 80 (9 ∷ [])) [])
    ≡ (answered tt, conn_of (9 ∷ []) (socks5_request (3 ∷ 2 ∷ b'a' ∷ b'b' ∷ []) 443))
socks5_connect-reply_example =
    socks5_connect-reply none (codes "ab") 443 (3 ∷ 2 ∷ b'a' ∷ b'b' ∷ []) (domain (codes "gw")) 80
      (9 ∷ []) [] named_host (omega arith)

abbrev named : Text → DistinguishedName
named t = record { common_name = t; organization = []; printed = t }

abbrev leaf : Certificate
leaf = record {
  subject = named (codes "gw");
  issuer = named (codes "ca");
  is_ca = false;
  raw = 1 ∷ [];
  not_after = 9;
}

abbrev root : Certificate
root = record {
  subject = named (codes "ca");
  issuer = named (codes "ca");
  is_ca = true;
  raw = 2 ∷ [];
  not_after = 9;
}

abbrev x509 : X509 Text
x509 = record {
  sha256 = λ bs. bs;
  encode_pem = λ bs. bs;
  encode_base64 = λ t. t;
  system_pool = none;
  empty_pool = [];
  append_certs = λ pem pool. some pem;
  verify = λ c host pool rest. none;
  any_usage = λ c rest. some (codes "unknown authority");
}

describe_interception-root_example :
    describe_interception x509 (leaf ∷ root ∷ []) false
    ≡ some (
        summary
          (name_of leaf.issuer)
          (map (info_of x509) (leaf ∷ root ∷ []))
          (shown x509 (first_root (leaf ∷ root ∷ [])))
          false)
describe_interception-root_example = describe_interception-root x509 leaf (root ∷ []) false
