-- ===== src/Diag/Endpoints.antt =====
-- The destinations that a device needs: balena/network-config/internal/diag/endpoints.go. The probe
-- of a destination is a parameter, since each has a network of its own; the notes for an operator
-- are left out.
use nf_sdk.Base.{Bool, true, false, List, [], ◌∷◌, Text, codes, map}
use nf_sdk.Prober.Stages.{Result}
use nf_sdk.Prober.Probe.{Target, https, tcp_only, reachable}

pub data Group : Type 0 where
  balena normal_framework cloudflare_tunnel internet : Group

pub record Endpoint : Type 0 where
  pub target : Target
  pub path : Text
  pub group : Group
  pub required : Bool

abbrev pub https_to : Group → Bool → Text → Text → Endpoint
https_to g needed addr path = record {
  target = record { addr = addr; kind = https };
  path = path;
  group = g;
  required = needed;
}

unfoldable pub endpoints : List Endpoint
endpoints =
    https_to internet true (codes "cloudflare.com:443") []
    ∷ https_to balena true (codes "api.balena-cloud.com:443") (codes "/ping")
    ∷ https_to balena true (codes "registry2.balena-cloud.com:443") []
    ∷ record {
      target = record { addr = codes "cloudlink.balena-cloud.com:443"; kind = tcp_only };
      path = [];
      group = balena;
      required = true;
    }
    ∷ https_to balena false (codes "delta.balena-cloud.com:443") []
    ∷ https_to normal_framework true (codes "portal.normal-online.net:443") []
    ∷ https_to normal_framework false (codes "normalframework.azurecr.io:443") []
    ∷ record {
      target = record { addr = codes "region1.v2.argotunnel.com:7844"; kind = reachable };
      path = [];
      group = cloudflare_tunnel;
      required = true;
    }
    ∷ record {
      target = record { addr = codes "region2.v2.argotunnel.com:7844"; kind = reachable };
      path = [];
      group = cloudflare_tunnel;
      required = true;
    }
    ∷ []

pub record EndpointResult : Type 0 where
  pub endpoint : Endpoint
  pub result : Result

-- Each goroutine writes the entry of its own index, so their order does not matter.
unfoldable pub check_endpoints : (Endpoint → Result) → List Endpoint → List EndpointResult
check_endpoints probe es = map (λ e. record { endpoint = e; result = probe e }) es
