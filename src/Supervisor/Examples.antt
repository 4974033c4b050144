-- ===== src/Supervisor/Examples.antt =====
-- The properties of the proxy configuration and of the client, at an office's proxy.
use nf_sdk.Base.{◌≡◌, ◌↔◌, ℕ, pos, true, false, [], ◌∷◌, codes}
use nf_sdk.Supervisor.Proxy.{Proxy, flag, normalized, same_as, http_connect}
use nf_sdk.Supervisor.Comparison.{view, same_as_iff, same_as-normalized}
use nf_sdk.Supervisor.Client.{
  Transport, Session, Request, response, get, no_body, do_request, no_answer,
}
use nf_sdk.Supervisor.Retry.{Repeats, do_request-Repeats}

abbrev office : Proxy
office = record {
  type = http_connect;
  ip = codes "10.0.0.5";
  port = pos 3128;
  login = codes "device";
  password = codes "secret";
  no_proxy = codes " intranet " ∷ codes "intranet" ∷ [];
  dns = flag true;
}

abbrev office_reordered : Proxy
office_reordered = record office { no_proxy = codes "10.0.0.5" ∷ codes "intranet" ∷ [] }

same_as_iff_example :
    (same_as office office_reordered ≡ true) ↔ (view office ≡ view office_reordered)
same_as_iff_example = same_as_iff office office_reordered

same_as-normalized_example : same_as (record (normalized office) { password = [] }) office ≡ true
same_as-normalized_example = same_as-normalized office []

-- A Supervisor that is restarting.
abbrev restarting : Transport ℕ
restarting = record {
  configured = true;
  dry_run = false;
  send = λ r n. (response 502 (codes "Target connection failed"), n);
  pause = λ ms n. (false, n);
}

abbrev session : Session ℕ
session = record { net = 0; sent = [] }

abbrev read_config : Request
read_config = record { method = get; path = codes "/v1/device/host-config"; body = no_body }

do_request-Repeats_example :
    Repeats read_config 3 session (do_request restarting no_answer read_config session).1
do_request-Repeats_example = do_request-Repeats restarting no_answer read_config session
