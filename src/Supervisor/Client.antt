-- ===== src/Supervisor/Client.antt =====
-- The client of the Supervisor's HTTP API: `transient`, `do`, `doOnce` and the calls made through
-- them, in balena/network-config/internal/supervisor/client.go. The HTTP library is a parameter.
use nf_sdk.Base.{
  ℕ, zero, suc, ◌+◌, ◌*◌, Bool, true, false, not, ◌||◌, ◌==◌, ltb, leb, Option, none, some, List,
  ◌∷◌, Text, codes, text_contains, if◌then◌else◌,
}
use nf_sdk.Supervisor.Proxy.{Proxy, ProxyError, zero_proxy, validate, normalized}

pub data Method : Type 0 where
  get patch post : Method

-- The bodies that are sent; `none` is Go's nil.
pub data Body : Type 0 where
  no_body : Body
  host_config : Proxy → Bool → Body
  hostname : Text → Bool → Body
  force_flag : Bool → Body

pub record Request : Type 0 where
  pub method : Method
  pub path : Text
  pub body : Body

-- An error of the HTTP library: what `errors.Is` and `errors.As` find in it, and its text.
pub record TransportError : Type 0 where
  pub reset : Bool
  pub refused : Bool
  pub broken_pipe : Bool
  pub eof : Bool
  pub unexpected_eof : Bool
  pub timed_out : Bool
  pub message : Text

pub data Response : Type 0 where
  no_response : TransportError → Response
  response : ℕ → Text → Response

pub data CallError : Type 0 where
  api_unavailable update_locked : CallError
  transient_error : CallError
  permanent_error : CallError
  decode_error : CallError
  invalid_proxy : ProxyError → CallError

-- What the client is built on: its configuration, one exchange, and a pause that may be cut short.
pub record Transport (W : Type 0) : Type 0 where
  pub configured : Bool
  pub dry_run : Bool
  pub send : Request → W → Response × W
  pub pause : ℕ → W → Bool × W

-- `sent` is newest first.
pub record Session (W : Type 0) : Type 0 where
  pub net : W
  pub sent : List Request

abbrev is_gateway_status : ℕ → Bool
is_gateway_status status = status == 502 || status == 503 || status == 504

is_transport : Option TransportError → Bool
is_transport none = false
is_transport (some e) =
    e.reset
    || e.refused
    || e.broken_pipe
    || e.eof
    || e.unexpected_eof
    || e.timed_out
    || text_contains e.message (codes "connection reset by peer")
    || text_contains e.message (codes "EOF")
    || text_contains e.message (codes "connection refused")

unfoldable pub transient : Option TransportError → ℕ → Bool
unfolding is_transport
transient err status = is_gateway_status status || is_transport err

pub data Result (A : Type 0) : Type 0 where
  ok : A → Result A
  fails : CallError → Result A

abbrev decoded : {A : Type 0} → Option A → Result A
decoded none = fails decode_error
decoded (some a) = ok a

abbrev failed_as : {A : Type 0} → Bool → Result A
failed_as true = fails transient_error
failed_as false = fails permanent_error

abbrev pub is_get : Method → Bool
is_get get = true
is_get _ = false

-- `transientAttempts`
abbrev pub transient_attempts : ℕ
transient_attempts = 3

module _ {W : Type 0} (transport : Transport W) {A : Type 0} (decode : Text → Option A) where
  unfoldable pub read_response : Response → Result A
  unfolding transient
  read_response (no_response e) = failed_as (transient (some e) 0)
  read_response (response status body) =
      if ltb status 200 || leb 300 status
      then (if status == 423 then fails update_locked else failed_as (transient none status))
      else decoded (decode body)

  -- `doOnce`
  unfoldable pub do_once : Request → Session W → Result A × Session W
  unfolding read_response
  do_once r s =
      if not transport.configured
      then (fails api_unavailable, s)
      else (let (resp, net') = transport.send r s.net in
          (read_response resp, record { net = net'; sent = r ∷ s.sent }))

  -- What follows an attempt of the loop: `more` is whether it was not the last, `again` goes on.
  unfoldable pub after_attempt :
      ℕ → Bool → (Session W → Result A × Session W) → Result A × Session W → Result A × Session W
  after_attempt attempt more again (ok a, s) = (ok a, s)
  after_attempt attempt more again (fails transient_error, s) =
      if more
      then (let (cancelled, net') = transport.pause (attempt * 750) s.net in
          let s' : Session W = record s { net = net' } in
          if cancelled then (fails transient_error, s') else again s')
      else (fails transient_error, s)
  after_attempt attempt more again (fails e, s) = (fails e, s)

  -- The loop of `do`, with the attempts that are left.
  unfoldable pub attempts : ℕ → ℕ → Request → Session W → Result A × Session W
  attempts zero attempt r s = (fails transient_error, s)
  attempts (suc left) attempt r s =
      after_attempt attempt (ltb 0 left) (λ s'. attempts left (attempt + 1) r s') (do_once r s)

  -- `do`
  unfoldable pub do_request : Request → Session W → Result A × Session W
  unfolding attempts
  do_request r s = if is_get r.method then attempts transient_attempts 1 r s else do_once r s

-- A call that decodes no answer.
abbrev pub no_answer : Text → Option (Unit {0})
no_answer body = some tt

module _ {W : Type 0} (transport : Transport W) where
  abbrev host_config_path : Text
  host_config_path = codes "/v1/device/host-config"

  -- `GetProxy`; a host without a proxy object has the zero proxy.
  unfoldable pub get_proxy : (Text → Option (Option Proxy)) → Session W → Result Proxy × Session W
  get_proxy decode s =
      let (r, s') =
        do_request transport decode
          (record { method = get; path = host_config_path; body = no_body }) s in
      (elim r [ ok none ↦ ok zero_proxy | ok (some p) ↦ ok p | fails e ↦ fails e ], s')

  unfoldable pub set_valid_proxy : Proxy → Bool → Session W → Result (Unit {0}) × Session W
  set_valid_proxy p force s =
      if transport.dry_run
      then (ok tt, s)
      else do_request transport no_answer
          (record {
            method = patch;
            path = host_config_path;
            body = host_config (normalized p) force;
          })
          s

  unfoldable pub set_checked :
      Option ProxyError → Proxy → Bool → Session W → Result (Unit {0}) × Session W
  set_checked (some e) p force s = (fails (invalid_proxy e), s)
  set_checked none p force s = set_valid_proxy p force s

  -- `SetProxy`
  unfoldable pub set_proxy : Proxy → Bool → Session W → Result (Unit {0}) × Session W
  unfolding set_checked
  set_proxy p force s = set_checked (validate p) p force s

  -- `ClearProxy`
  unfoldable pub clear_proxy : Bool → Session W → Result (Unit {0}) × Session W
  clear_proxy force s =
      if transport.dry_run
      then (ok tt, s)
      else do_request transport no_answer
          (record { method = patch; path = host_config_path; body = host_config zero_proxy force })
          s

  -- `Reboot`
  unfoldable pub reboot : Bool → Session W → Result (Unit {0}) × Session W
  reboot force s =
      if transport.dry_run
      then (ok tt, s)
      else do_request transport no_answer
          (record { method = post; path = codes "/v1/reboot"; body = force_flag force }) s
