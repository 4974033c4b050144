-- ===== src/Prober/Http.antt =====
-- HTTP proxies: `httpConnect` of balena/network-config/internal/proxyprobe/httpconnect.go,
-- `httpRelayRequest` and `readRelayResponse` of probe.go, and auth.go. `http.ReadResponse` and base64
-- are parameters.
use nf_sdk.Base.{
  ℕ, ◌==◌, Bool, not, ◌||◌, List, [], ◌∷◌, ◌++◌, Text, codes, is_empty, text_contains,
  if◌then◌else◌,
}
use nf_sdk.Prober.Wire.{Answer, Io, ◌>>=◌, ◌>>◌, pure, fail, write}

pub record Reply : Type 0 where
  pub status : ℕ
  pub line : Text
  pub scheme : Text

-- What is read from the connection, with what is left of it.
pub record HttpLibrary : Type 0 where
  pub read_response : List ℕ → Answer Reply × List ℕ
  pub base64 : Text → Text
  pub join_host_port : Text → ℕ → Text

abbrev crlf : Text
crlf = 13 ∷ 10 ∷ []

module _ (lib : HttpLibrary) where
  has_credentials : Text → Text → Bool
  has_credentials user pass = not (is_empty user) || not (is_empty pass)

  -- `basicAuthHeader`
  credentials_line : Text → Text → Text
  unfolding has_credentials
  credentials_line user pass =
      if has_credentials user pass
      then codes "Proxy-Authorization: Basic " ++ (lib.base64 (user ++ (b':' ∷ pass)) ++ crlf)
      else []

  unfoldable pub connect_request : Text → Text → Text → Text
  unfolding credentials_line
  connect_request target user pass =
      codes "CONNECT "
      ++ (target
          ++ (codes " HTTP/1.1"
              ++ (crlf
                  ++ (codes "Host: "
                      ++ (target
                          ++ (crlf
                              ++ (codes "Proxy-Connection: Keep-Alive"
                                  ++ (crlf
                                      ++ (codes "User-Agent: netcfgd"
                                          ++ (crlf ++ (credentials_line user pass ++ crlf)))))))))))

  read_reply : Io Reply
  read_reply c = let (r, rest) = lib.read_response c.input in (r, record c { input = rest })

  required : Text → Text → Text → Text
  unfolding has_credentials
  required user pass scheme =
      let named = if is_empty scheme then codes "unknown" else scheme in
      if has_credentials user pass
      then codes "proxy rejected the credentials (scheme: " ++ (named ++ codes ")")
      else codes "proxy requires authentication but none are configured (scheme: "
        ++ (named ++ codes ")")

  unfoldable pub connect_status : Text → Text → Reply → Io (Unit {0})
  unfolding required
  connect_status user pass r =
      if r.status == 200
      then pure tt
      else if r.status == 407
      then fail (required user pass r.scheme)
      else if r.status == 403
      then fail (codes "proxy forbade this destination (403 " ++ (r.line ++ codes ")"))
      else if r.status == 405
      then fail (
          codes
            "proxy does not allow CONNECT (405); it may be a relay-only proxy, try type http-relay")
      else fail (codes "proxy returned " ++ r.line)

  -- `httpConnect`
  unfoldable pub http_connect : Text → Text → Text → Io (Unit {0})
  unfolding connect_status read_reply
  http_connect target user pass = do
    write (connect_request target user pass)
    r ← read_reply
    connect_status user pass r

  -- `httpRelayRequest`
  unfoldable pub relay_request : Text → ℕ → Text → Text → Text
  unfolding credentials_line
  relay_request host port user pass =
      let target = if port == 80 then host else lib.join_host_port host port in
      codes "HEAD http://"
      ++ (target
          ++ (codes "/ HTTP/1.1"
              ++ (crlf
                  ++ (codes "Host: "
                      ++ (target
                          ++ (crlf
                              ++ (codes "User-Agent: netcfgd"
                                  ++ (crlf
                                      ++ (codes "Connection: close"
                                          ++ (crlf ++ (credentials_line user pass ++ crlf)))))))))))

  relay_status : Reply → Io (Unit {0})
  relay_status r =
      if r.status == 407 then fail (codes "proxy requires authentication (407)") else pure tt

  -- `readRelayResponse`
  unfoldable pub read_relay_response : Io (Unit {0})
  unfolding read_reply relay_status
  read_relay_response = do r ← read_reply; relay_status r

-- `isAuthStage`, of an error
abbrev pub is_auth_error : Text → Bool
is_auth_error e =
    text_contains e (codes "requires authentication")
    || text_contains e (codes "rejected the credentials")
