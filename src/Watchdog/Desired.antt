-- ===== src/Watchdog/Desired.antt =====
-- What each mode wants: `desired`, `desiredFallback` and `desiredDynamic` of
-- balena/network-config/internal/watchdog/watchdog.go, with the conversions they use.
use nf_sdk.Base.{
  ℕ, ◌+◌, ◌*◌, ◌^◌, ◌++◌, ℤ, pos, ltb_ℤ, leb_ℤ, eqb_ℤ, scale64, Bool, true, false, not, ◌&&◌, ◌||◌,
  Option, none, some, Text, codes, text_eq, is_empty, trim_space, ends_with, join, decimal, take,
  if◌then◌else◌,
}
use nf_sdk.Store.Config.{
  Mode, off, static, fallback, dynamic, unknown, ProxyConfig, no_proxy_config, Config,
}
use nf_sdk.Store.State.{
  State, Reason, FallbackOutcome, undecided, confirmed, cleared, nothing, mode_off, mode_static,
  unknown_mode, fallback_confirmed, fallback_cleared, fallback_applying, fallback_connected,
  fallback_no_uptime, fallback_within_grace, fallback_gave_up, dynamic_unconfigured, dynamic_passed,
  dynamic_passes_needed, dynamic_direct_works, dynamic_both_down, dynamic_failures_needed,
}
use nf_sdk.Supervisor.Proxy.{Proxy, Dns, unset, flag, address, zero_proxy, enabled, same_as}
use nf_sdk.Watchdog.World.{
  Candidate, https, tcp, ProbeResult, Deps, Pass, pure, finish, gets, ◌>>=◌, ◌>>◌, update, note,
  probe, info, warn, connectivity_confirmed, clearing,
}

abbrev pub is_off : Mode → Bool
is_off off = true
is_off _ = false

to_dns : Text → Dns
to_dns s =
    let t = trim_space s in
    if is_empty t
    then unset
    else if text_eq t (codes "on") || text_eq t (codes "true")
    then flag true
    else address s

unfoldable pub to_supervisor_proxy : ProxyConfig → Proxy
unfolding to_dns
to_supervisor_proxy c =
    if is_off c.mode || is_empty c.ip || eqb_ℤ c.port (pos 0) || is_empty c.type
    then zero_proxy
    else record {
      type = c.type;
      ip = c.ip;
      port = c.port;
      login = c.login;
      password = c.password;
      no_proxy = c.no_proxy;
      dns = to_dns c.dns;
    }

abbrev bar : Text
bar = codes "|"

-- The text that `fingerprint` hashes.
unfoldable pub preimage : ProxyConfig → Text
preimage c =
    c.type
    ++ (bar
        ++ (c.ip
            ++ (bar
                ++ (decimal c.port
                    ++ (bar
                        ++ (c.login
                            ++ (bar
                                ++ (c.password
                                    ++ (bar
                                        ++ (join (codes ",") c.no_proxy ++ (bar ++ c.dns)))))))))))

unfoldable pub fingerprint : (Text → Text) → ProxyConfig → Text
unfolding preimage
fingerprint sha256_hex c =
    if is_off c.mode || is_empty c.ip || eqb_ℤ c.port (pos 0)
    then codes "none"
    else take 16 (sha256_hex (preimage c))

-- `currentIntent`
unfoldable pub current_intent : Config → Proxy → ProxyConfig
current_intent cfg actual = if enabled actual then cfg.proxy else no_proxy_config cfg.proxy.mode

-- `time.Duration(n) * time.Minute`
abbrev pub minutes : ℤ → ℤ
minutes n = scale64 n (60 * 10 ^ 9)

module _ {H : Type 0} (deps : Deps H) where
  -- `probeTarget`
  unfoldable pub probe_target : Option Candidate → Text → Bool → Pass H ProbeResult
  unfolding probe
  probe_target p addr proxy_in_play = probe deps p (record {
    addr = addr;
    kind = if ends_with addr (codes ":443") then https else tcp;
    ipv4_only = proxy_in_play;
  })

  -- What follows a probe that failed, with the proxy in force.
  unfoldable pub give_up_or_wait : Config → ProbeResult → Option ℤ → Pass H (ProxyConfig × Reason)
  give_up_or_wait cfg res none = pure (cfg.proxy, fallback_no_uptime)
  give_up_or_wait cfg res (some up) =
      let grace = minutes cfg.watchdog.grace_minutes in
      if ltb_ℤ up grace then pure (cfg.proxy, fallback_within_grace grace up) else (do
        update deps (λ s. record s { fallback_outcome = cleared })
        note warn (clearing up res.summary)
        pure (no_proxy_config cfg.proxy.mode, fallback_gave_up grace))

  unfoldable pub judge_proxy : Config → Pass H (ProxyConfig × Reason)
  unfolding give_up_or_wait
  judge_proxy cfg = do
    res ← probe_target none cfg.watchdog.probe_target true
    update deps (λ s. record s { last_probe_ok = res.ok })
    if res.ok
        then (do
          update deps (λ s. record s { fallback_outcome = confirmed })
          note info (connectivity_confirmed res.summary)
          pure (cfg.proxy, fallback_connected))
        else (do up ← gets (λ w. deps.uptime w.host); give_up_or_wait cfg res up)

  unfoldable pub desired_fallback : Config → FallbackOutcome → Proxy → Pass H (ProxyConfig × Reason)
  unfolding judge_proxy
  desired_fallback cfg confirmed actual = pure (cfg.proxy, fallback_confirmed)
  desired_fallback cfg cleared actual = pure (no_proxy_config cfg.proxy.mode, fallback_cleared)
  desired_fallback cfg undecided actual =
      let want = to_supervisor_proxy cfg.proxy in
      if enabled want && not (same_as actual want)
      then pure (cfg.proxy, fallback_applying)
      else judge_proxy cfg

  -- The counters after a probe of the candidate.
  unfoldable pub count_probe : Bool → State → State
  count_probe true s = record s { passes = s.passes + 1; failures = 0; last_probe_ok = true }
  count_probe false s = record s { failures = s.failures + 1; passes = 0; last_probe_ok = false }

  unfoldable pub enough_passes : Config → Proxy → ℕ → Text → ProxyConfig × Reason
  enough_passes cfg actual passes summary =
      if leb_ℤ cfg.watchdog.required_passes (pos passes)
      then (cfg.proxy, dynamic_passed passes summary)
      else (current_intent cfg actual, dynamic_passes_needed passes cfg.watchdog.required_passes)

  unfoldable pub after_failure : Config → Proxy → ℕ → Text → Pass H (ProxyConfig × Reason)
  after_failure cfg actual failures summary =
      if leb_ℤ cfg.watchdog.required_failures (pos failures)
      then (do
        direct ← probe_target none cfg.watchdog.probe_target false
        pure (
            if direct.ok
            then (no_proxy_config cfg.proxy.mode, dynamic_direct_works failures summary)
            else (current_intent cfg actual, dynamic_both_down failures summary)))
      else pure (
        current_intent cfg actual,
        dynamic_failures_needed failures cfg.watchdog.required_failures summary,
      )

  unfoldable pub desired_dynamic : Config → Proxy → Pass H (ProxyConfig × Reason)
  unfolding enough_passes after_failure count_probe
  desired_dynamic cfg actual =
      if is_empty cfg.proxy.ip || eqb_ℤ cfg.proxy.port (pos 0)
      then pure (no_proxy_config cfg.proxy.mode, dynamic_unconfigured)
      else (do
        res ←
            probe_target
              (some (record {
                type = cfg.proxy.type;
                ip = cfg.proxy.ip;
                port = cfg.proxy.port;
                login = cfg.proxy.login;
                password = cfg.proxy.password;
              }))
              cfg.watchdog.probe_target true
        update deps (count_probe res.ok)
        st ← gets (λ w. w.state)
        if res.ok
            then pure (enough_passes cfg actual st.passes res.summary)
            else after_failure cfg actual st.failures res.summary)

  unfoldable pub desired_by : Mode → Config → State → Proxy → Pass H (ProxyConfig × Reason)
  desired_by off cfg st actual = pure (no_proxy_config cfg.proxy.mode, mode_off)
  desired_by static cfg st actual = pure (cfg.proxy, mode_static)
  desired_by fallback cfg st actual = desired_fallback cfg st.fallback_outcome actual
  desired_by dynamic cfg st actual = desired_dynamic cfg actual
  desired_by (unknown m) cfg st actual = finish (record {
    action = nothing;
    reason = unknown_mode;
    error = some (codes "unknown watchdog mode " ++ m);
  })

  -- `desired`. An unknown mode ends the pass.
  unfoldable pub desired : Config → State → Proxy → Pass H (ProxyConfig × Reason)
  unfolding desired_by
  desired cfg st actual = desired_by cfg.proxy.mode cfg st actual
