-- ===== src/Watchdog/Examples.antt =====
-- The watchdog on a host that does what it is told, saves every state, and has a clock.
use nf_sdk.Base.{
  ◌≡◌, ◌+◌, ◌*◌, ℕ, pos, refl, true, false, none, some, [], Option, Text, codes, text_eq, arith,
  scale64-exact, ◌^◌,
}
use nf_sdk.Store.Config.{off, static, Config, ProxyConfig, no_proxy_config, initial_config}
use nf_sdk.Store.State.{State, zero_state, flap_limit}
use nf_sdk.Supervisor.Proxy.{enabled, Proxy, zero_proxy, http_connect}
use nf_sdk.Supervisor.Api.{Api, answer}
use nf_sdk.Watchdog.World.{World, Deps}
use nf_sdk.Watchdog.Desired.{desired_dynamic, minutes, fingerprint, to_supervisor_proxy}
use nf_sdk.Watchdog.Reconcile.{reconcile_once, freeze_expired}
use nf_sdk.Watchdog.Spacing.{IsSpaced, IsAnnounced}
use nf_sdk.Watchdog.Lifetime.{Life, start, pass, meanwhile, Life-IsSpaced, Life-IsAnnounced}
use nf_sdk.Watchdog.Convergence.{IsHonest}
use nf_sdk.Supervisor.Proxy.{normalized, validate, ProxyError}
use nf_sdk.Base.{◌+◌}
use nf_sdk.Watchdog.Dynamic.{Justified, desired_dynamic-Justified}

record Host : Type 0 where
  proxy : Proxy
  clock : ℕ

abbrev supervisor : Api Host
supervisor = record {
  available = λ h. true;
  get_proxy = λ h. (answer h.proxy, h);
  set_proxy = λ p force h. (none, record h { proxy = p });
  clear_proxy = λ force h. (none, record h { proxy = zero_proxy });
  reboot = λ force h. (none, h);
}

abbrev system : Deps Host
system = record {
  now = λ h. h.clock;
  uptime = λ h. some (pos 0);
  boot_id = λ h. codes "b";
  probe = λ c t h. (record { ok = true; summary = [] }, h);
  save = λ st h. (none, h);
  sha256_hex = λ t. t;
}

abbrev office : ProxyConfig
office = record (no_proxy_config static) {
  type = http_connect;
  ip = codes "10.0.0.5";
  port = pos 3128;
}

abbrev with_proxy : ProxyConfig → Config
with_proxy p = record initial_config { proxy = p }

abbrev ten_minutes : ℕ
ten_minutes = 600000000000

abbrev first_host : Host
first_host = record { proxy = zero_proxy; clock = 1000 }

abbrev booted : World Host
booted = record { host = first_host; config = with_proxy office; state = zero_state; trace = [] }

default_dwell : minutes (pos 10) ≡ pos ten_minutes
default_dwell = scale64-exact 10 (60 * 10 ^ 9) (omega arith)

-- The proxy is set, and cleared eleven minutes later.
abbrev once : World Host
once = (reconcile_once supervisor system booted).1

abbrev later : World Host
later = record once {
  host = record first_host { clock = 1000 + 660000000000 };
  config = with_proxy (no_proxy_config off);
}

life : Life supervisor system ten_minutes zero_state (reconcile_once supervisor system later).1
life =
    pass
      (meanwhile (pass (start booted refl refl) default_dwell (omega arith)) later.host
        later.config)
      default_dwell (omega arith)

Life-IsSpaced_example : IsSpaced ten_minutes (reconcile_once supervisor system later).1.trace
Life-IsSpaced_example = Life-IsSpaced supervisor system ten_minutes zero_state life

Life-IsAnnounced_example : IsAnnounced zero_state (reconcile_once supervisor system later).1.trace
Life-IsAnnounced_example = Life-IsAnnounced supervisor system ten_minutes zero_state life

abbrev settled_state : State
settled_state = record zero_state {
  boot_id = codes "b";
  applied = fingerprint system.sha256_hex office;
}

abbrev settled : World Host
settled = record booted {
  host = record { proxy = to_supervisor_proxy office; clock = 1000 };
  state = settled_state;
}

abbrev tripped : World Host
tripped = record booted {
  state = record zero_state {
    boot_id = codes "b";
    frozen = true;
    frozen_at = 900;
    freeze_reason = flap_limit 4 (pos 4);
  };
}

tripped-holds : freeze_expired tripped.state 1000 ≡ false
unfolding freeze_expired
tripped-holds = refl

abbrev rebooted : World Host
rebooted = record tripped { state = record tripped.state { boot_id = codes "a" } }

new_boot : text_eq rebooted.state.boot_id (codes "b") ≡ false
unfolding text_eq
new_boot = refl

office-enabled : enabled (to_supervisor_proxy office) ≡ true
unfolding enabled to_supervisor_proxy
office-enabled = refl

-- The office's proxy is in force, and the prober says that all is well.
desired_dynamic-Justified_example :
    Justified system
      (with_proxy office)
      (desired_dynamic system (with_proxy office) (to_supervisor_proxy office) settled)
desired_dynamic-Justified_example =
    desired_dynamic-Justified system (with_proxy office) (to_supervisor_proxy office) settled
      office-enabled refl refl

-- A client that checks the proxy first, before a Supervisor that keeps the normalized one, on a
-- device whose proxy is still to be set.
abbrev checked_set : Option ProxyError → Proxy → Host → Option Text × Host
checked_set (some e) p h = (some (codes "invalid proxy"), h)
checked_set none p h = (none, record h { proxy = normalized p })

abbrev obedient : Api Host
obedient = record supervisor { set_proxy = λ p force h. checked_set (validate p) p h }

checked_set-boot :
    (o : Option ProxyError) (p : Proxy) (h : Host)
    → system.boot_id (checked_set o p h).1 ≡ system.boot_id h
checked_set-boot (some e) p h = refl
checked_set-boot none p h = refl

abbrev obedient_host : IsHonest obedient system
obedient_host = record {
  shown = λ h. h.proxy;
  up = λ h. refl;
  reads = λ h. refl;
  saves = λ s h. refl;
  accepts = λ p force h valid. rw valid refl;
  uses = λ p force h valid. ((normalized p).password, rw valid refl);
  same_boot = λ p force h. checked_set-boot (validate p) p h;
}

abbrev unset : World Host
unset = record settled { host = first_host; state = record zero_state { boot_id = codes "b" } }
