-- ===== src/Watchdog/World.antt =====
-- What a pass of the watchdog works on, and how it proceeds: the state that is held, the world
-- outside, and a trace of the effects, in which each write of the state to disk stands too. A pass may end early with an outcome, as
-- Go's `return` does.
use nf_sdk.Base.{ℕ, ℤ, Bool, Option, is_none, List, ◌∷◌, Text}
use nf_sdk.Store.Config.{Config}
use nf_sdk.Store.State.{State, Action, Reason}
use nf_sdk.Supervisor.Proxy.{Proxy}
use nf_sdk.Supervisor.Api.{Api, Reply}

pub record Candidate : Type 0 where
  pub type : Text
  pub ip : Text
  pub port : ℤ
  pub login : Text
  pub password : Text

pub data Kind : Type 0 where
  https tcp : Kind

-- `proxyprobe.Target`; `ipv4_only` is the network "tcp4".
pub record Target : Type 0 where
  pub addr : Text
  pub kind : Kind
  pub ipv4_only : Bool

pub record ProbeResult : Type 0 where
  pub ok : Bool
  pub summary : Text

-- The injection points of `Watchdog`, the file system behind `StateStore`, and SHA-256 in hex.
pub record Deps (H : Type 0) : Type 0 where
  pub now : H → ℕ
  pub uptime : H → Option ℤ
  pub boot_id : H → Text
  pub probe : Option Candidate → Target → H → ProbeResult × H
  pub save : State → H → Option Text × H
  pub sha256_hex : Text → Text

pub data Level : Type 0 where
  info warn error change : Level

-- The messages that the watchdog logs.
pub data Note : Type 0 where
  resumed : ℤ → Note
  adopted : Reason → Note
  breaker_set : Reason → Note
  applying : Action → Reason → Note
  change_failed : Text → Note
  changed : Action → Reason → Note
  rebooting : Note
  reboot_failed : Text → Note
  recovered : Action → Note
  not_landed : Action → ℕ → Note
  boot_detected : Text → Bool → Note
  connectivity_confirmed : Text → Note
  clearing : ℤ → Text → Note
  breaker_cleared : Note

-- A call that changes the proxy carries the clock's reading at the start of the pass that makes it,
-- the `now` of `reconcile`: the reading that the dwell is measured by and the intent is stamped with.
-- The call itself comes later, by the time that the pass has spent on its probes.
pub data Event : Type 0 where
  saved : Bool → State → Event
  set_called : ℕ → Proxy → Event
  clear_called : ℕ → Event
  reboot_called : Event
  noted : Level → Note → Event

-- `trace` is newest first.
pub record World (H : Type 0) : Type 0 where
  pub host : H
  pub config : Config
  pub state : State
  pub trace : List Event

pub record Outcome : Type 0 where
  pub action : Action
  pub reason : Reason
  pub error : Option Text

pub data Exit (A : Type 0) : Type 0 where
  done : Outcome → Exit A
  next : A → Exit A

abbrev pub Pass : Type 0 → Type 0 → Type 0
Pass H A = World H → Exit A × World H

module _ {H A : Type 0} where
  unfoldable pub pure : A → Pass H A
  pure a w = (next a, w)

  -- `return Outcome{…}`
  unfoldable pub finish : Outcome → Pass H A
  finish o w = (done o, w)

  unfoldable pub gets : (World H → A) → Pass H A
  gets f w = (next (f w), w)

module _ {H A B : Type 0} where
  abbrev pub proceed : Exit A → (A → Pass H B) → Pass H B
  proceed (done o) f w = (done o, w)
  proceed (next a) f w = f a w

  infixl 5 ◌>>=◌ ◌>>◌
  unfoldable pub ◌>>=◌ : Pass H A → (A → Pass H B) → Pass H B
  unfolding pure finish gets
  ◌>>=◌ m f w = let (r, w') = m w in proceed r f w'

  abbrev pub ◌>>◌ : Pass H A → Pass H B → Pass H B
  m >> n = m >>= λ _. n

module _ {H : Type 0} where
  unfoldable pub emit : Event → Pass H (Unit {0})
  emit e w = (next tt, record w { trace = e ∷ w.trace })

  unfoldable pub note : Level → Note → Pass H (Unit {0})
  unfolding emit
  note l n = emit (noted l n)

  -- `StateStore.Update`: what is held changes even when the write fails, what is on disk does not.
  unfoldable pub update : Deps H → (State → State) → Pass H (Option Text)
  update deps fn w =
      let st = fn w.state in
      let (failed, host') = deps.save st w.host in
      (
        next failed,
        record w { host = host'; state = st; trace = saved (is_none failed) st ∷ w.trace },
      )

  unfoldable pub get_proxy : Api H → Pass H (Reply Proxy)
  get_proxy api w = let (r, host') = api.get_proxy w.host in (next r, record w { host = host' })

  -- The calls of the Supervisor in a pass that began at `began`.
  unfoldable pub set_proxy : Api H → ℕ → Proxy → Bool → Pass H (Option Text)
  set_proxy api began p force w =
      let (r, host') = api.set_proxy p force w.host in
      (next r, record w { host = host'; trace = set_called began p ∷ w.trace })

  unfoldable pub clear_proxy : Api H → ℕ → Bool → Pass H (Option Text)
  clear_proxy api began force w =
      let (r, host') = api.clear_proxy force w.host in
      (next r, record w { host = host'; trace = clear_called began ∷ w.trace })

  unfoldable pub reboot : Api H → Bool → Pass H (Option Text)
  reboot api force w =
      let (r, host') = api.reboot force w.host in
      (next r, record w { host = host'; trace = reboot_called ∷ w.trace })

  unfoldable pub probe : Deps H → Option Candidate → Target → Pass H ProbeResult
  probe deps c t w = let (r, host') = deps.probe c t w.host in (next r, record w { host = host' })
