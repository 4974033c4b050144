-- ===== src/Supervisor/Api.antt =====
-- The interface `supervisor.API` that the watchdog depends on. `H` is the state of the world behind
-- it: each call may change it.
use nf_sdk.Base.{Bool, Option, Text}
use nf_sdk.Supervisor.Proxy.{Proxy}

pub data Reply (A : Type 0) : Type 0 where
  answer : A → Reply A
  failure : Text → Reply A

pub record Api (H : Type 0) : Type 0 where
  pub available : H → Bool
  pub get_proxy : H → Reply Proxy × H
  pub set_proxy : Proxy → Bool → H → Option Text × H
  pub clear_proxy : Bool → H → Option Text × H
  pub reboot : Bool → H → Option Text × H
