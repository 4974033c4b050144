-- ===== src/Netmgr/Bus.antt =====
-- The calls of NetworkManager's D-Bus interface that netcfgd makes. NetworkManager is a parameter:
-- `W` is its state, and a call gives its answer and the state after it.
use nf_sdk.Base.{ℕ, Bool, Option, List, Text}
use nf_sdk.Netmgr.Dictionary.{Settings}

pub record Bus (W : Type 0) : Type 0 where
  pub list_connections : W → Option (List Text)
  pub get_settings : Text → W → Option Settings
  pub update_profile : Text → Settings → W → Bool × W
  pub delete_profile : Text → W → Bool × W
  pub add_profile : Settings → W → Option Text × W
  pub find_device : Text → W → Option Text
  pub device_type : Text → W → ℕ
  pub active_connection : Text → W → Option Text
  pub profile_of : Text → W → Option Text
  pub activate : Text → Text → W → Bool × W

pub data Failure : Type 0 where
  no_device unsupported_type no_uuid not_disconnected : Failure
  not_added not_updated not_activated not_deleted : Failure
  invalid_address invalid_netmask invalid_gateway invalid_dns : Failure
  invalid_rank same_rank : Failure

pub data Outcome (A : Type 0) : Type 0 where
  ok : A → Outcome A
  err : Failure → Outcome A
