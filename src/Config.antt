-- ===== src/Config.antt =====
-- The configuration of config/config_internal.go, as far as the orchestration reads it.
pub mod Agents
pub mod Flags
pub mod Preparation
pub mod Binding
pub mod Loading
use update_manager.Base.{String, Bool, List}
use update_manager.Types.{CommandType}

-- api.UpdateManagerConfig
pub record UpdateManagerConfig : Type 0 where
  pub name : String
  pub reboot_required : Bool
  pub read_timeout : String

pub record Config : Type 0 where
  pub domain : String
  pub agents : List (String × UpdateManagerConfig)
  pub reboot_enabled : Bool
  pub owner_consent_commands : List CommandType
