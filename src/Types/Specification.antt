-- ===== src/Types/Specification.antt =====
-- The desired state specification of api/types/desired_state.go.
use update_manager.Base.{String, List}
use update_manager.Types.Progress.{Component}

pub record KeyValuePair : Type 0 where
  pub key : String
  pub value : String

pub record Baseline : Type 0 where
  pub title : String
  pub description : String
  pub preconditions : String
  pub components : List String

-- The embedded Component comes first.
pub record ComponentWithConfig : Type 0 where
  pub component : Component
  pub config : List KeyValuePair

pub record Domain : Type 0 where
  pub id : String
  pub config : List KeyValuePair
  pub components : List ComponentWithConfig

pub record DesiredState : Type 0 where
  pub baselines : List Baseline
  pub domains : List Domain
