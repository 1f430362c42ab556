-- ===== src/Types/Nodes.antt =====
-- The inventory graph of api/types/inventory.go.
use update_manager.Base.{String, Bool, true, false, List}
use update_manager.Types.Specification.{KeyValuePair}

pub data SoftwareType : Type 0 where
  image raw software_data application container : SoftwareType
  other : String → SoftwareType

pub record InventoryNode : Type 0 where
  pub id : String
  pub version : String
  pub name : String
  pub parameters : List KeyValuePair

pub record HardwareNode : Type 0 where
  pub node : InventoryNode
  pub open node use *
  pub addressable : Bool

pub record SoftwareNode : Type 0 where
  pub node : InventoryNode
  pub open node use *
  pub type : SoftwareType

pub record Association : Type 0 where
  pub source_id : String
  pub target_id : String

pub record Inventory : Type 0 where
  pub hardware_nodes : List HardwareNode
  pub software_nodes : List SoftwareNode
  pub associations : List Association

-- `t == SoftwareTypeApplication`
abbrev pub is_application : SoftwareType → Bool
is_application application = true
is_application _ = false
