-- ===== src/Apis/Core.antt =====
-- What the program reads and writes of the types of Karpenter (NodeClaim, NodePool, InstanceType,
-- Offering) and of Kubernetes (Node), and of the SDK (Server, MachineType, CreateServerPayload).
use karpenter_provider_stack.Prelude.{ℕ, Bool, Option, List, Text, Map}
use karpenter_provider_stack.Prelude.Float.{Float64}

-- A node selector requirement with operator In.
pub record Requirement : Type 0 where
  pub key : Text
  pub values : List Text

abbrev pub Requirements : Type 0
Requirements = List Requirement

-- resource.Quantity in thousandths of its unit.
abbrev pub Quantity : Type 0
Quantity = ℕ

abbrev pub ResourceList : Type 0
ResourceList = Map Quantity

pub record Offering : Type 0 where
  pub requirements : Requirements
  pub price : Float64
  pub available : Bool

pub record Overhead : Type 0 where
  pub kube_reserved : ResourceList
  pub system_reserved : ResourceList
  pub eviction_threshold : ResourceList

pub record InstanceType : Type 0 where
  pub name : Text
  pub requirements : Requirements
  pub offerings : List Offering
  pub capacity : ResourceList
  pub overhead : Overhead

pub record NodeClaim : Type 0 where
  pub name : Text
  pub labels : Map Text
  pub annotations : Map Text
  pub creation_timestamp : Option ℕ
  pub deletion_timestamp : Option ℕ
  -- spec
  pub node_class_ref : Option Text
  pub requirements : Requirements
  pub requests : ResourceList
  -- status
  pub provider_id : Text
  pub capacity : ResourceList
  pub allocatable : ResourceList
  -- whether status.conditions holds a Drifted condition
  pub drifted_condition : Bool

pub record NodePool : Type 0 where
  pub name : Text
  pub node_class_ref : Option Text

pub record Node : Type 0 where
  pub name : Text
  pub provider_id : Text
  pub labels : Map Text
  pub memory_capacity : Quantity

-- iaas.MachineType
pub record MachineType : Type 0 where
  pub name : Text
  pub vcpus : ℕ
  pub ram : ℕ
  pub disk : ℕ

-- A value of map[string]interface{}: a string, or something else.
pub data LabelValue : Type 0 where
  string_value : Text → LabelValue
  other_value : LabelValue

-- iaas.Server, each field by its getter's result: `created_at` is none for the zero time.
pub record Server : Type 0 where
  pub id : Text
  pub name : Text
  pub availability_zone : Text
  pub machine_type : Text
  pub status : Text
  pub created_at : Option ℕ
  pub labels : Map LabelValue
  pub boot_volume_id : Option Text
