-- ===== src/Env/Sdk.antt =====
-- The generated STACKIT IaaS SDK (iaas.DefaultAPI): what it answers is a function of the requests
-- made so far, newest first, and of the request. Each answer is the response, which may be nil for
-- the listing calls, or an error.
use karpenter_provider_stack.Prelude.{ℕ, Bool, Option, List, Text, Map}
use karpenter_provider_stack.Errors.{ClientError, Result}
use karpenter_provider_stack.Apis.Core.{Server, MachineType, LabelValue}

-- networking: exactly one of a network and network interfaces
pub data Networking : Type 0 where
  with_network : Option Text → Networking
  with_nics : List Text → Networking

pub record BootVolume : Type 0 where
  pub size : ℕ
  pub delete_on_termination : Bool
  pub performance_class : Option Text
  pub source_id : Text
  pub source_type : Text

pub record CreateServerPayload : Type 0 where
  pub name : Text
  pub machine_type : Text
  pub availability_zone : Text
  pub labels : Map LabelValue
  pub networking : Networking
  pub boot_volume : BootVolume
  pub user_data : Option Text
  pub keypair_name : Option Text
  pub affinity_group : Option Text
  pub security_groups : List Text
  pub service_account_mails : List Text

pub data Request : Type 0 where
  create_server : CreateServerPayload → Request
  get_server : Text → Request
  delete_server : Text → Request
  -- with details, and with the label selector if one is set
  list_servers : Option Text → Request
  update_server : Text → Map LabelValue → Request
  list_machine_types : Request
  list_availability_zones : Request
  delete_volume : Text → Request

-- A request goes to one project and region; ListAvailabilityZones has no project.
pub record Call : Type 0 where
  pub project_id : Option Text
  pub region : Text
  pub request : Request

abbrev pub Answer : Type 0 → Type 0
Answer A = List Call → Result ClientError A

pub record Sdk : Type 0 where
  pub on_create_server : CreateServerPayload → Answer Server
  pub on_get_server : Text → Answer Server
  pub on_delete_server : Text → Answer (Unit {0})
  pub on_list_servers : Option Text → Answer (Option (List Server))
  pub on_update_server : Text → Map LabelValue → Answer Server
  pub on_list_machine_types : Answer (Option (List MachineType))
  pub on_list_availability_zones : Answer (Option (List Text))
  pub on_delete_volume : Text → Answer (Unit {0})
