-- ===== src/Instance.antt =====
-- pkg/providers/instance: servers launched, inspected and terminated on behalf of NodeClaims.
pub mod Select
pub mod Payload
pub mod Provider
pub mod Lifecycle
pub mod Retry
pub mod Ownership
pub mod Keyed
pub mod Coherence
use karpenter_provider_stack.Prelude.{ℕ, Bool, ◌||◌, Option, none, some, Text, str, text_eq, Map}
use karpenter_provider_stack.Apis.Core.{Server}
use karpenter_provider_stack.Utils.ProviderId
use karpenter_provider_stack.Utils.Zone.{sanitize_zone}
use karpenter_provider_stack.Utils.Labels.{labels_from_api}

abbrev pub status_deleting : Text
status_deleting = str "DELETING"

abbrev pub status_deleted : Text
status_deleted = str "DELETED"

-- `created_at` is none for the zero time; `boot_volume_id` is empty if the server has none.
pub record Instance : Type 0 where
  pub id : Text
  pub name : Text
  pub availability_zone : Text
  pub machine_type : Text
  pub status : Text
  pub created_at : Option ℕ
  pub boot_volume_id : Text
  pub labels : Map Text

unfoldable pub new_instance : Server → Instance
new_instance server = record {
  id = server.id;
  name = server.name;
  availability_zone = server.availability_zone;
  machine_type = server.machine_type;
  status = server.status;
  created_at = server.created_at;
  boot_volume_id = elim server.boot_volume_id [ none ↦ str "" | some v ↦ v ];
  labels = labels_from_api server.labels;
}

unfoldable pub provider_id : Instance → Text
provider_id i = ProviderId.provider_id i.id

unfoldable pub zone : Instance → Text
zone i = sanitize_zone i.availability_zone

unfoldable pub terminating : Instance → Bool
terminating i = text_eq i.status status_deleting || text_eq i.status status_deleted
