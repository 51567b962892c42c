-- ===== src/Instance/Payload.antt =====
-- createPayload, networking and serverName (pkg/providers/instance/instance.go).
pub mod Laws
use karpenter_provider_stack.Prelude.{
  ℕ, Bool, true, false, not, ◌&&◌, Option, none, some, List, [], ◌∷◌, ◌++◌, Text, str, text_eq, Map,
  length, ltb, if◌then◌else◌,
}
use karpenter_provider_stack.Errors.{ClientError, plain, Result, ok, err, ◌>>=◌}
use karpenter_provider_stack.Env.Sdk.{CreateServerPayload, Networking, with_network, with_nics}
use karpenter_provider_stack.Apis.NodeClass.{
  StackitNodeClass, from_ptr_or, delete_boot_volume_on_termination, boot_volume_source_type,
}
use karpenter_provider_stack.Apis.Core.{NodeClaim, InstanceType}
use karpenter_provider_stack.Utils.Labels.{labels_to_api}

abbrev pub is_set : Option Text → Bool
is_set none = false
is_set (some s) = not (text_eq s [])

abbrev pub is_empty {ℓ} : {A : Type ℓ} → List A → Bool
is_empty [] = true
is_empty (x ∷ xs) = false

-- The switch of networking.
unfoldable pub networking : StackitNodeClass → Result ClientError Networking
networking node_class =
    let spec = node_class.spec.networking in
    let has_network = is_set spec.network_id in
    let has_nics = not (is_empty spec.nic_ids) in
    if has_network && has_nics
    then err plain
    else if has_network
    then ok (with_network spec.network_id)
    else if has_nics
    then ok (with_nics spec.nic_ids)
    else err plain

abbrev pub max_server_name_length : ℕ
max_server_name_length = 63

unfoldable pub server_name : StackitNodeClass → NodeClaim → Result ClientError Text
server_name node_class node_claim =
    let prefix = from_ptr_or node_class.spec.server_name_prefix [] in
    let name =
      if not (text_eq prefix []) then prefix ++ (b'-' ∷ node_claim.name) else node_claim.name in
    if ltb max_server_name_length (length name) then err plain else ok name

-- A list that is sent only if it is not empty; nil and the empty list are one here.
abbrev pub payload_of :
    StackitNodeClass → InstanceType → Text → Map Text → Networking → Text → CreateServerPayload
payload_of node_class instance_type zone labels net name = record {
  name = name;
  machine_type = instance_type.name;
  availability_zone = zone;
  labels = labels_to_api labels;
  networking = net;
  boot_volume = record {
    size = node_class.spec.boot_volume.size;
    delete_on_termination = delete_boot_volume_on_termination node_class;
    performance_class = node_class.spec.boot_volume.performance_class;
    source_id = node_class.spec.boot_volume.source.id;
    source_type = boot_volume_source_type node_class;
  };
  user_data = node_class.spec.user_data;
  keypair_name = node_class.spec.keypair_name;
  affinity_group = node_class.spec.affinity_group;
  security_groups = node_class.spec.security_groups;
  service_account_mails = node_class.spec.service_account_mails;
}

unfoldable pub create_payload :
    StackitNodeClass
    → NodeClaim
    → InstanceType
    → Text
    → Map Text
    → Result ClientError CreateServerPayload
create_payload node_class node_claim instance_type zone labels = do
  net ← networking node_class
  name ← server_name node_class node_claim
  ok (payload_of node_class instance_type zone labels net name)
