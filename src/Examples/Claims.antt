-- ===== src/Examples/Claims.antt =====
-- The theorems on the cloud provider and on garbage collection, at one claim.
use karpenter_provider_stack.Prelude.{
  ◌≡◌, ◌≢◌, ◌↔◌, refl, none, some, [], ◌∷◌, lookup, All, In, here, str, has_byte, text_eq,
  cut_prefix, arith,
}
use karpenter_provider_stack.Errors.{ok}
use karpenter_provider_stack.Apis.LabelKeys.{
  annotation_hash, annotation_hash_version, label_topology_zone, label_topology_region,
  label_capacity_type, capacity_type_on_demand,
}
use karpenter_provider_stack.Apis.Core.{NodeClaim}
use karpenter_provider_stack.Utils.ProviderId.{
  parse_instance_id, parse_instance_id_iff, provider_id, provider_id_prefix, IsInstanceId,
}
use karpenter_provider_stack.Utils.Zone.{sanitize_zone}
use karpenter_provider_stack.Instance
use karpenter_provider_stack.Instance.{Instance, new_instance, terminating}
use karpenter_provider_stack.Instance.Provider
use karpenter_provider_stack.Instance.Provider.{
  launch, launched, get, fetch, fetched, delete_found, deleted, remember, forget,
}
use karpenter_provider_stack.Instance.Payload.{create_payload, networking, server_name}
use karpenter_provider_stack.Instance.Select.{
  cheapest_offering, cheapest_loop, consider, resources_fit, fits, best_of, improve,
}
use karpenter_provider_stack.Stackit.Client.{
  client_create_server, client_get_server, client_delete_server,
}
use karpenter_provider_stack.CloudProvider.{
  created, create, resolve_node_class, readiness, delete, instance_to_node_claim,
}
use karpenter_provider_stack.CloudProvider.Claims.{
  FromReadyClass, create_lem, instance_to_node_claim_lem,
}
use karpenter_provider_stack.CloudProvider.Drift.{
  are_static_fields_drifted, zone_drifted, node_class_drift, availability_zone_drift,
}
use karpenter_provider_stack.CloudProvider.Drift.Laws.{
  HashesDiffer, static_drift_iff, zone_drift_iff,
}
use karpenter_provider_stack.Controllers.GarbageCollection.{
  Kube, State, collect_all, garbage_collect,
}
use karpenter_provider_stack.Controllers.GarbageCollection.Safety.{
  Collectable, request_to_delete, request_to_get,
}
use karpenter_provider_stack.Controllers.GarbageCollection.Progress.{collect_all_progress}
use karpenter_provider_stack.Examples.Data.{
  zone_a, zone_b, server, server_id, class, claim, instance_type, state, cloud,
}

static_drift_iff_example :
    (are_static_fields_drifted claim class ≡ node_class_drift)
    ↔ HashesDiffer
        (lookup annotation_hash class.annotations)
        (lookup annotation_hash_version class.annotations)
        (lookup annotation_hash claim.annotations)
        (lookup annotation_hash_version claim.annotations)
static_drift_iff_example = static_drift_iff claim class

abbrev inst : Instance
inst = record {
  id = server_id;
  name = [];
  availability_zone = zone_a;
  machine_type = instance_type.name;
  status = [];
  created_at = some 1000;
  boot_volume_id = [];
  labels = [];
}

zone_drift_iff_example :
    (zone_drifted (zone_b ∷ []) inst ≡ availability_zone_drift)
    ↔ ((zone_b ∷ [] ≢ []) × All (λ y. sanitize_zone y ≢ Instance.zone inst) (zone_b ∷ []))
zone_drift_iff_example = zone_drift_iff (zone_b ∷ []) inst

is_id : IsInstanceId server_id
unfolding text_eq has_byte
is_id = (refl, refl)

instance_to_node_claim_lem_example :
    (lookup label_topology_zone (instance_to_node_claim cloud inst (some instance_type)).labels
      ≡ some (sanitize_zone inst.availability_zone))
    × (lookup label_topology_region (instance_to_node_claim cloud inst (some instance_type)).labels
        ≡ some cloud.region)
    × (lookup label_capacity_type (instance_to_node_claim cloud inst (some instance_type)).labels
        ≡ some capacity_type_on_demand)
    × (parse_instance_id (instance_to_node_claim cloud inst (some instance_type)).provider_id
        ≡ ok server_id)
instance_to_node_claim_lem_example =
    instance_to_node_claim_lem cloud inst (some instance_type) is_id

abbrev new_claim : NodeClaim
new_claim = created cloud class (instance_type ∷ []) (new_instance server)

succeeds : (create cloud 5 claim state).0 ≡ ok new_claim
unfolding create resolve_node_class readiness Provider.create cheapest_offering cheapest_loop
    consider resources_fit fits best_of improve launch create_payload networking text_eq server_name
    launched client_create_server
succeeds = refl

create_lem_example : FromReadyClass cloud claim new_claim
create_lem_example = create_lem cloud 5 claim new_claim state succeeds

abbrev kube : Kube
kube = record { list_managed = ok []; list_nodes = ok []; delete_node = λ n. none }

abbrev gc_state : State
gc_state = record { provider = state; successful_count = 0; deleted_nodes = [] }

abbrev orphan : NodeClaim
orphan = record claim { provider_id = provider_id server_id }

orphan-Collectable : Collectable cloud kube 2000 [] orphan server_id
orphan-Collectable = (
  refl,
  (1000, refl, omega arith),
  (parse_instance_id_iff (provider_id server_id) server_id).1 (refl, is_id),
)

collect_all_progress_example :
    In
      (request_to_get cloud kube 2000 server_id)
      (collect_all cloud kube 2000 [] [] (orphan ∷ []) gc_state).1.provider.calls
collect_all_progress_example =
    collect_all_progress cloud kube 2000 [] [] (orphan ∷ []) gc_state orphan server_id (here refl)
      orphan-Collectable

asked :
    In
      (request_to_delete cloud kube 2000 server_id)
      (collect_all cloud kube 2000 [] [] (orphan ∷ []) gc_state).1.provider.calls
unfolding collect_all garbage_collect delete parse_instance_id cut_prefix provider_id_prefix
    provider_id str text_eq has_byte Provider.delete_server get fetch fetched client_get_server
    delete_found new_instance terminating client_delete_server deleted remember forget
asked = here refl
