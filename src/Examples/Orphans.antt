-- ===== src/Examples/Orphans.antt =====
-- A reconcile that collects the one listed server, which no claim backs.
use karpenter_provider_stack.Prelude.{
  ◌≡◌, ◌⊎◌, refl, none, [], ◌∷◌, In, here, lookup, select, cut_prefix, has_byte, str, text_eq,
}
use karpenter_provider_stack.Errors.{ok, combine, is_kube_not_found, is_node_claim_not_found}
use karpenter_provider_stack.Apis.Core.{Node}
use karpenter_provider_stack.Stackit.Client.{
  client_list_servers, client_get_server, client_delete_server,
}
use karpenter_provider_stack.Utils.Labels.{labels_from_api}
use karpenter_provider_stack.Utils.ProviderId
use karpenter_provider_stack.Utils.ProviderId.{parse_instance_id, provider_id, provider_id_prefix}
use karpenter_provider_stack.Instance
use karpenter_provider_stack.Instance.{new_instance, terminating}
use karpenter_provider_stack.Instance.Provider
use karpenter_provider_stack.Instance.Provider.{
  remember_all, remember, forget, fetch, fetched, deleted, delete_found,
}
use karpenter_provider_stack.CloudProvider
use karpenter_provider_stack.CloudProvider.{
  claims_of, resolve_instance_type, resolve_node_pool, instance_to_node_claim, delete,
}
use karpenter_provider_stack.Controllers.GarbageCollection.{
  Kube, State, reconcile, collect_all, garbage_collect,
}
use karpenter_provider_stack.Controllers.GarbageCollection.Safety.{request_to_delete}
use karpenter_provider_stack.Controllers.GarbageCollection.Reconcile.{Orphan, reconcile_safe}
use karpenter_provider_stack.Controllers.GarbageCollection.Nodes.{reconcile-nodes}
use karpenter_provider_stack.Examples.Data.{server_id, state, cloud}

abbrev node : Node
node = record {
  name = b'n' ∷ [];
  provider_id = provider_id server_id;
  labels = [];
  memory_capacity = 0;
}

abbrev kube : Kube
kube = record { list_managed = ok []; list_nodes = ok (node ∷ []); delete_node = λ n. none }

abbrev collector : State
collector = record { provider = state; successful_count = 0; deleted_nodes = [] }

asked :
    In
      (request_to_delete cloud kube 2000 server_id)
      (reconcile cloud kube 2000 collector).1.provider.calls
unfolding reconcile CloudProvider.list Provider.list client_list_servers claims_of remember_all
    resolve_instance_type resolve_node_pool lookup new_instance labels_from_api is_kube_not_found
    combine collect_all select instance_to_node_claim delete parse_instance_id garbage_collect
    delete_found Provider.delete_server deleted fetch fetched Provider.get remember terminating
    cut_prefix has_byte str text_eq client_delete_server client_get_server provider_id_prefix
    ProviderId.provider_id Instance.provider_id forget is_node_claim_not_found
asked = here refl

reconcile_safe_example :
    In (request_to_delete cloud kube 2000 server_id) [] ⊎ Orphan cloud kube 2000 collector server_id
reconcile_safe_example = reconcile_safe cloud kube 2000 collector server_id (λ c calls. refl) asked

reconcile-nodes_example : (reconcile cloud kube 2000 collector).1.deleted_nodes ≡ []
reconcile-nodes_example = reconcile-nodes cloud kube 2000 collector
