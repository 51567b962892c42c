-- ===== src/Examples/Pools.antt =====
-- A pool, a claim and a server of a class that is being deleted.
use karpenter_provider_stack.Prelude.{◌≡◌, refl, none, some, [], ◌∷◌, lookup, str, text_eq}
use karpenter_provider_stack.Errors.{ok, err, kube_not_found, insufficient_capacity, wrap}
use karpenter_provider_stack.Apis.LabelKeys.{label_key_node_pool}
use karpenter_provider_stack.Apis.NodeClass.{StackitNodeClass}
use karpenter_provider_stack.Apis.Core.{NodeClaim, NodePool}
use karpenter_provider_stack.Instance.{Instance}
use karpenter_provider_stack.CloudProvider.{
  CloudProvider, resolve_node_pool, create, get_instance_types, resolve_instance_type, is_drifted,
}
use karpenter_provider_stack.CloudProvider.Drift.{no_drift}
use karpenter_provider_stack.CloudProvider.Terminating.{terminating_class_lem}
use karpenter_provider_stack.Examples.Data.{class, claim, small, zone_a, server_id, state, cloud}

abbrev deleted_class : StackitNodeClass
deleted_class = record class { deletion_timestamp = some 9 }

abbrev pool : NodePool
pool = record { name = b'p' ∷ []; node_class_ref = some class.name }

abbrev deleting : CloudProvider
deleting = record cloud {
  get_node_class = λ name. ok deleted_class;
  get_node_pool = λ name. ok pool;
}

abbrev asked : NodeClaim
asked = record claim { node_class_ref = some class.name }

abbrev pooled : NodeClaim
pooled = record claim { labels = (label_key_node_pool, pool.name) ∷ [] }

abbrev inst : Instance
inst = record {
  id = server_id;
  name = b'n' ∷ [];
  availability_zone = zone_a;
  machine_type = small;
  status = [];
  created_at = none;
  boot_volume_id = [];
  labels = (label_key_node_pool, pool.name) ∷ [];
}

in_pool : lookup label_key_node_pool pooled.labels ≡ some pool.name
unfolding lookup str text_eq
in_pool = refl

pool_found : resolve_node_pool deleting inst ≡ ok pool
unfolding resolve_node_pool lookup str text_eq
pool_found = refl

terminating_class_lem_example :
    (create deleting 5 asked state ≡ (err (insufficient_capacity (wrap kube_not_found)), state))
    × (get_instance_types deleting 5 pool state ≡ (err (wrap kube_not_found), state))
    × (resolve_instance_type deleting 5 inst state ≡ (ok none, state))
    × (is_drifted deleting 5 pooled state ≡ (ok no_drift, state))
terminating_class_lem_example =
    terminating_class_lem deleting class.name deleted_class 9 refl refl 5 state asked pooled pool
      pool.name inst refl refl pool_found in_pool refl
