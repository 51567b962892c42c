-- ===== src/CloudProvider/Terminating.antt =====
-- A class that is being deleted counts as not found in every call that resolves it.
use karpenter_provider_stack.Prelude.{ℕ, ◌≡◌, refl, ap, ◌∙◌, true, none, some, List, Text, lookup}
use karpenter_provider_stack.Errors.{
  Err, Result, ok, err, kube_not_found, insufficient_capacity, wrap, is_kube_not_found,
}
use karpenter_provider_stack.Apis.LabelKeys.{label_key_node_pool}
use karpenter_provider_stack.Apis.NodeClass.{StackitNodeClass}
use karpenter_provider_stack.Apis.Core.{NodeClaim, NodePool, InstanceType}
use karpenter_provider_stack.Instance.{Instance}
use karpenter_provider_stack.Instance.Provider.{State}
use karpenter_provider_stack.CloudProvider.{
  CloudProvider, resolve_node_class, resolve_node_pool, create, create_with, get_instance_types,
  resolve_instance_type, type_in, type_of, types_of, is_drifted, drift_in, drift_against,
  drift_by_pool, drift_by_ref,
}
use karpenter_provider_stack.CloudProvider.Drift.{no_drift}

module _ (cp : CloudProvider) (name : Text) (c : StackitNodeClass) (deleted : ℕ)
    (found : cp.get_node_class name ≡ ok c) (deleting : c.deletion_timestamp ≡ some deleted) where
  not_resolved : resolve_node_class cp (some name) ≡ err kube_not_found
  unfolding resolve_node_class
  not_resolved = rw (found, deleting) refl

  missing : is_kube_not_found kube_not_found ≡ true
  unfolding is_kube_not_found
  missing = refl

  -- What a call finds of the class.
  module _ (now : ℕ) (s : State) where
    create_refused :
        (asked : NodeClaim)
        → asked.node_class_ref ≡ some name
        → create cp now asked s ≡ (err (insufficient_capacity (wrap kube_not_found)), s)
    unfolding create
    create_refused asked h =
        ap (λ r. create_with cp now asked r s) (ap (resolve_node_class cp) h ∙ not_resolved)
        ∙ rw missing refl

    types_missing :
        (pool : NodePool)
        → pool.node_class_ref ≡ some name
        → get_instance_types cp now pool s ≡ (err (wrap kube_not_found), s)
    unfolding get_instance_types
    types_missing pool h =
        ap (λ r. types_of cp now r s) (ap (resolve_node_class cp) h ∙ not_resolved)

    type_missing :
        (inst : Instance) (pool : NodePool)
        → resolve_node_pool cp inst ≡ ok pool
        → pool.node_class_ref ≡ some name
        → resolve_instance_type cp now inst s ≡ (ok none, s)
    unfolding resolve_instance_type is_kube_not_found
    type_missing inst pool r h =
        ap (λ x. type_in cp now inst x s) r
        ∙ ap (λ (q : Result Err (List InstanceType) × State). (type_of cp now inst q.0, q.1))
            (types_missing pool h)

    no_drift_found :
        (claim : NodeClaim) (pool_name : Text) (pool : NodePool)
        → lookup label_key_node_pool claim.labels ≡ some pool_name
        → cp.get_node_pool pool_name ≡ ok pool
        → pool.node_class_ref ≡ some name
        → is_drifted cp now claim s ≡ (ok no_drift, s)
    unfolding is_drifted
    no_drift_found claim pool_name pool l r h =
        ap (λ x. drift_by_pool cp now claim x s) l
        ∙ ap (λ x. drift_in cp now claim x s) r
        ∙ ap (λ x. drift_by_ref cp now claim x s) h
        ∙ ap (λ x. drift_against cp now claim x s) not_resolved
        ∙ rw missing refl

    -- While a class is being deleted: Create for a claim of it reports insufficient capacity, and the
    -- instance types of a pool of it are an error; a server of such a pool is listed without its
    -- instance type, and a claim of such a pool has not drifted. None of these sends a request or
    -- changes the state.
    pub terminating_class_lem :
        (asked claim : NodeClaim) (pool : NodePool) (pool_name : Text) (inst : Instance)
        → asked.node_class_ref ≡ some name
        → pool.node_class_ref ≡ some name
        → resolve_node_pool cp inst ≡ ok pool
        → lookup label_key_node_pool claim.labels ≡ some pool_name
        → cp.get_node_pool pool_name ≡ ok pool
        → (create cp now asked s ≡ (err (insufficient_capacity (wrap kube_not_found)), s))
          × (get_instance_types cp now pool s ≡ (err (wrap kube_not_found), s))
          × (resolve_instance_type cp now inst s ≡ (ok none, s))
          × (is_drifted cp now claim s ≡ (ok no_drift, s))
    terminating_class_lem asked claim pool pool_name inst a h r l g = (
      create_refused asked a,
      types_missing pool h,
      type_missing inst pool r h,
      no_drift_found claim pool_name pool l g h,
    )
