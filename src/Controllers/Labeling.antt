-- ===== src/Controllers/Labeling.antt =====
-- pkg/controllers/nodeclaim/labeling/controller.go: the labels of a claim's server.
pub mod Convergence
use karpenter_provider_stack.Prelude.{
  ℕ, Bool, true, false, ◌||◌, Option, none, some, Text, text_eq, [], Map, if◌then◌else◌,
}
use karpenter_provider_stack.Errors.{
  ClientError, Err, client, plain, wrap, is_node_claim_not_found, Result, ok, err,
}
use karpenter_provider_stack.Apis.NodeClass.{StackitNodeClass}
use karpenter_provider_stack.Apis.Core.{NodeClaim}
use karpenter_provider_stack.Utils.ProviderId.{parse_instance_id}
use karpenter_provider_stack.Utils.Labels.{managed_labels}
use karpenter_provider_stack.Instance.{Instance}
use karpenter_provider_stack.Instance.Provider.{State, DefaultProvider, get, update_labels}
use karpenter_provider_stack.Controllers.NodeClass.{Outcome, done, fail, ignore_not_found}

-- `maps_equal` is maps.Equal, which takes no notice of order.
pub record Kube : Type 0 where
  pub get_node_class : Text → Result Err StackitNodeClass
  pub maps_equal : Map Text → Map Text → Bool

abbrev pub ignore_claim_not_found : Err → Outcome
ignore_claim_not_found e = if is_node_claim_not_found e then done else fail e

module _ (kube : Kube) (p : DefaultProvider) (cluster_name : Text) (now : ℕ) where
  -- The error of an update is wrapped also if it was ignored, and fmt.Errorf is never nil.
  abbrev pub after_update : Option Err × State → Outcome × State
  after_update (none, s) = (done, s)
  after_update (some e, s) =
      (if is_node_claim_not_found e then fail (client plain) else fail (wrap e), s)

  abbrev pub relabel :
      Text → StackitNodeClass → NodeClaim → Result Err Instance × State → Outcome × State
  relabel id c nc (err e, s) = (ignore_claim_not_found e, s)
  relabel id c nc (ok inst, s) =
      let desired = managed_labels c nc cluster_name in
      let updated = after_update (update_labels p now id desired s) in
      if kube.maps_equal desired inst.labels then (done, s) else updated

  abbrev pub label_with : Text → NodeClaim → Result Err StackitNodeClass → State → Outcome × State
  label_with id nc (err e) s = (ignore_not_found e, s)
  label_with id nc (ok c) s = relabel id c nc (get p now false id s)

  abbrev pub label_server : Text → NodeClaim → Option Text → State → Outcome × State
  label_server id nc none s = (done, s)
  label_server id nc (some class_name) s = label_with id nc (kube.get_node_class class_name) s

  abbrev pub is_deleting : NodeClaim → Bool
  is_deleting nc = elim nc.deletion_timestamp [ none ↦ false | some t ↦ true ]

  abbrev pub reconcile_parsed : NodeClaim → Result ClientError Text → Bool → State → Outcome × State
  reconcile_parsed nc (err e) skip s = (done, s)
  reconcile_parsed nc (ok id) true s = (done, s)
  reconcile_parsed nc (ok id) false s = label_server id nc nc.node_class_ref s

  -- Reconcile. The order of its first two tests makes no difference: both end it.
  unfoldable pub reconcile : NodeClaim → State → Outcome × State
  reconcile nc s =
      reconcile_parsed nc (parse_instance_id nc.provider_id)
        (is_deleting nc || text_eq nc.provider_id []) s
