-- ===== src/Controllers/GarbageCollection.antt =====
-- pkg/controllers/nodeclaim/garbagecollection/controller.go: servers without a NodeClaim. The
-- parallel loop is the sequence of its turns; the claims may come in any order.
pub mod Safety
pub mod Progress
pub mod Spares
pub mod Listing
pub mod Reconcile
pub mod Nodes
use karpenter_provider_stack.Prelude.{
  ℕ, ◌+◌, ◌-◌, ◌*◌, ◌%◌, ◌^◌, Bool, true, false, not, Option, none, some, List, [], ◌∷◌, map, Text,
  text_eq, any, select, find, ltb, leb, if◌then◌else◌,
}
use karpenter_provider_stack.Errors.{
  Err, wrap, is_node_claim_not_found, is_kube_not_found, combine, Result, ok, err,
}
use karpenter_provider_stack.Apis.Core.{NodeClaim, Node}
use karpenter_provider_stack.Instance.Provider
use karpenter_provider_stack.CloudProvider.{CloudProvider, delete, list}
use karpenter_provider_stack.Controllers.NodeClass.{Outcome, requeue_after, fail}

abbrev pub gc_grace_period : ℕ
gc_grace_period = 2 * 60

-- The Kubernetes client: the managed claims, the nodes, and the answer to the deletion of a node.
pub record Kube : Type 0 where
  pub list_managed : Result Err (List NodeClaim)
  pub list_nodes : Result Err (List Node)
  pub delete_node : Node → Option Err

pub record State : Type 0 where
  pub provider : Provider.State
  pub successful_count : ℕ
  -- the nodes whose deletion was asked for
  pub deleted_nodes : List Node

abbrev pub is_zero {ℓ} : {A : Type ℓ} → Option A → Bool
is_zero none = true
is_zero (some t) = false

abbrev pub ids_of : List NodeClaim → List Text
ids_of claims = select (λ id. not (text_eq id [])) (map (λ (nc : NodeClaim). nc.provider_id) claims)

module _ (cp : CloudProvider) (kube : Kube) (now : ℕ) where
  abbrev pub delete_node_of : Option Node → State → Option Err × State
  delete_node_of none s = (none, s)
  delete_node_of (some node) s = (
    elim (kube.delete_node node) [
      | none ↦ none
      | some e ↦ if is_kube_not_found e then none else some e
    ],
    record s { deleted_nodes = node ∷ s.deleted_nodes },
  )

  abbrev pub after_delete : NodeClaim → List Node → Option Err → State → Option Err × State
  after_delete nc nodes (some e) s = (if is_node_claim_not_found e then none else some e, s)
  after_delete nc nodes none s =
      delete_node_of (find (λ (n : Node). text_eq n.provider_id nc.provider_id) nodes) s

  unfoldable pub garbage_collect : NodeClaim → List Node → State → Option Err × State
  garbage_collect nc nodes s =
      let (e, provider) = delete cp now nc s.provider in
      after_delete nc nodes e (record s { provider = provider })

  -- One turn of the loop, from the claim's creation time.
  abbrev pub turn : List Text → List Node → NodeClaim → Option ℕ → State → Option Err × State
  turn cluster_ids nodes nc none s = (none, s)
  turn cluster_ids nodes nc (some t) s =
      let collected = garbage_collect nc nodes s in
      if any (λ id. text_eq id nc.provider_id) cluster_ids
      then (none, s)
      else if ltb (now - t) gc_grace_period
      then (none, s)
      else collected

  unfoldable pub collect_all :
      List Text → List Node → List NodeClaim → State → List (Option Err) × State
  unfolding garbage_collect
  collect_all cluster_ids nodes [] s = ([], s)
  collect_all cluster_ids nodes (nc ∷ ncs) s =
      let (e, s') = turn cluster_ids nodes nc nc.creation_timestamp s in
      let (es, s'') = collect_all cluster_ids nodes ncs s' in (e ∷ es, s'')

  abbrev pub finish : Option Err → State → Outcome × State
  finish (some e) s = (fail e, s)
  finish none s =
      let count = (s.successful_count + 1) % 2 ^ 64 in
      (requeue_after (if leb count 20 then 10 else 2 * 60), record s { successful_count = count })

  -- The pass, from the three listings; the claims that are terminating are left out first.
  abbrev pub pass :
      List NodeClaim
      → Result Err (List NodeClaim)
      → Result Err (List Node)
      → State
      → Outcome × State
  pass cloud (err e) nodes s = (fail e, s)
  pass cloud (ok managed) (err e) s = (fail e, s)
  pass cloud (ok managed) (ok nodes) s =
      let live = select (λ (nc : NodeClaim). is_zero nc.deletion_timestamp) cloud in
      let (es, s') = collect_all (ids_of managed) nodes live s in finish (combine es) s'

  abbrev pub reconcile_with : Result Err (List NodeClaim) → State → Outcome × State
  reconcile_with (err e) s = (fail (wrap e), s)
  reconcile_with (ok cloud) s = pass cloud kube.list_managed kube.list_nodes s

  unfoldable pub reconcile : State → Outcome × State
  reconcile s =
      let (cloud, provider) = list cp now s.provider in
      reconcile_with cloud (record s { provider = provider })
