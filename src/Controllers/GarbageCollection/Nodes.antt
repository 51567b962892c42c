-- ===== src/Controllers/GarbageCollection/Nodes.antt =====
-- The Nodes of collected servers.
use karpenter_provider_stack.Prelude.{
  ℕ, ◌-◌, ◌≡◌, refl, ◌∙◌, Bool, true, false, Option, none, some, List, [], ◌∷◌, Text, any, text_eq,
  ltb, select, if◌then◌else◌,
}
use karpenter_provider_stack.Errors.{ClientError, Err, Result, ok, err, combine}
use karpenter_provider_stack.Apis.Core.{NodeClaim, Node}
use karpenter_provider_stack.Utils.ProviderId.{parse_instance_id}
use karpenter_provider_stack.Instance.Provider
use karpenter_provider_stack.Instance.Lifecycle.{delete_server_lem}
use karpenter_provider_stack.CloudProvider.{CloudProvider, delete, delete_parsed, list}
use karpenter_provider_stack.Controllers.GarbageCollection.{
  Kube, State, ids_of, is_zero, garbage_collect, after_delete, turn, collect_all, gc_grace_period,
  pass, finish, reconcile_with, reconcile,
}

module _ (cp : CloudProvider) (kube : Kube) (now : ℕ) where
  -- Deleting a claim gives an error on every path.
  delete_fails :
      (nc : NodeClaim) (s : Provider.State) → (e : Err) × ((delete cp now nc s).0 ≡ some e)
  unfolding delete
  delete_fails nc s = by_id (parse_instance_id nc.provider_id)
    where
      by_id : (r : Result ClientError Text) → (e : Err) × ((delete_parsed cp now r s).0 ≡ some e)
      by_id (err e) = (_, refl)
      by_id (ok id) = let failed = delete_server_lem cp.instances now id s in (failed.0, failed.1)

  after_failed :
      (nc : NodeClaim) (nodes : List Node) (r : Option Err) (s : State)
      → (e : Err) × (r ≡ some e)
      → (after_delete cp kube now nc nodes r s).1.deleted_nodes ≡ s.deleted_nodes
  after_failed nc nodes none s (e, h) = cc
  after_failed nc nodes (some e) s h = refl

  garbage_collect-nodes :
      (nc : NodeClaim) (nodes : List Node) (s : State)
      → (garbage_collect cp kube now nc nodes s).1.deleted_nodes ≡ s.deleted_nodes
  unfolding garbage_collect
  garbage_collect-nodes nc nodes s =
      after_failed nc nodes (delete cp now nc s.provider).0
        (record s { provider = (delete cp now nc s.provider).1 }) (delete_fails nc s.provider)

  turn-nodes :
      (ids : List Text) (nodes : List Node) (nc : NodeClaim) (c : Option ℕ) (s : State)
      → (turn cp kube now ids nodes nc c s).1.deleted_nodes ≡ s.deleted_nodes
  turn-nodes ids nodes nc none s = refl
  turn-nodes ids nodes nc (some t) s =
      tests (any (λ i. text_eq i nc.provider_id) ids) (ltb (now - t) gc_grace_period)
    where
      tests :
          (a b : Bool)
          → (if a
              then (none, s)
              else if b
              then (none, s)
              else garbage_collect cp kube now nc nodes s).1.deleted_nodes
            ≡ s.deleted_nodes
      tests true b = refl
      tests false true = refl
      tests false false = garbage_collect-nodes nc nodes s

  collect_all-nodes :
      (ids : List Text) (nodes : List Node) (ncs : List NodeClaim) (s : State)
      → (collect_all cp kube now ids nodes ncs s).1.deleted_nodes ≡ s.deleted_nodes
  unfolding collect_all
  collect_all-nodes ids nodes [] s = refl
  collect_all-nodes ids nodes (nc ∷ ncs) s =
      collect_all-nodes ids nodes ncs (turn cp kube now ids nodes nc nc.creation_timestamp s).1
      ∙ turn-nodes ids nodes nc nc.creation_timestamp s

  finish-nodes :
      (e : Option Err) (s : State) → (finish cp kube now e s).1.deleted_nodes ≡ s.deleted_nodes
  finish-nodes none s = refl
  finish-nodes (some e) s = refl

  pass-nodes :
      (cloud : List NodeClaim) (managed : Result Err (List NodeClaim))
      (nodes : Result Err (List Node)) (s : State)
      → (pass cp kube now cloud managed nodes s).1.deleted_nodes ≡ s.deleted_nodes
  pass-nodes cloud (err e) nodes s = refl
  pass-nodes cloud (ok managed) (err e) s = refl
  pass-nodes cloud (ok managed) (ok nodes) s =
      let live = select (λ (nc : NodeClaim). is_zero nc.deletion_timestamp) cloud in
      let collected = collect_all cp kube now (ids_of managed) nodes live s in
      finish-nodes (combine collected.0) collected.1
      ∙ collect_all-nodes (ids_of managed) nodes live s

  -- A reconcile asks for the deletion of no Node, whatever it collects and whatever the APIs answer.
  pub reconcile-nodes : (s : State) → (reconcile cp kube now s).1.deleted_nodes ≡ s.deleted_nodes
  unfolding reconcile
  reconcile-nodes s =
      by_cloud (list cp now s.provider).0 (record s { provider = (list cp now s.provider).1 }) refl
    where
      by_cloud :
          (r : Result Err (List NodeClaim)) (s' : State)
          → s'.deleted_nodes ≡ s.deleted_nodes
          → (reconcile_with cp kube now r s').1.deleted_nodes ≡ s.deleted_nodes
      by_cloud (err e) s' h = h
      by_cloud (ok cloud) s' h = pass-nodes cloud kube.list_managed kube.list_nodes s' ∙ h
