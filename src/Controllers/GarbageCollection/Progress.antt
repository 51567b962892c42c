-- ===== src/Controllers/GarbageCollection/Progress.antt =====
-- Which servers a pass looks at.
use karpenter_provider_stack.Prelude.{
  ℕ, ◌-◌, ◌≡◌, inl, inr, refl, sym, subst, Bool, true, false, Option, none, some, List, [], ◌∷◌,
  Text, text_eq, any, ltb, if◌then◌else◌, In, here, there, arith,
}
use karpenter_provider_stack.Errors.{ok}
use karpenter_provider_stack.Env.Sdk.{Call}
use karpenter_provider_stack.Apis.Core.{NodeClaim, Node}
use karpenter_provider_stack.Stackit.Client.{client_get_server}
use karpenter_provider_stack.Instance.Lifecycle.{delete_server_lem, deletable}
use karpenter_provider_stack.Utils.ProviderId.{parse_instance_id}
use karpenter_provider_stack.Instance.Provider
use karpenter_provider_stack.CloudProvider.{CloudProvider, delete}
use karpenter_provider_stack.Controllers.GarbageCollection.{
  Kube, State, gc_grace_period, garbage_collect, turn, collect_all,
}
use karpenter_provider_stack.Controllers.GarbageCollection.Safety.{
  Collectable, delete-Requested, garbage_collect_calls, request_to_get, requests,
}

module _ (cp : CloudProvider) (kube : Kube) (now : ℕ) where
  in_requests_old :
      (d : Bool) (id : Text) (calls : List Call) (c : Call)
      → In c calls
      → In c (requests cp kube now d id calls)
  in_requests_old true id calls c m = there (there m)
  in_requests_old false id calls c m = there m

  in_requests_get :
      (d : Bool) (id : Text) (calls : List Call)
      → In (request_to_get cp kube now id) (requests cp kube now d id calls)
  in_requests_get true id calls = there (here refl)
  in_requests_get false id calls = here refl

  delete_keeps :
      (nc : NodeClaim) (s : Provider.State) (c : Call)
      → In c s.calls
      → In c (delete cp now nc s).1.calls
  delete_keeps nc s c m =
      elim (delete-Requested cp kube now nc s (parse_instance_id nc.provider_id) refl) [
        | inl same ↦ subst (λ calls. In c calls) (sym same) m
        | inr (id, d, p, e) ↦ subst (λ calls. In c calls) (sym e) (in_requests_old d id s.calls c m)
      ]

  delete_looks :
      (nc : NodeClaim) (s : Provider.State) (x : Text)
      → parse_instance_id nc.provider_id ≡ ok x
      → In (request_to_get cp kube now x) (delete cp now nc s).1.calls
  unfolding delete
  delete_looks nc s x h = rw h (
      subst (λ calls. In (request_to_get cp kube now x) calls)
        (sym (delete_server_lem cp.instances now x s).3)
        (in_requests_get (deletable (client_get_server cp.instances.api x s.calls).0) x s.calls))

  turn_keeps :
      (ids : List Text) (nodes : List Node) (nc : NodeClaim) (c : Option ℕ) (s : State) (r : Call)
      → In r s.provider.calls
      → In r (turn cp kube now ids nodes nc c s).1.provider.calls
  turn_keeps ids nodes nc none s r m = m
  turn_keeps ids nodes nc (some t) s r m =
      tests (any (λ i. text_eq i nc.provider_id) ids) (ltb (now - t) gc_grace_period)
    where
      tests :
          (a b : Bool)
          → In r
              (if a
                then (none, s)
                else if b
                then (none, s)
                else garbage_collect cp kube now nc nodes s).1.provider.calls
      tests true b = m
      tests false true = m
      tests false false =
          subst (λ (p : Provider.State). In r p.calls)
            (sym (garbage_collect_calls cp kube now nc nodes s)) (delete_keeps nc s.provider r m)

  turn_looks :
      (ids : List Text) (nodes : List Node) (nc : NodeClaim) (c : Option ℕ) (s : State) (x : Text)
      → nc.creation_timestamp ≡ c
      → Collectable cp kube now ids nc x
      → In (request_to_get cp kube now x) (turn cp kube now ids nodes nc c s).1.provider.calls
  turn_looks ids nodes nc none s x h (a, (t, e, l), p) = cc
  turn_looks ids nodes nc (some u) s x h (a, (t, e, l), p) =
      let same : some t ≡ some u = cc in
      let old : ltb (now - u) gc_grace_period ≡ false = ground (arith, same) in
      rw (a, old)
        (subst (λ (p : Provider.State). In (request_to_get cp kube now x) p.calls)
          (sym (garbage_collect_calls cp kube now nc nodes s)) (delete_looks nc s.provider x p))

  collect_all_keeps :
      (ids : List Text) (nodes : List Node) (ncs : List NodeClaim) (s : State) (r : Call)
      → In r s.provider.calls
      → In r (collect_all cp kube now ids nodes ncs s).1.provider.calls
  unfolding collect_all
  collect_all_keeps ids nodes [] s r m = m
  collect_all_keeps ids nodes (nc ∷ ncs) s r m =
      collect_all_keeps ids nodes ncs (turn cp kube now ids nodes nc nc.creation_timestamp s).1 r
        (turn_keeps ids nodes nc nc.creation_timestamp s r m)

  -- No orphan is passed over: for each claim that may be collected, the loop asks the API for its
  -- server, whatever happened to the claims before it.
  pub collect_all_progress :
      (ids : List Text) (nodes : List Node) (ncs : List NodeClaim) (s : State) (nc : NodeClaim)
      (x : Text)
      → In nc ncs
      → Collectable cp kube now ids nc x
      → In (request_to_get cp kube now x) (collect_all cp kube now ids nodes ncs s).1.provider.calls
  unfolding collect_all
  collect_all_progress ids nodes [] s nc x m c = elim m [ ]
  collect_all_progress ids nodes (n ∷ ncs) s nc x (here e) c =
      collect_all_keeps ids nodes ncs (turn cp kube now ids nodes n n.creation_timestamp s).1
        (request_to_get cp kube now x)
        (turn_looks ids nodes n n.creation_timestamp s x refl
          (subst (λ m. Collectable cp kube now ids m x) (sym e) c))
  collect_all_progress ids nodes (n ∷ ncs) s nc x (there m) c =
      collect_all_progress ids nodes ncs (turn cp kube now ids nodes n n.creation_timestamp s).1 nc
        x m c
