-- ===== src/Controllers/GarbageCollection/Safety.antt =====
-- Which servers a pass asks to delete.
use karpenter_provider_stack.Prelude.{
  ℕ, ◌-◌, ◌≤◌, ◌≡◌, ◌⊎◌, inl, inr, refl, subst, ap, Bool, true, false, Option, none, some, List, [],
  ◌∷◌, Text, text_eq, any, find, ltb, if◌then◌else◌, In, here, there, arith,
}
use karpenter_provider_stack.Errors.{ClientError, Err, Result, ok, err}
use karpenter_provider_stack.Env.Sdk.{Call, get_server}
use karpenter_provider_stack.Env.Sdk.{delete_server as delete_request}
use karpenter_provider_stack.Apis.Core.{NodeClaim, Node}
use karpenter_provider_stack.Stackit.Client.{call, client_get_server}
use karpenter_provider_stack.Utils.ProviderId.{parse_instance_id}
use karpenter_provider_stack.Instance.Provider
use karpenter_provider_stack.Instance.Provider.{delete_server}
use karpenter_provider_stack.Instance.Lifecycle.{delete_server_lem, deletable}
use karpenter_provider_stack.CloudProvider.{CloudProvider, delete}
use karpenter_provider_stack.Controllers.GarbageCollection.{
  Kube, State, gc_grace_period, garbage_collect, turn, collect_all, after_delete, delete_node_of,
}

module _ (cp : CloudProvider) (kube : Kube) (now : ℕ) where
  -- A claim that no claim of the cluster backs, that was created at least the grace period ago, and
  -- whose provider id is of the server `id`.
  abbrev pub Collectable : List Text → NodeClaim → Text → Type 0
  Collectable cluster_ids nc id =
      (any (λ i. text_eq i nc.provider_id) cluster_ids ≡ false)
      × ((t : ℕ) × (nc.creation_timestamp ≡ some t) × (gc_grace_period ≤ now - t))
      × (parse_instance_id nc.provider_id ≡ ok id)

  abbrev pub request_to_delete : Text → Call
  request_to_delete id = call cp.instances.api (delete_request id)

  abbrev pub request_to_get : Text → Call
  request_to_get id = call cp.instances.api (get_server id)

  abbrev pub requests : Bool → Text → List Call → List Call
  requests d id calls =
      if d then request_to_delete id ∷ request_to_get id ∷ calls else request_to_get id ∷ calls

  in_requests :
      (d : Bool) (id x : Text) (calls : List Call)
      → In (request_to_delete x) (requests d id calls)
      → In (request_to_delete x) calls ⊎ (id ≡ x)
  in_requests true id x calls (here e) = inr (cc e)
  in_requests true id x calls (there (here e)) = cc e
  in_requests true id x calls (there (there m)) = inl m
  in_requests false id x calls (here e) = cc e
  in_requests false id x calls (there m) = inl m

  -- A deletion makes no request, or looks at its server and then perhaps asks to delete it.
  abbrev pub Requested : NodeClaim → Provider.State → Type 0
  Requested nc s =
      ((delete cp now nc s).1.calls ≡ s.calls)
      ⊎ ((id : Text) × (d : Bool) × (parse_instance_id nc.provider_id ≡ ok id)
          × ((delete cp now nc s).1.calls ≡ requests d id s.calls))

  pub delete-Requested :
      (nc : NodeClaim) (s : Provider.State) (r : Result ClientError Text)
      → parse_instance_id nc.provider_id ≡ r
      → Requested nc s
  unfolding delete
  delete-Requested nc s (err e) h = inl (rw h)
  delete-Requested nc s (ok id) h = inr (
    id,
    deletable (client_get_server cp.instances.api id s.calls).0,
    h,
    rw h (delete_server_lem cp.instances now id s).3,
  )

  delete_calls :
      (nc : NodeClaim) (s : Provider.State) (x : Text)
      → In (request_to_delete x) (delete cp now nc s).1.calls
      → In (request_to_delete x) s.calls ⊎ (parse_instance_id nc.provider_id ≡ ok x)
  delete_calls nc s x m = elim (delete-Requested nc s (parse_instance_id nc.provider_id) refl) [
    | inl same ↦ inl (subst (λ calls. In (request_to_delete x) calls) same m)
    | inr (id, d, p, e) ↦
        elim (in_requests d id x s.calls (subst (λ calls. In (request_to_delete x) calls) e m)) [
          | inl old ↦ inl old
          | inr same ↦ inr (rw p (ap ok same))
        ]
  ]

  after_delete_calls :
      (nc : NodeClaim) (nodes : List Node) (e : Option Err) (s : State)
      → (after_delete cp kube now nc nodes e s).1.provider ≡ s.provider
  after_delete_calls nc nodes (some e) s = refl
  after_delete_calls nc nodes none s =
      node_of (find (λ (n : Node). text_eq n.provider_id nc.provider_id) nodes)
    where
      node_of : (r : Option Node) → (delete_node_of cp kube now r s).1.provider ≡ s.provider
      node_of none = refl
      node_of (some n) = refl

  pub garbage_collect_calls :
      (nc : NodeClaim) (nodes : List Node) (s : State)
      → (garbage_collect cp kube now nc nodes s).1.provider ≡ (delete cp now nc s.provider).1
  unfolding garbage_collect
  garbage_collect_calls nc nodes s =
      after_delete_calls nc nodes (delete cp now nc s.provider).0
        (record s { provider = (delete cp now nc s.provider).1 })

  turn_calls :
      (ids : List Text) (nodes : List Node) (nc : NodeClaim) (s : State) (x : Text)
      → (c : Option ℕ) → nc.creation_timestamp ≡ c
      → In (request_to_delete x) (turn cp kube now ids nodes nc c s).1.provider.calls
      → In (request_to_delete x) s.provider.calls ⊎ Collectable ids nc x
  turn_calls ids nodes nc s x none h m = inl m
  turn_calls ids nodes nc s x (some t) h m =
      tests (any (λ i. text_eq i nc.provider_id) ids) refl (ltb (now - t) gc_grace_period) refl m
    where
      tests :
          (a : Bool)
          → any (λ i. text_eq i nc.provider_id) ids ≡ a
          → (b : Bool) → ltb (now - t) gc_grace_period ≡ b
          → In
              (request_to_delete x)
              (if a
                then (none, s)
                else if b
                then (none, s)
                else garbage_collect cp kube now nc nodes s).1.provider.calls
          → In (request_to_delete x) s.provider.calls ⊎ Collectable ids nc x
      tests true ea b eb m = inl m
      tests false ea true eb m = inl m
      tests false ea false eb m =
          elim (delete_calls nc s.provider x (
            subst (λ (p : Provider.State). In (request_to_delete x) p.calls)
              (garbage_collect_calls nc nodes s) m)) [
                | inl old ↦ inl old
                | inr p ↦ inr (ea, (t, h, ground (arith, eb)), p)
              ]

  -- The loop asks to delete a server only if it belongs to a claim of the cloud that no claim of the
  -- cluster backs and whose creation time is known and at least two minutes ago. Requests of before
  -- are still in the history.
  pub collect_all_safe :
      (ids : List Text) (nodes : List Node) (ncs : List NodeClaim) (s : State) (x : Text)
      → In (request_to_delete x) (collect_all cp kube now ids nodes ncs s).1.provider.calls
      → In (request_to_delete x) s.provider.calls
        ⊎ ((nc : NodeClaim) × In nc ncs × Collectable ids nc x)
  unfolding collect_all
  collect_all_safe ids nodes [] s x m = inl m
  collect_all_safe ids nodes (nc ∷ ncs) s x m =
      let s' = (turn cp kube now ids nodes nc nc.creation_timestamp s).1 in
      elim (collect_all_safe ids nodes ncs s' x m) [
        | inr (nc', i, c) ↦ inr (nc', there i, c)
        | inl old ↦ elim (turn_calls ids nodes nc s x nc.creation_timestamp refl old) [
          | inl older ↦ inl older
          | inr c ↦ inr (nc, here refl, c)
        ]
      ]
