-- ===== src/Controllers/Labeling/Convergence.antt =====
-- A server's labels settle: after an update, the next reconcile finds nothing to do.
use karpenter_provider_stack.Prelude.{
  ℕ, ◌≡◌, refl, ap, ◌∙◌, Bool, true, false, ◌||◌, Option, none, some, List, [], ◌∷◌, Text, str,
  text_eq, Map,
}
use karpenter_provider_stack.Errors.{ok}
use karpenter_provider_stack.Env.GoCache.{IsGoCache}
use karpenter_provider_stack.Env.Sdk.{Call, get_server, update_server}
use karpenter_provider_stack.Apis.NodeClass.{StackitNodeClass}
use karpenter_provider_stack.Apis.Core.{NodeClaim, Server}
use karpenter_provider_stack.Cache.{default_ttl}
use karpenter_provider_stack.Stackit.Client.{
  Client, call, client_get_server, client_update_server_labels,
}
use karpenter_provider_stack.Utils.ProviderId.{
  provider_id, provider_id_prefix, parse_instance_id_iff, IsInstanceId,
}
use karpenter_provider_stack.Utils.Labels.{managed_labels, labels_to_api, labels_from_api}
use karpenter_provider_stack.Instance.{Instance, new_instance}
use karpenter_provider_stack.Instance.Ownership.{labels_from_api-labels_to_api}
use karpenter_provider_stack.Instance.Provider.{
  State, DefaultProvider, get, fetch, fetched, remember, forget, update_labels,
}
use karpenter_provider_stack.Controllers.NodeClass.{done}
use karpenter_provider_stack.Controllers.Labeling.{
  Kube, relabel, label_with, label_server, is_deleting, reconcile_parsed, reconcile,
}

-- The API's documented behaviour: a server whose update was just accepted is there, with the labels
-- that were given.
abbrev pub StoresLabels : Client → Type 0
StoresLabels c =
    (id : Text) (labels : Map Text) (h : List Call)
    → (client_update_server_labels c id labels h).0 ≡ ok tt
    → let asked = call c (update_server id (labels_to_api labels)) ∷ h in
      (server : Server) × ((client_get_server c id asked).0 ≡ ok server)
      × (server.labels ≡ labels_to_api labels)

-- A claim that the controller takes care of, with the id of its server and its class.
pub record IsOurs (kube : Kube) (nc : NodeClaim) (id : Text) (c : StackitNodeClass) : Type 0 where
  pub not_deleting : nc.deletion_timestamp ≡ none
  pub has_id : nc.provider_id ≡ provider_id id
  pub is_instance_id : IsInstanceId id
  pub class_name : Text
  pub has_class : nc.node_class_ref ≡ some class_name
  pub class_found : kube.get_node_class class_name ≡ ok c

-- Neither of the guards holds.
not_skipped :
    (t : Option ℕ) (pid id : Text)
    → t ≡ none
    → pid ≡ provider_id id
    → ((elim t as (λ _. Bool) [ none ↦ false | some x ↦ true ]) || text_eq pid []) ≡ false
unfolding provider_id provider_id_prefix text_eq str
not_skipped none pid id e h = rw h refl
not_skipped (some x) pid id e h = cc

module _ (kube : Kube) (p : DefaultProvider) (cluster_name : Text) where
  -- For such a claim a reconcile compares the labels of what Get gives.
  reconcile_ours :
      (now : ℕ) (nc : NodeClaim) (id : Text) (c : StackitNodeClass) (s : State)
      → IsOurs kube nc id c
      → reconcile kube p cluster_name now nc s
        ≡ relabel kube p cluster_name now id c nc (get p now false id s)
  unfolding reconcile
  reconcile_ours now nc id c s o =
      let skip = is_deleting kube p cluster_name now nc || text_eq nc.provider_id [] in
      let parsed = (parse_instance_id_iff nc.provider_id id).1 (o.has_id, o.is_instance_id) in
      ap (λ r. reconcile_parsed kube p cluster_name now nc r skip s) parsed
      ∙ ap (λ b. reconcile_parsed kube p cluster_name now nc (ok id) b s)
          (not_skipped nc.deletion_timestamp nc.provider_id id o.not_deleting o.has_id)
      ∙ ap (λ r. label_server kube p cluster_name now id nc r s) o.has_class
      ∙ ap (λ r. label_with kube p cluster_name now id nc r s) o.class_found

  -- What a reconcile does if the labels differ and the API takes the new ones.
  abbrev pub asked : Text → Map Text → List Call → List Call
  asked id labels calls = call p.api (update_server id (labels_to_api labels)) ∷ calls

  relabel_differs :
      (now : ℕ) (id : Text) (c : StackitNodeClass) (nc : NodeClaim) (inst : Instance) (s : State)
      → kube.maps_equal (managed_labels c nc cluster_name) inst.labels ≡ false
      → (client_update_server_labels p.api id (managed_labels c nc cluster_name) s.calls).0 ≡ ok tt
      → relabel kube p cluster_name now id c nc (ok inst, s) ≡ (
        done,
        forget id (record s { calls = asked id (managed_labels c nc cluster_name) s.calls }),
      )
  unfolding update_labels client_update_server_labels
  relabel_differs now id c nc inst s ne a = rw (ne, a) refl

  -- A server that was forgotten is asked for afresh.
  get-forget :
      (spec : IsGoCache default_ttl p.instances) (now : ℕ) (id : Text) (s : State)
      → get p now false id (forget id s) ≡ fetch p now id (forget id s)
  unfolding get forget
  get-forget spec now id s = rw (spec.get-delete_self s.instance_cache now id) refl

  fetch_answered :
      (now : ℕ) (id : Text) (server : Server) (s : State)
      → (client_get_server p.api id s.calls).0 ≡ ok server
      → (s' : State) × (fetch p now id s ≡ (ok (new_instance server), s'))
        × (s'.calls ≡ call p.api (get_server id) ∷ s.calls)
  unfolding fetch fetched remember client_get_server
  fetch_answered now id server s a = (
    remember now id (new_instance server)
        (record s { calls = call p.api (get_server id) ∷ s.calls }),
    rw a refl,
    refl,
  )

  relabel_same :
      (now : ℕ) (id : Text) (c : StackitNodeClass) (nc : NodeClaim) (inst : Instance) (s : State)
      → kube.maps_equal (managed_labels c nc cluster_name) inst.labels ≡ true
      → relabel kube p cluster_name now id c nc (ok inst, s) ≡ (done, s)
  relabel_same now id c nc inst s e = rw e refl

  module _ (spec : IsGoCache default_ttl p.instances) (stores : StoresLabels p.api)
      (reflexive : (m : Map Text) → kube.maps_equal m m ≡ true) where
    -- The reconcile after an update looks at the server once, and is done.
    settled :
        (later : ℕ) (nc : NodeClaim) (id : Text) (c : StackitNodeClass) (s : State)
        → IsOurs kube nc id c
        → (client_update_server_labels p.api id (managed_labels c nc cluster_name) s.calls).0
          ≡ ok tt
        → let s1 =
            forget id (record s { calls = asked id (managed_labels c nc cluster_name) s.calls }) in
          (s2 : State) × (reconcile kube p cluster_name later nc s1 ≡ (done, s2))
          × (s2.calls
              ≡ call p.api (get_server id) ∷ asked id (managed_labels c nc cluster_name) s.calls)
    settled later nc id c s o taken =
        let desired = managed_labels c nc cluster_name in
        let s1 = forget id (record s { calls = asked id desired s.calls }) in
        let (server, a, l) = stores id desired s.calls taken in
        let (s2, f, e) = fetch_answered later id server s1 (unfold forget in a) in
        let labels : (new_instance server).labels ≡ desired =
          unfold new_instance in ap labels_from_api l ∙ labels_from_api-labels_to_api desired in
        (
          s2,
          reconcile_ours later nc id c s1 o
              ∙ ap (relabel kube p cluster_name later id c nc)
                  (get-forget spec later id (record s { calls = asked id desired s.calls }) ∙ f)
              ∙ relabel_same later id c nc (new_instance server) s2
                  (ap (kube.maps_equal desired) labels ∙ reflexive desired),
          unfold forget in e,
        )

    -- With a cache that behaves as documented, an API that keeps the labels of an accepted update, and a
    -- comparison by which a map equals itself: for a claim that is not being deleted, with a server
    -- and a class, whose server's labels differ from the managed ones, if the API takes the update,
    -- the reconcile sends exactly the managed labels, and the next one, at any time, asks for the
    -- server once and changes nothing more.
    pub reconcile_converges :
        (now later : ℕ) (nc : NodeClaim) (id : Text) (c : StackitNodeClass) (inst : Instance)
        (s s0 : State)
        → IsOurs kube nc id c
        → get p now false id s ≡ (ok inst, s0)
        → kube.maps_equal (managed_labels c nc cluster_name) inst.labels ≡ false
        → (client_update_server_labels p.api id (managed_labels c nc cluster_name) s0.calls).0
          ≡ ok tt
        → let sent = asked id (managed_labels c nc cluster_name) s0.calls in
          (s1 : State) × (s2 : State) × (reconcile kube p cluster_name now nc s ≡ (done, s1))
          × (s1.calls ≡ sent)
          × (reconcile kube p cluster_name later nc s1 ≡ (done, s2))
          × (s2.calls ≡ call p.api (get_server id) ∷ sent)
    reconcile_converges now later nc id c inst s s0 o g ne a =
        let s1 =
          forget id (record s0 { calls = asked id (managed_labels c nc cluster_name) s0.calls }) in
        let (s2, r, e) = settled later nc id c s0 o a in
        (
          s1,
          s2,
          reconcile_ours now nc id c s o
              ∙ ap (relabel kube p cluster_name now id c nc) g
              ∙ relabel_differs now id c nc inst s0 ne a,
          unfold forget in refl,
          r,
          e,
        )
