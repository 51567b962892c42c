-- ===== src/Controllers/GarbageCollection/Reconcile.antt =====
-- Which servers a whole reconcile asks to delete: the listing, the pass and the deletions together.
use karpenter_provider_stack.Prelude.{
  ℕ, ◌-◌, ◌≤◌, ◌≡◌, ◌≢◌, ◌⊎◌, inl, inr, refl, sym, ap, subst, ◌∙◌, false, Option, some, List, [],
  ◌∷◌, Text, text_eq, any, In, here, there,
}
use mathlib.Core.List.{append_cancel_left}
use karpenter_provider_stack.Errors.{Err, Result, ok, err}
use karpenter_provider_stack.Apis.Core.{NodeClaim, Server}
use karpenter_provider_stack.Env.Sdk.{Call, list_servers}
use karpenter_provider_stack.Stackit.Client.{call}
use karpenter_provider_stack.Utils.ProviderId.{
  provider_id, provider_id_prefix, parse_instance_id_iff,
}
use karpenter_provider_stack.Instance
use karpenter_provider_stack.Instance.{Instance, new_instance}
use karpenter_provider_stack.CloudProvider.{CloudProvider, instance_to_node_claim, list}
use karpenter_provider_stack.Controllers.GarbageCollection.{
  Kube, State, gc_grace_period, ids_of, reconcile, reconcile_with, pass,
}
use karpenter_provider_stack.Controllers.GarbageCollection.Safety.{Collectable, request_to_delete}
use karpenter_provider_stack.Controllers.GarbageCollection.Spares.{
  any-ids_of, provider_id_not_empty, pass-PassedOver,
}
use karpenter_provider_stack.Controllers.GarbageCollection.Listing.{
  IsQuiet, Claims, answer, list-Listed,
}

provider_id_injective : (a b : Text) → provider_id a ≡ provider_id b → a ≡ b
unfolding provider_id
provider_id_injective a b h = append_cancel_left provider_id_prefix a b h

module _ (cp : CloudProvider) (kube : Kube) (now : ℕ) where
  -- A server that the API listed for the cluster, that was created at least the grace period ago, and
  -- whose provider id no managed claim of the cluster has.
  abbrev pub Orphan : State → Text → Type 0
  Orphan s x =
      (managed : List NodeClaim) × (servers : List Server) × (server : Server) × (kube.list_managed
        ≡ ok managed)
      × (answer cp now s.provider ≡ ok servers)
      × In server servers
      × (server.id ≡ x)
      × ((t : ℕ) × (server.created_at ≡ some t) × (gc_grace_period ≤ now - t))
      × ((nc : NodeClaim) → In nc managed → nc.provider_id ≢ provider_id x)

  unbacked :
      (managed : List NodeClaim) (nc other : NodeClaim) (x : Text)
      → any (λ i. text_eq i nc.provider_id) (ids_of managed) ≡ false
      → nc.provider_id ≡ provider_id x
      → In other managed
      → other.provider_id ≢ provider_id x
  unbacked managed nc other x alone same i e =
      let ids : other.provider_id ≡ nc.provider_id = e ∙ sym same in
      let full : text_eq other.provider_id [] ≡ false = rw e (provider_id_not_empty x) in
      let backed = any-ids_of other managed i full in cc (rw ids at backed)

  -- A claim of a listed server that a pass would collect is of an orphan.
  of_server :
      (server : Server) (nc : NodeClaim) (ids : List Text) (x : Text)
      → Claims cp now (new_instance server) nc
      → Collectable cp kube now ids nc x
      → (server.id ≡ x) × ((t : ℕ) × (server.created_at ≡ some t) × (gc_grace_period ≤ now - t))
  unfolding instance_to_node_claim new_instance Instance.provider_id
  of_server server nc ids x (ty, e) (alone, (t, created, old), parsed) =
      let (same, good) = (parse_instance_id_iff nc.provider_id x).0 parsed in
      (
        provider_id_injective server.id x (ap (λ (c : NodeClaim). c.provider_id) e ∙ same),
        (t, ap (λ (c : NodeClaim). c.creation_timestamp) e ∙ created, old),
      )

  pass_orphans :
      (s s' : State) (cloud : List NodeClaim) (m : Result Err (List NodeClaim)) (x : Text)
      → ((nc : NodeClaim)
          → In nc cloud
          → (servers : List Server) × (server : Server) × (answer cp now s.provider ≡ ok servers)
            × In server servers
            × Claims cp now (new_instance server) nc)
      → kube.list_managed ≡ m
      → In
          (request_to_delete cp kube now x)
          (pass cp kube now cloud m kube.list_nodes s').1.provider.calls
      → In (request_to_delete cp kube now x) s'.provider.calls ⊎ Orphan s x
  pass_orphans s s' cloud (err e) x listed h i = inl i
  pass_orphans s s' cloud (ok managed) x listed h i =
      elim (pass-PassedOver cp kube now cloud managed kube.list_nodes s' x i) [
        | inl old ↦ inl old
        | inr (nc, j, live, c) ↦
            (let (servers, server, a, k, own) = listed nc j in
              let (id, created) = of_server server nc (ids_of managed) x own c in
              let (same, good) = (parse_instance_id_iff nc.provider_id x).0 c.2 in
              inr (
                managed,
                servers,
                server,
                h,
                a,
                k,
                id,
                created,
                λ other m. unbacked managed nc other x c.0 same m,
              ))
      ]

  -- If listing instance types sends no request: a reconcile asks to delete a server only if the API
  -- has just listed it for the cluster, it was created at a known time at least two minutes ago, and
  -- no managed claim of the cluster has its provider id. Requests of before are still in the history.
  pub reconcile_safe :
      (s : State) (x : Text)
      → IsQuiet cp
      → In (request_to_delete cp kube now x) (reconcile cp kube now s).1.provider.calls
      → In (request_to_delete cp kube now x) s.provider.calls ⊎ Orphan s x
  unfolding reconcile
  reconcile_safe s x quiet i = by_cloud (list cp now s.provider).0 refl i
    where
      before :
          (calls : List Call)
          → ((f : Option Text) × (calls
                ≡ call cp.instances.api (list_servers f) ∷ s.provider.calls))
          → In (request_to_delete cp kube now x) calls
          → In (request_to_delete cp kube now x) s.provider.calls
      before calls (f, e) m = past (subst (In (request_to_delete cp kube now x)) e m)
        where
          past :
              In
                (request_to_delete cp kube now x)
                (call cp.instances.api (list_servers f) ∷ s.provider.calls)
              → In (request_to_delete cp kube now x) s.provider.calls
          past (here d) = cc d
          past (there old) = old

      after : State
      after = record s { provider = (list cp now s.provider).1 }

      by_cloud :
          (r : Result Err (List NodeClaim))
          → (list cp now s.provider).0 ≡ r
          → In
              (request_to_delete cp kube now x)
              (reconcile_with cp kube now r after).1.provider.calls
          → In (request_to_delete cp kube now x) s.provider.calls ⊎ Orphan s x
      by_cloud (err e) h m = inl (before _ (list-Listed cp now quiet s.provider).0 m)
      by_cloud (ok cloud) h m =
          let (calls, claims) = list-Listed cp now quiet s.provider in
          elim (pass_orphans s after cloud kube.list_managed x (λ nc j. claims cloud nc h j) refl
            m) [ inl old ↦ inl (before _ calls old) | inr orphan ↦ inr orphan ]
