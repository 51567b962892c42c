-- ===== src/Examples/Fresh.antt =====
-- A claim that is made for the class, and the drift that is found of it.
use karpenter_provider_stack.Prelude.{
  ◌≡◌, refl, sym, ap, subst, ◌∙◌, false, List, [], ◌∷◌, In, here, there, All, text_eq, has_byte,
  arith,
}
use karpenter_provider_stack.Errors.{Err, Result, ok, err}
use karpenter_provider_stack.Env.GoCache.{simple_cache-IsGoCache}
use karpenter_provider_stack.Env.Sdk.{CreateServerPayload}
use karpenter_provider_stack.Apis.LabelKeys.{label_topology_zone}
use karpenter_provider_stack.Apis.NodeClass.{availability_zone_ids, hash}
use karpenter_provider_stack.Apis.Core.{Offering, InstanceType, NodeClaim, Server}
use karpenter_provider_stack.Cache.{default_ttl}
use karpenter_provider_stack.Stackit.Client.{Client, client_create_server}
use karpenter_provider_stack.Utils.Zone.{
  sanitize_zone, replace_runs, trim_left, trim_right, zone_byte, trimmed_byte,
}
use karpenter_provider_stack.Instance.Payload.{create_payload, networking, server_name}
use karpenter_provider_stack.Instance.Select.{
  cheapest_offering, cheapest_loop, consider, best_of, improve, resources_fit, fits,
}
use karpenter_provider_stack.Instance.Provider
use karpenter_provider_stack.Instance.Provider.{State, launch, launched}
use karpenter_provider_stack.Controllers.Hash.{stamp}
use karpenter_provider_stack.CloudProvider.{CloudProvider, create, readiness, resolve_node_class}
use karpenter_provider_stack.CloudProvider.Drift.{is_node_class_drifted, no_drift}
use karpenter_provider_stack.CloudProvider.Fresh.{PlacesServers, OffersZones, fresh_claim_no_drift}
use karpenter_provider_stack.Examples.Data.{
  class, claim, instance_type, offering, server, zone_a, client, sdk, provider, state, cloud,
  all_compatible, karpenter-IsKarpenter,
}

-- An API that makes the server in the zone that is asked for.
abbrev placed : CreateServerPayload → Server
placed payload = record server { availability_zone = payload.availability_zone }

abbrev placing : Client
placing = record client {
  api = record sdk { on_create_server = λ payload calls. ok (placed payload) };
}

abbrev instances : Provider.DefaultProvider
instances = record provider { api = placing }

abbrev placing_cloud : CloudProvider
placing_cloud = record cloud { instances = instances }

placing-PlacesServers : PlacesServers placing
unfolding client_create_server text_eq has_byte
placing-PlacesServers payload calls s h =
    let same : placed payload ≡ s = cc h in
    (
      subst (λ (x : Server). (text_eq x.id [] ≡ false) × (has_byte b'/' x.id ≡ false)) same
          (refl, refl),
      sym (ap (λ (x : Server). x.availability_zone) same),
    )

whole : sanitize_zone zone_a ≡ zone_a
unfolding sanitize_zone replace_runs trim_left trim_right zone_byte trimmed_byte text_eq
whole = refl

zone_of :
    (o : Offering)
    → In o (offering ∷ [])
    → provider.karpenter.any_value o.requirements label_topology_zone ≡ zone_a
zone_of o (here e) =
    subst
      (λ (x : Offering). provider.karpenter.any_value x.requirements label_topology_zone ≡ zone_a) e
      refl
zone_of o (there j) = elim j [ ]

offered : OffersZones placing_cloud class (instance_type ∷ [])
unfolding availability_zone_ids
offered it (here e) o i =
    let mine = subst (λ (x : InstanceType). In o x.offerings) (sym e) i in
    (zone_a, here refl, whole ∙ sym (zone_of o mine))
offered it (there j) o i = elim j [ ]

safe : All (λ y. sanitize_zone y ≡ y) (availability_zone_ids class)
unfolding availability_zone_ids
safe = (whole, tt)

listed :
    (its : List InstanceType)
    → (placing_cloud.list_types class []).0 ≡ ok its
    → OffersZones placing_cloud class its
listed its h =
    subst (OffersZones placing_cloud class) (let e : instance_type ∷ [] ≡ its = cc h in e) offered

abbrev claim_of : Result Err NodeClaim × State → NodeClaim × State
claim_of (err e, s) = (claim, s)
claim_of (ok c, s) = (c, s)

abbrev made : NodeClaim × State
made = claim_of (create placing_cloud 5 claim state)

made_given : create placing_cloud 5 claim state ≡ (ok made.0, made.1)
unfolding create resolve_node_class readiness Provider.create cheapest_offering cheapest_loop
    consider resources_fit fits best_of improve launch create_payload networking text_eq server_name
    launched client_create_server
made_given = refl

resolved : resolve_node_class placing_cloud claim.node_class_ref ≡ ok class
unfolding resolve_node_class
resolved = refl

fresh_claim_no_drift_example :
    is_node_class_drifted instances 6 made.0 (stamp (hash cloud.hash_spec class) class) made.1
    ≡ (no_drift, made.1)
fresh_claim_no_drift_example =
    fresh_claim_no_drift placing_cloud all_compatible karpenter-IsKarpenter
      (simple_cache-IsGoCache default_ttl) placing-PlacesServers 5 6 class claim made.0 state made.1
      listed safe resolved made_given (omega arith) (omega arith)
