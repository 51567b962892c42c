-- ===== src/CloudProvider/Fresh.antt =====
-- A claim that Create has just made is not drifted: Create, its class and IsDrifted together.
use karpenter_provider_stack.Prelude.{
  ℕ, ◌+◌, ◌≤◌, ◌<◌, ◌≡◌, refl, sym, ap, subst, ◌∙◌, Bool, true, false, Option, none, some, List, [],
  ◌∷◌, map, Text, text_eq, text_eq_refl, any, Map, In, here, there, All, All-In, cut_prefix, arith,
}
use karpenter_provider_stack.Errors.{ClientError, Err, Result, ok, err}
use karpenter_provider_stack.Env.GoCache.{IsGoCache}
use karpenter_provider_stack.Env.Karpenter.{IsKarpenter}
use karpenter_provider_stack.Env.Sdk.{Call, CreateServerPayload}
use karpenter_provider_stack.Apis.LabelKeys.{label_topology_zone}
use karpenter_provider_stack.Apis.NodeClass.{StackitNodeClass, availability_zone_ids, hash}
use karpenter_provider_stack.Apis.Core.{Requirements, Offering, InstanceType, NodeClaim, Server}
use karpenter_provider_stack.Cache.{default_ttl}
use karpenter_provider_stack.Stackit.Client.{Client, client_create_server}
use karpenter_provider_stack.Utils.ProviderId.{
  provider_id, provider_id_prefix, parse_instance_id, IsInstanceId, parse_instance_id_iff,
}
use karpenter_provider_stack.Utils.Zone.{sanitize_zone}
use karpenter_provider_stack.Utils.Labels.{managed_labels}
use karpenter_provider_stack.Instance
use karpenter_provider_stack.Instance.{Instance, new_instance}
use karpenter_provider_stack.Instance.Payload.{create_payload}
use karpenter_provider_stack.Instance.Payload.Laws.{create_payload_zone}
use karpenter_provider_stack.Instance.Select.{cheapest_offering}
use karpenter_provider_stack.Instance.Select.Chosen.{cheapest_offering-Offers}
use karpenter_provider_stack.Instance.Provider
use karpenter_provider_stack.Instance.Provider.{State, launch, launched, launch_chosen, get}
use karpenter_provider_stack.Instance.Lifecycle.{get-launched}
use karpenter_provider_stack.Controllers.Hash.{stamp}
use karpenter_provider_stack.CloudProvider.{
  CloudProvider, created, create, create_with, create_for, launch_with, hydrate, readiness,
  resolve_node_class, instance_to_node_claim,
}
use karpenter_provider_stack.CloudProvider.Drift.{
  is_node_class_drifted, is_availability_zone_drifted, zone_drifted, no_drift,
  are_static_fields_drifted,
}
use karpenter_provider_stack.CloudProvider.Claims.{created_no_drift}

-- The API's documented behaviour: a server is made in the zone that is asked for, with an id that can
-- stand in a provider id.
abbrev pub PlacesServers : Client → Type 0
PlacesServers api =
    (payload : CreateServerPayload) (calls : List Call) (server : Server)
    → (client_create_server api payload calls).0 ≡ ok server
    → IsInstanceId server.id × (server.availability_zone ≡ payload.availability_zone)

-- A listing for a class offers its zones only.
abbrev pub OffersZones : CloudProvider → StackitNodeClass → List InstanceType → Type 0
OffersZones cp c its =
    (it : InstanceType)
    → In it its
    → (o : Offering) → In o it.offerings
    → (y : Text) × In y (availability_zone_ids c)
      × (sanitize_zone y ≡ cp.instances.karpenter.any_value o.requirements label_topology_zone)

module _ (p : Provider.DefaultProvider) (now : ℕ) where
  -- How an instance is made: a server of the chosen zone, answered by the API and kept in the cache.
  abbrev pub Made : List InstanceType → NodeClaim → Instance → State → Type 0
  Made its claim inst s' =
      (it : InstanceType) × (z : Text) × (payload : CreateServerPayload) × (server : Server)
      × (calls : List Call) × (s : State) × (cheapest_offering p.karpenter its claim ≡ ok (it, z))
      × (payload.availability_zone ≡ z)
      × ((client_create_server p.api payload calls).0 ≡ ok server)
      × (new_instance server ≡ inst)
      × ((launched p now it z (ok server) s).1 ≡ s')

  create-Made :
      (c : StackitNodeClass) (claim : NodeClaim) (labels : Map Text) (its : List InstanceType)
      (s s' : State) (inst : Instance)
      → Provider.create p now c claim labels its s ≡ (ok inst, s')
      → Made its claim inst s'
  unfolding Provider.create launch launched
  create-Made c claim labels its s s' inst h =
      by_choice (cheapest_offering p.karpenter its claim) refl h
    where
      by_answer :
          (it : InstanceType) (z : Text) (payload : CreateServerPayload)
          (r : Result ClientError Server) (after : State)
          → cheapest_offering p.karpenter its claim ≡ ok (it, z)
          → payload.availability_zone ≡ z
          → (client_create_server p.api payload s.calls).0 ≡ r
          → launched p now it z r after ≡ (ok inst, s')
          → Made its claim inst s'
      by_answer it z payload (err e) after a b d k = cc k
      by_answer it z payload (ok server) after a b d k =
          (it, z, payload, server, s.calls, after, a, b, d, cc k, cc k)

      by_payload :
          (it : InstanceType) (z : Text) (r : Result ClientError CreateServerPayload)
          → cheapest_offering p.karpenter its claim ≡ ok (it, z)
          → create_payload c claim it z labels ≡ r
          → launch p now it z r s ≡ (ok inst, s')
          → Made its claim inst s'
      by_payload it z (err e) a b k = cc k
      by_payload it z (ok payload) a b k =
          by_answer it z payload (client_create_server p.api payload s.calls).0
            (record s { calls = (client_create_server p.api payload s.calls).1 }) a
            (create_payload_zone c claim it z labels payload b) refl k

      by_choice :
          (r : Result Err (InstanceType × Text))
          → cheapest_offering p.karpenter its claim ≡ r
          → launch_chosen p now c claim labels r s ≡ (ok inst, s')
          → Made its claim inst s'
      by_choice (err e) a k = cc k
      by_choice (ok (it, z)) a k = by_payload it z (create_payload c claim it z labels) a refl k

module _ (cp : CloudProvider) (now : ℕ) where
  abbrev labels_of : StackitNodeClass → NodeClaim → Map Text
  labels_of c asked = managed_labels c asked cp.cluster_name

  -- What a Create that succeeds has done.
  abbrev Created : StackitNodeClass → NodeClaim → NodeClaim → List Call → State → Type 0
  Created c asked claim calls s' =
      (its : List InstanceType) × (inst : Instance) × ((cp.list_types c calls).0 ≡ ok its)
      × Made cp.instances now its asked inst s'
      × (created cp c its inst ≡ claim)

  create-Created :
      (c : StackitNodeClass) (asked claim : NodeClaim) (s s' : State)
      → resolve_node_class cp asked.node_class_ref ≡ ok c
      → create cp now asked s ≡ (ok claim, s')
      → Created c asked claim s.calls s'
  unfolding create
  create-Created c asked claim s s' resolved h =
      by_readiness (readiness cp c)
        (subst (λ r. create_with cp now asked r s ≡ (ok claim, s')) resolved h)
    where
      by_instance :
          (its : List InstanceType) (r : Result Err Instance × State)
          → (cp.list_types c s.calls).0 ≡ ok its
          → Provider.create cp.instances now c asked
              (labels_of c asked)
              its
              (record s { calls = (cp.list_types c s.calls).1 })
            ≡ r
          → hydrate cp now c its r ≡ (ok claim, s')
          → Created c asked claim s.calls s'
      by_instance its (err e, after) l m k = cc k
      by_instance its (ok inst, after) l m k =
          let same : after ≡ s' = cc k in
          (
            its,
            inst,
            l,
            create-Made cp.instances now c asked (labels_of c asked) its _ s' inst
                (m ∙ ap (λ (x : State). (ok inst, x)) same),
            cc k,
          )

      by_types :
          (r : Result Err (List InstanceType))
          → (cp.list_types c s.calls).0 ≡ r
          → launch_with cp now c asked r (record s { calls = (cp.list_types c s.calls).1 })
            ≡ (ok claim, s')
          → Created c asked claim s.calls s'
      by_types (err e) l k = cc k
      by_types (ok its) l k = by_instance its _ l refl k

      by_readiness :
          (r : Option Err)
          → create_for cp now c asked r s ≡ (ok claim, s')
          → Created c asked claim s.calls s'
      by_readiness (some e) k = cc k
      by_readiness none k = by_types (cp.list_types c s.calls).0 refl k

  -- A class that offers the server's zone.
  zone_drifted_among :
      (zs : List Text) (inst : Instance) (y : Text)
      → In y zs
      → sanitize_zone y ≡ Instance.zone inst
      → zone_drifted zs inst ≡ no_drift
  unfolding zone_drifted
  zone_drifted_among [] inst y i e = refl
  zone_drifted_among (z ∷ zs) inst y i e = rw (any_zone (z ∷ zs) i)
    where
      any_zone :
          (l : List Text)
          → In y l
          → any (λ s. text_eq s (Instance.zone inst)) (map sanitize_zone l) ≡ true
      any_zone [] j = elim j [ ]
      any_zone (x ∷ l) (here d) = rw (d, e, text_eq_refl (Instance.zone inst)) refl
      any_zone (x ∷ l) (there j) = ground (arith, any_zone l j)

  -- The two tests of drift, from what they find.
  drift_tests :
      (claim : NodeClaim) (c : StackitNodeClass) (id : Text) (inst : Instance) (s : State)
      → are_static_fields_drifted claim c ≡ no_drift
      → parse_instance_id claim.provider_id ≡ ok id
      → get cp.instances now false id s ≡ (ok inst, s)
      → zone_drifted (availability_zone_ids c) inst ≡ no_drift
      → is_node_class_drifted cp.instances now claim c s ≡ (no_drift, s)
  unfolding is_node_class_drifted is_availability_zone_drifted parse_instance_id cut_prefix
      provider_id_prefix
  drift_tests claim c id inst s a b d e = rw (a, b, d, e) refl

  claim_id :
      (c : StackitNodeClass) (its : List InstanceType) (inst : Instance)
      → (created cp c its inst).provider_id ≡ provider_id inst.id
  unfolding created instance_to_node_claim Instance.provider_id
  claim_id c its inst = refl

module _ (cp : CloudProvider) (offering_compatible : Offering → Requirements → Bool)
    (karpenter : IsKarpenter cp.instances.karpenter offering_compatible)
    (spec : IsGoCache default_ttl cp.instances.instances)
    (places : PlacesServers cp.instances.api) where
  fresh_zone :
      (c : StackitNodeClass) (its : List InstanceType) (asked : NodeClaim) (it : InstanceType)
      (z : Text) (payload : CreateServerPayload) (server : Server)
      → OffersZones cp c its
      → All (λ y. sanitize_zone y ≡ y) (availability_zone_ids c)
      → cheapest_offering cp.instances.karpenter its asked ≡ ok (it, z)
      → payload.availability_zone ≡ z
      → server.availability_zone ≡ payload.availability_zone
      → zone_drifted (availability_zone_ids c) (new_instance server) ≡ no_drift
  unfolding new_instance Instance.zone
  fresh_zone c its asked it z payload server offers safe a b placed =
      let (o, i, (offered, available), zone) =
        cheapest_offering-Offers cp.instances.karpenter offering_compatible karpenter its asked it z
          a in
      let (y, j, same) = offers it i o offered in
      let whole = All-In (λ x. sanitize_zone x ≡ x) j safe in
      zone_drifted_among cp 0 (availability_zone_ids c) (new_instance server) y j
        (ap sanitize_zone (sym whole ∙ same ∙ zone ∙ sym b ∙ sym placed))

  -- With Karpenter's methods and the instance cache as documented, and an API that makes servers in the
  -- zone that is asked for: if Create makes a claim for a class whose zone ids the sanitizer leaves as
  -- they are, from a listing that offers zones of the class alone, then drift detection against that
  -- class, once it carries its own hash, finds no drift of the claim, and sends no request, for the
  -- time to live of the instance cache.
  pub fresh_claim_no_drift :
      (now t : ℕ) (c : StackitNodeClass) (asked claim : NodeClaim) (s s' : State)
      → ((its : List InstanceType) → (cp.list_types c s.calls).0 ≡ ok its → OffersZones cp c its)
      → All (λ y. sanitize_zone y ≡ y) (availability_zone_ids c)
      → resolve_node_class cp asked.node_class_ref ≡ ok c
      → create cp now asked s ≡ (ok claim, s')
      → now ≤ t
      → t < now + default_ttl
      → is_node_class_drifted cp.instances t claim (stamp (hash cp.hash_spec c) c) s'
        ≡ (no_drift, s')
  unfolding stamp
  fresh_claim_no_drift now t c asked claim s s' offers safe resolved made early late =
      let (its, inst, l, (it, z, payload, server, calls, s0, a, b, d, e, e'), same) =
        create-Created cp now c asked claim s s' resolved made in
      let (good, placed) = places payload calls server d in
      let zone = fresh_zone c its asked it z payload server (offers its l) safe a b placed in
      let (answer, kept) = get-launched cp.instances spec now t it z server s0 early late in
      drift_tests cp t claim (stamp (hash cp.hash_spec c) c) (new_instance server).id
        (new_instance server) s'
        (subst
          (λ (x : NodeClaim).
            are_static_fields_drifted x (stamp (hash cp.hash_spec c) c) ≡ no_drift)
          same (created_no_drift cp c its inst))
        ((parse_instance_id_iff claim.provider_id (new_instance server).id).1 (
          ap (λ (x : NodeClaim). x.provider_id) (sym same)
              ∙ claim_id cp now c its inst
              ∙ ap (λ (x : Instance). provider_id x.id) (sym e),
          unfold new_instance in good,
        ))
        (subst
          (λ x. get cp.instances t false (new_instance server).id x ≡ (ok (new_instance server), x))
          e'
          (kept
            ∙ ap
                (λ (r : Result Err Instance).
                  (r, (launched cp.instances now it z (ok server) s0).1))
                answer))
        (unfold availability_zone_ids in zone)
