-- ===== src/CloudProvider/Claims.antt =====
-- What the claims that Create, Get and List return say of their servers.
use karpenter_provider_stack.Prelude.{
  ℕ, ◌≡◌, refl, ap, ◌∙◌, subst, Bool, true, false, Option, none, some, List, Text, str, text_eq,
  text_eq_refl, lookup, lookup-insert, lookup-assign, ◌==◌, arith,
}
use karpenter_provider_stack.Errors.{Err, Result, ok, err, ◌>>=◌, kube_not_found}
use karpenter_provider_stack.Apis.LabelKeys.{
  annotation_hash, annotation_hash_version, label_topology_zone, label_topology_region,
  label_capacity_type, capacity_type_on_demand,
}
use karpenter_provider_stack.Apis.NodeClass.{
  StackitNodeClass, ConditionStatus, condition_true, condition_false, condition_unknown, hash,
  hash_version,
}
use karpenter_provider_stack.Apis.Core.{InstanceType, NodeClaim}
use karpenter_provider_stack.Utils.ProviderId.{
  parse_instance_id, parse_instance_id_iff, IsInstanceId,
}
use karpenter_provider_stack.Instance
use karpenter_provider_stack.Instance.{Instance}
use karpenter_provider_stack.Utils.Labels.{managed_labels}
use karpenter_provider_stack.Utils.Zone.{sanitize_zone}
use karpenter_provider_stack.Instance.Provider
use karpenter_provider_stack.Instance.Provider.{State}
use karpenter_provider_stack.CloudProvider.{
  CloudProvider, instance_to_node_claim, readiness, resolve_node_class, created, create, live,
  create_with, create_for, ready_at, launch_with, hydrate,
}
use karpenter_provider_stack.CloudProvider.Drift.{are_static_fields_drifted, no_drift}
use karpenter_provider_stack.Controllers.Hash.{stamp}
use karpenter_provider_stack.Controllers.Hash.Upgrade.{
  stamp_hash, compare_hashes_same, distinct_annotations,
}

distinct_labels :
    (text_eq label_capacity_type label_topology_region ≡ false)
    × (text_eq label_capacity_type label_topology_zone ≡ false)
    × (text_eq label_topology_region label_topology_zone ≡ false)
unfolding str text_eq
distinct_labels = (refl, refl, refl)

module _ (cp : CloudProvider) where
  -- Whatever the instance type, also if it is unknown: the claim's zone is the server's sanitized
  -- zone, its region the configured one, its capacity type on-demand, and its provider id names the
  -- server, if the server's id can stand in one.
  pub instance_to_node_claim_lem :
      (inst : Instance) (t : Option InstanceType)
      → IsInstanceId inst.id
      → let claim = instance_to_node_claim cp inst t in
        (lookup label_topology_zone claim.labels ≡ some (sanitize_zone inst.availability_zone))
        × (lookup label_topology_region claim.labels ≡ some cp.region)
        × (lookup label_capacity_type claim.labels ≡ some capacity_type_on_demand)
        × (parse_instance_id claim.provider_id ≡ ok inst.id)
  unfolding instance_to_node_claim Instance.zone
  instance_to_node_claim_lem inst t h =
      let (a, b, c) = distinct_labels in
      (
        rw (lookup-insert, b, lookup-insert, c, lookup-insert, text_eq_refl label_topology_zone),
        rw (lookup-insert, a, lookup-insert, text_eq_refl label_topology_region),
        rw (lookup-insert, text_eq_refl label_capacity_type),
        (parse_instance_id_iff (Instance.provider_id inst) inst.id).1
            (unfold Instance.provider_id in refl, h),
      )

  ready_at-none :
      (status : ConditionStatus) (current : Bool)
      → ready_at cp status current ≡ none
      → (status ≡ condition_true) × (current ≡ true)
  ready_at-none condition_true true h = (refl, refl)
  ready_at-none condition_true false h = cc
  ready_at-none condition_false current h = cc
  ready_at-none condition_unknown current h = cc

  pub readiness_sound :
      (c : StackitNodeClass)
      → readiness cp c ≡ none
      → (c.status.ready.status ≡ condition_true)
        × (c.status.ready.observed_generation ≡ c.generation)
  unfolding readiness
  readiness_sound c h =
      let (a, b) =
        ready_at-none c.status.ready.status (c.status.ready.observed_generation == c.generation)
          h in
      (a, ground (arith, b))

  -- A resolved class is one that the cluster has, and that is not being deleted.
  resolved :
      (ref : Option Text) (c : StackitNodeClass)
      → resolve_node_class cp ref ≡ ok c
      → (name : Text) × (ref ≡ some name)
        × (cp.get_node_class name ≡ ok c)
        × (c.deletion_timestamp ≡ none)
  unfolding resolve_node_class
  resolved none c h = cc
  resolved (some name) c h = with_answer (cp.get_node_class name) refl h
    where
      alive :
          (x : StackitNodeClass) (t : Option ℕ)
          → x.deletion_timestamp ≡ t
          → elim t as (λ _. Result Err StackitNodeClass) [
            | none ↦ ok x
            | some d ↦ err kube_not_found
          ]
            ≡ ok c
          → (x ≡ c) × (x.deletion_timestamp ≡ none)
      alive x none d k = (cc k, d)
      alive x (some u) d k = cc k

      with_answer :
          (r : Result Err StackitNodeClass)
          → cp.get_node_class name ≡ r
          → r >>= live ≡ ok c
          → (n : Text) × (some name ≡ some n)
            × (cp.get_node_class n ≡ ok c)
            × (c.deletion_timestamp ≡ none)
      with_answer (err e) g k = cc k
      with_answer (ok x) g k =
          let (same, d) = alive x x.deletion_timestamp refl k in
          (
            name,
            refl,
            g ∙ ap ok same,
            subst (λ (y : StackitNodeClass). y.deletion_timestamp ≡ none) same d,
          )

  created_annotations :
      (c : StackitNodeClass) (ts : List InstanceType) (inst : Instance)
      → (lookup annotation_hash (created cp c ts inst).annotations ≡ some (hash cp.hash_spec c))
        × (lookup annotation_hash_version (created cp c ts inst).annotations ≡ some hash_version)
  unfolding created instance_to_node_claim
  created_annotations c ts inst =
      let (a, b) = distinct_annotations in
      (
        rw (lookup-assign, b, text_eq_refl annotation_hash),
        rw (lookup-assign, text_eq_refl annotation_hash_version),
      )

  pub created_no_drift :
      (c : StackitNodeClass) (ts : List InstanceType) (inst : Instance)
      → are_static_fields_drifted (created cp c ts inst) (stamp (hash cp.hash_spec c) c) ≡ no_drift
  unfolding are_static_fields_drifted
  created_no_drift c ts inst =
      let (e, f) = stamp_hash (hash cp.hash_spec c) c in
      let (g, i) = created_annotations c ts inst in
      rw (e, f, g, i) (compare_hashes_same (hash cp.hash_spec c) hash_version)

  -- What a created claim promises of its class: the claim names it, the cluster has it under that name
  -- without a deletion timestamp, and it is ready for its latest spec.
  abbrev pub FromReadyClass : NodeClaim → NodeClaim → Type 0
  FromReadyClass asked claim =
      (name : Text) × (c : StackitNodeClass) × (asked.node_class_ref ≡ some name)
      × (cp.get_node_class name ≡ ok c)
      × (c.deletion_timestamp ≡ none)
      × (c.status.ready.status ≡ condition_true)
      × (c.status.ready.observed_generation ≡ c.generation)
      × (are_static_fields_drifted claim (stamp (hash cp.hash_spec c) c) ≡ no_drift)

module _ (cp : CloudProvider) (now : ℕ) where
  -- The result of a call, if it is one, is a claim of a ready class.
  abbrev pub Sound : NodeClaim → Result Err NodeClaim → Type 0
  Sound asked (err e) = Unit
  Sound asked (ok claim) = FromReadyClass cp asked claim

  create-Sound : (asked : NodeClaim) (s : State) → Sound asked (create cp now asked s).0
  unfolding create
  create-Sound asked s = with_class (resolve_node_class cp asked.node_class_ref) refl
    where
      with_class :
          (r : Result Err StackitNodeClass)
          → resolve_node_class cp asked.node_class_ref ≡ r
          → Sound asked (create_with cp now asked r s).0
      with_class (err e) h = tt
      with_class (ok c) h = with_readiness (readiness cp c) refl
        where
          hydrated :
              (ts : List InstanceType) (r : Result Err Instance × State)
              → readiness cp c ≡ none
              → Sound asked (hydrate cp now c ts r).0
          hydrated ts (err e, s') n = tt
          hydrated ts (ok inst, s') n =
              let (a, b) = readiness_sound cp c n in
              let (name, e, g, d) = resolved cp asked.node_class_ref c h in
              (name, c, e, g, d, a, b, created_no_drift cp c ts inst)

          launched_with :
              (r : Result Err (List InstanceType)) (s' : State)
              → readiness cp c ≡ none
              → Sound asked (launch_with cp now c asked r s').0
          launched_with (err e) s' n = tt
          launched_with (ok ts) s' n =
              hydrated ts
                (Provider.create cp.instances now c asked (managed_labels c asked cp.cluster_name)
                  ts s')
                n

          with_readiness :
              (r : Option Err) → readiness cp c ≡ r → Sound asked (create_for cp now c asked r s).0
          with_readiness (some e) n = tt
          with_readiness none n =
              launched_with (cp.list_types c s.calls).0
                (record s { calls = (cp.list_types c s.calls).1 }) n

  -- A claim is created only from a class that exists, is not being deleted, and is ready for its
  -- latest spec; and it starts without drift of the static fields against that class, once the
  -- class carries its own hash.
  pub create_lem :
      (asked claim : NodeClaim) (s : State)
      → (create cp now asked s).0 ≡ ok claim
      → FromReadyClass cp asked claim
  create_lem asked claim s h = subst (λ r. Sound asked r) h (create-Sound asked s)
