-- ===== src/CloudProvider/Drift.antt =====
-- pkg/cloudprovider/drift.go.
pub mod Laws
use karpenter_provider_stack.Prelude.{
  ◌≡◌, ◌≢◌, refl, Bool, true, false, not, ◌||◌, Option, none, some, List, [], ◌∷◌, map, Text,
  text_eq, any, Map, lookup, if◌then◌else◌, ℕ,
}
use karpenter_provider_stack.Errors.{Err, Result, ok, err}
use karpenter_provider_stack.Apis.LabelKeys.{annotation_hash, annotation_hash_version}
use karpenter_provider_stack.Apis.NodeClass.{StackitNodeClass, availability_zone_ids}
use karpenter_provider_stack.Apis.Core.{NodeClaim}
use karpenter_provider_stack.Utils.ProviderId.{parse_instance_id}
use karpenter_provider_stack.Utils.Zone.{sanitize_zone}
use karpenter_provider_stack.Instance
use karpenter_provider_stack.Instance.{Instance}
use karpenter_provider_stack.Instance.Provider.{State, DefaultProvider, get}

pub data DriftReason : Type 0 where
  -- the empty string
  no_drift : DriftReason
  node_class_drift : DriftReason
  availability_zone_drift : DriftReason

-- areStaticFieldsDrifted, from the four annotations: the class's hash and version, the claim's.
unfoldable pub compare_hashes : Option Text → Option Text → Option Text → Option Text → DriftReason
compare_hashes (some class_hash) (some class_version) (some claim_hash) (some claim_version) =
    if not (text_eq class_version claim_version)
    then no_drift
    else if not (text_eq class_hash claim_hash)
    then node_class_drift
    else no_drift
compare_hashes _ _ _ _ = no_drift

unfoldable pub are_static_fields_drifted : NodeClaim → StackitNodeClass → DriftReason
unfolding compare_hashes
are_static_fields_drifted node_claim node_class =
    compare_hashes (lookup annotation_hash node_class.annotations)
      (lookup annotation_hash_version node_class.annotations)
      (lookup annotation_hash node_claim.annotations)
      (lookup annotation_hash_version node_claim.annotations)

-- isAvailabilityZoneDrifted, once the instance is known.
unfoldable pub zone_drifted : List Text → Instance → DriftReason
zone_drifted [] inst = no_drift
zone_drifted (z ∷ zs) inst =
    if any (λ s. text_eq s (Instance.zone inst)) (map sanitize_zone (z ∷ zs))
    then no_drift
    else availability_zone_drift

module _ (p : DefaultProvider) (now : ℕ) where
  abbrev zone_drift_of : StackitNodeClass → Result Err Instance → DriftReason
  zone_drift_of node_class (err e) = no_drift
  zone_drift_of node_class (ok inst) = zone_drifted (availability_zone_ids node_class) inst

  unfoldable pub is_availability_zone_drifted :
      NodeClaim → StackitNodeClass → State → DriftReason × State
  unfolding zone_drifted
  is_availability_zone_drifted node_claim node_class s =
      elim (parse_instance_id node_claim.provider_id) [
        | err e ↦ (no_drift, s)
        | ok id ↦ let (found, s') = get p now false id s in (zone_drift_of node_class found, s')
      ]

  abbrev or_zone : DriftReason → DriftReason × State → State → DriftReason × State
  or_zone no_drift zone s = zone
  or_zone drifted zone s = (drifted, s)

  unfoldable pub is_node_class_drifted : NodeClaim → StackitNodeClass → State → DriftReason × State
  unfolding are_static_fields_drifted is_availability_zone_drifted
  is_node_class_drifted node_claim node_class s =
      or_zone (are_static_fields_drifted node_claim node_class)
        (is_availability_zone_drifted node_claim node_class s) s
