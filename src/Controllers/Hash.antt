-- ===== src/Controllers/Hash.antt =====
-- pkg/controllers/nodeclass/hash/controller.go: the hash annotations of classes and claims.
pub mod Upgrade
pub mod Loop
pub mod Passes
use karpenter_provider_stack.Prelude.{
  ◌≡◌, ◌≢◌, refl, Bool, true, false, not, Option, none, some, List, [], ◌∷◌, Text, str, text_eq,
  Map, lookup, insert, assign, if◌then◌else◌,
}
use karpenter_provider_stack.Errors.{Err, Result, ok, err, is_kube_not_found, combine}
use karpenter_provider_stack.Apis.LabelKeys.{annotation_hash, annotation_hash_version}
use karpenter_provider_stack.Apis.NodeClass.{
  StackitNodeClass, StackitNodeClassSpec, hash, hash_version,
}
use karpenter_provider_stack.Apis.Core.{NodeClaim}
use karpenter_provider_stack.Utils.Labels.{at}

abbrev pub versioned : NodeClaim → Map Text
versioned nc = insert annotation_hash_version hash_version nc.annotations

-- From whether the claim has drifted already.
abbrev pub restamp_by : Text → NodeClaim → Bool → NodeClaim
restamp_by class_hash nc true = record nc { annotations = versioned nc }
restamp_by class_hash nc false = record nc {
  annotations = insert annotation_hash class_hash (versioned nc);
}

-- One turn of the loop of updateNodeClaimHash, past its guard and before the patch.
unfoldable pub restamp : Text → NodeClaim → NodeClaim
restamp class_hash nc = restamp_by class_hash nc nc.drifted_condition

-- The loop's guard: a claim of the current hash version is passed over.
abbrev pub is_current : NodeClaim → Bool
is_current nc = text_eq (at nc.annotations annotation_hash_version) hash_version

-- The Kubernetes client: the claims of the class, and the answers to patches of claims and of the
-- class; `none` is success.
pub record Kube : Type 0 where
  pub list_claims : Result Err (List NodeClaim)
  pub same_claim : NodeClaim → NodeClaim → Bool
  pub patch_claim : NodeClaim → Option Err
  pub same_class : StackitNodeClass → StackitNodeClass → Bool
  pub patch_class : StackitNodeClass → Option Err

abbrev pub ignore_not_found : Option Err → Option Err
ignore_not_found none = none
ignore_not_found (some e) = if is_kube_not_found e then none else some e

-- The patches that are sent, and their errors.
unfoldable pub restamp_all : Kube → Text → List NodeClaim → List NodeClaim × List (Option Err)
unfolding restamp
restamp_all kube class_hash [] = ([], [])
restamp_all kube class_hash (nc ∷ ncs) =
    let nc' = restamp class_hash nc in
    let (patched, errs) = restamp_all kube class_hash ncs in
    if is_current nc
    then (patched, errs)
    else if kube.same_claim nc nc'
    then (patched, errs)
    else (nc' ∷ patched, ignore_not_found (kube.patch_claim nc') ∷ errs)

abbrev pub restamped : Kube → Text → Result Err (List NodeClaim) → List NodeClaim × Option Err
restamped kube class_hash (err e) = ([], some e)
restamped kube class_hash (ok ncs) =
    let (patched, errs) = restamp_all kube class_hash ncs in (patched, combine errs)

unfoldable pub update_node_claim_hash : Kube → Text → List NodeClaim × Option Err
unfolding restamp_all
update_node_claim_hash kube class_hash = restamped kube class_hash kube.list_claims

-- The class with its own annotations brought up to date.
unfoldable pub stamp : Text → StackitNodeClass → StackitNodeClass
stamp class_hash c = record c {
  annotations =
      assign c.annotations
        ((annotation_hash, class_hash) ∷ (annotation_hash_version, hash_version) ∷ []);
}

-- The end of Reconcile: an error of the claims keeps the class from being patched.
abbrev pub settle :
    Kube
    → StackitNodeClass
    → StackitNodeClass
    → List NodeClaim × Option Err
    → List NodeClaim × Option StackitNodeClass × Option Err
settle kube c c' (patched, some e) = (patched, none, some e)
settle kube c c' (patched, none) =
    if kube.same_class c c'
    then (patched, none, none)
    else (patched, some c', ignore_not_found (kube.patch_class c'))

-- Reconcile: the patched claims, the class if it was patched, and the error.
unfoldable pub reconcile :
    (StackitNodeClassSpec → Text)
    → Kube
    → StackitNodeClass
    → List NodeClaim × Option StackitNodeClass × Option Err
unfolding update_node_claim_hash stamp
reconcile hash_spec kube c =
    let class_hash = hash hash_spec c in
    settle kube c (stamp class_hash c) (
      if text_eq (at c.annotations annotation_hash_version) hash_version
      then ([], none)
      else update_node_claim_hash kube class_hash)
