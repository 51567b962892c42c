-- ===== src/Controllers/Hash/Passes.antt =====
-- Whole reconciles of the hash controller: what an upgrade has done when the class is stamped, and
-- what is left to do afterwards.
use karpenter_provider_stack.Prelude.{
  ◌≡◌, inl, inr, refl, sym, ap, subst, ◌∙◌, Bool, true, Bool-cases, Option, none, some, List, [],
  ◌∷◌, Text, text_eq, text_eq_refl, text_eq_sound, Map, lookup, insert, assign, none-ne-some,
  if◌then◌else◌,
}
use karpenter_provider_stack.Errors.{Err}
use karpenter_provider_stack.Apis.LabelKeys.{annotation_hash, annotation_hash_version}
use karpenter_provider_stack.Apis.NodeClass.{
  StackitNodeClass, StackitNodeClassSpec, hash, hash_version,
}
use karpenter_provider_stack.Apis.Core.{NodeClaim}
use karpenter_provider_stack.Utils.Labels.{at}
use karpenter_provider_stack.Controllers.Hash.{
  Kube, update_node_claim_hash, stamp, settle, reconcile,
}
use karpenter_provider_stack.Controllers.Hash.Upgrade.{stamp_hash}

-- Setting what is already set.
insert_present : (k v : Text) (m : Map Text) → lookup k m ≡ some v → insert k v m ≡ m
unfolding lookup insert
insert_present k v [] h = absurd (none-ne-some v h)
insert_present k v ((j, w) ∷ m) h = elim (Bool-cases (text_eq j k)) [
  | inl same ↦
      let value : w ≡ v = cc (rw same at h) in rw (same, text_eq_sound j k same, value) refl
  | inr other ↦ rw (other, insert_present k v m (rw other at h)) refl
]

stamp_again : (h : Text) (c : StackitNodeClass) → stamp h (stamp h c) ≡ stamp h c
unfolding stamp assign
stamp_again h c =
    let stamped = (stamp h c).annotations in
    let (a, b) = stamp_hash h c in
    ap (λ (m : Map Text). record c { annotations = m })
      (ap (insert annotation_hash_version hash_version) (insert_present annotation_hash h stamped a)
        ∙ insert_present annotation_hash_version hash_version stamped b)

-- What settles: the class that is patched is the stamped one, and then no claim's patch has failed.
settle_patched :
    (kube : Kube) (c c' : StackitNodeClass) (r : List NodeClaim × Option Err)
    (patched : List NodeClaim) (x : StackitNodeClass) (e : Option Err)
    → settle kube c c' r ≡ (patched, some x, e)
    → (x ≡ c') × (r ≡ (patched, none))
settle_patched kube c c' (ps, some f) patched x e h = cc
settle_patched kube c c' (ps, none) patched x e h = elim (Bool-cases (kube.same_class c c')) [
  | inl same ↦ (let k = rw same at h in cc k)
  | inr other ↦ (let k = rw other at h in (cc k, cc k))
]

-- A reconcile of a stamped class.
settle_same :
    (kube : Kube) (c c' : StackitNodeClass) (b : Bool) (r : List NodeClaim × Option Err)
    → ((x : StackitNodeClass) → kube.same_class x x ≡ true)
    → b ≡ true
    → c' ≡ c
    → settle kube c c' (if b then ([], none) else r) ≡ ([], none, none)
settle_same kube c c' b r reflexive h e = rw (h, e, reflexive c) refl

hash-stamp :
    (hash_spec : StackitNodeClassSpec → Text) (h : Text) (c : StackitNodeClass)
    → hash hash_spec (stamp h c) ≡ hash hash_spec c
unfolding hash stamp
hash-stamp hash_spec h c = refl

stamp_version :
    (h : Text) (c : StackitNodeClass)
    → text_eq (at (stamp h c).annotations annotation_hash_version) hash_version ≡ true
stamp_version h c =
    ap
      (λ (r : Option Text). text_eq (elim r as (λ _. Text) [ none ↦ [] | some v ↦ v ]) hash_version)
      (stamp_hash h c).1
    ∙ text_eq_refl hash_version

reconcile_stamped :
    (hash_spec : StackitNodeClassSpec → Text) (kube : Kube) (c : StackitNodeClass)
    → ((x : StackitNodeClass) → kube.same_class x x ≡ true)
    → reconcile hash_spec kube (stamp (hash hash_spec c) c) ≡ ([], none, none)
unfolding reconcile
reconcile_stamped hash_spec kube c reflexive =
    let stamped = stamp (hash hash_spec c) c in
    settle_same kube stamped (stamp (hash hash_spec stamped) stamped) _ _ reflexive
      (stamp_version (hash hash_spec c) c)
      (ap (λ h. stamp h stamped) (hash-stamp hash_spec (hash hash_spec c) c)
        ∙ stamp_again (hash hash_spec c) c)

module _ (hash_spec : StackitNodeClassSpec → Text) (kube : Kube) (c c' : StackitNodeClass)
    (patched : List NodeClaim) (e : Option Err) where
  -- If the comparison of classes is reflexive: once a reconcile has patched the class, the next one of
  -- the patched class, with whatever claims and answers, patches neither a claim nor the class, and
  -- has no error.
  pub reconcile_again :
      (kube' : Kube)
      → ((x : StackitNodeClass) → kube'.same_class x x ≡ true)
      → reconcile hash_spec kube c ≡ (patched, some c', e)
      → reconcile hash_spec kube' c' ≡ ([], none, none)
  unfolding reconcile
  reconcile_again kube' reflexive h =
      let hc = hash hash_spec c in
      let claims =
        if text_eq (at c.annotations annotation_hash_version) hash_version
        then ([], none)
        else update_node_claim_hash kube hc in
      let (same, done) = settle_patched kube c (stamp hc c) claims patched c' e h in
      subst (λ (x : StackitNodeClass). reconcile hash_spec kube' x ≡ ([], none, none)) (sym same)
        (reconcile_stamped hash_spec kube' c reflexive)
