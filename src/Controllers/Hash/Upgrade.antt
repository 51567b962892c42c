-- ===== src/Controllers/Hash/Upgrade.antt =====
-- What an upgrade of the hash version does to claims: drift is neither made nor lost.
use karpenter_provider_stack.Prelude.{
  ◌≡◌, ◌⊎◌, inl, inr, refl, ap, Bool, Bool-cases, true, false, some, Text, str, text_eq,
  text_eq_refl, text_eq_sound, lookup, insert, lookup-insert, lookup-assign,
}
use karpenter_provider_stack.Apis.LabelKeys.{annotation_hash, annotation_hash_version}
use karpenter_provider_stack.Apis.NodeClass.{StackitNodeClass, hash_version}
use karpenter_provider_stack.Apis.Core.{NodeClaim}
use karpenter_provider_stack.CloudProvider.Drift.{
  no_drift, compare_hashes, are_static_fields_drifted,
}
use karpenter_provider_stack.Controllers.Hash.{versioned, restamp_by, restamp, stamp}

pub distinct_annotations :
    (text_eq annotation_hash annotation_hash_version ≡ false)
    × (text_eq annotation_hash_version annotation_hash ≡ false)
unfolding str text_eq
distinct_annotations = (refl, refl)

pub stamp_hash :
    (h : Text) (c : StackitNodeClass)
    → (lookup annotation_hash (stamp h c).annotations ≡ some h)
      × (lookup annotation_hash_version (stamp h c).annotations ≡ some hash_version)
unfolding stamp
stamp_hash h c =
    let (a, b) = distinct_annotations in
    (
      rw (lookup-assign, b, text_eq_refl annotation_hash),
      rw (lookup-assign, text_eq_refl annotation_hash_version),
    )

pub compare_hashes_same :
    (h v : Text) → compare_hashes (some h) (some v) (some h) (some v) ≡ no_drift
unfolding compare_hashes
compare_hashes_same h v = rw (text_eq_refl v, text_eq_refl h)

restamp_as :
    (h : Text) (nc : NodeClaim) (drifted : Bool)
    → nc.drifted_condition ≡ drifted
    → restamp h nc ≡ restamp_by h nc drifted
unfolding restamp
restamp_as h nc drifted d = ap (restamp_by h nc) d

-- What the upgrade makes of a claim: it has the current hash version, and the class's hash, unless it
-- has drifted already: then it keeps its hash, which the new one must not hide. Nothing else of it
-- is changed.
pub record IsUpgraded (h : Text) (nc x : NodeClaim) : Type 0 where
  pub version : lookup annotation_hash_version x.annotations ≡ some hash_version
  pub stamped :
      ((nc.drifted_condition ≡ false) × (lookup annotation_hash x.annotations ≡ some h))
      ⊎ ((nc.drifted_condition ≡ true)
          × (lookup annotation_hash x.annotations ≡ lookup annotation_hash nc.annotations))
  pub other_annotations :
      (k : Text)
      → (annotation_hash ≡ k)
        ⊎ (annotation_hash_version ≡ k)
        ⊎ (lookup k x.annotations ≡ lookup k nc.annotations)
  pub other_fields : x ≡ record nc { annotations = x.annotations }

kept_annotation :
    (h k : Text) (nc : NodeClaim)
    → (annotation_hash ≡ k)
      ⊎ (annotation_hash_version ≡ k)
      ⊎ ((lookup k (insert annotation_hash h (versioned nc)) ≡ lookup k nc.annotations)
          × (lookup k (versioned nc) ≡ lookup k nc.annotations))
kept_annotation h k nc = elim (Bool-cases (text_eq annotation_hash k)) [
  | inl same ↦ inl (text_eq_sound annotation_hash k same)
  | inr other ↦ elim (Bool-cases (text_eq annotation_hash_version k)) [
    | inl same ↦ inr (inl (text_eq_sound annotation_hash_version k same))
    | inr other' ↦
        inr (inr (rw (lookup-insert, other, lookup-insert, other'), rw (lookup-insert, other')))
  ]
]

restamp_by-IsUpgraded :
    (h : Text) (nc : NodeClaim) (drifted : Bool)
    → nc.drifted_condition ≡ drifted
    → IsUpgraded h nc (restamp_by h nc drifted)
restamp_by-IsUpgraded h nc false d =
    let (a, b) = distinct_annotations in
    record {
      version = rw (lookup-insert, a, lookup-insert, text_eq_refl annotation_hash_version);
      stamped = inl (d, rw (lookup-insert, text_eq_refl annotation_hash));
      other_annotations = λ k. elim (kept_annotation h k nc) [
        | inl same ↦ inl same
        | inr (inl same) ↦ inr (inl same)
        | inr (inr (e, f)) ↦ inr (inr e)
      ];
      other_fields = refl;
    }
restamp_by-IsUpgraded h nc true d =
    let (a, b) = distinct_annotations in
    record {
      version = rw (lookup-insert, text_eq_refl annotation_hash_version);
      stamped = inr (d, rw (lookup-insert, b));
      other_annotations = λ k. elim (kept_annotation h k nc) [
        | inl same ↦ inl same
        | inr (inl same) ↦ inr (inl same)
        | inr (inr (e, f)) ↦ inr (inr f)
      ];
      other_fields = refl;
    }

pub restamp-IsUpgraded : (h : Text) (nc : NodeClaim) → IsUpgraded h nc (restamp h nc)
unfolding restamp
restamp-IsUpgraded h nc = restamp_by-IsUpgraded h nc nc.drifted_condition refl

-- A claim that has not drifted is not drifted after the upgrade: once class and claim have been
-- brought up to date, their static fields compare as equal.
pub restamp_no_drift :
    (h : Text) (nc : NodeClaim) (c : StackitNodeClass)
    → nc.drifted_condition ≡ false
    → are_static_fields_drifted (restamp h nc) (stamp h c) ≡ no_drift
unfolding are_static_fields_drifted
restamp_no_drift h nc c d =
    let (a, b) = distinct_annotations in
    let (e, f) = stamp_hash h c in
    rw (restamp_as h nc false d, e, f, lookup-insert, text_eq_refl annotation_hash)
      (rw (lookup-insert, a, lookup-insert, text_eq_refl annotation_hash_version)
        (compare_hashes_same h hash_version))
