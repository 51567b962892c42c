-- ===== src/CloudProvider/Drift/Laws.antt =====
-- When a claim counts as drifted.
use karpenter_provider_stack.Prelude.{
  ◌≡◌, ◌≢◌, ◌↔◌, refl, sym, ap, Bool, true, false, Option, none, some, List, [], ◌∷◌, map, Text,
  text_eq, text_eq_iff, text_eq_sound, any, All, lookup, if◌then◌else◌, arith, Bool-cases, inl, inr,
}
use karpenter_provider_stack.Apis.LabelKeys.{annotation_hash, annotation_hash_version}
use karpenter_provider_stack.Apis.NodeClass.{StackitNodeClass}
use karpenter_provider_stack.Apis.Core.{NodeClaim}
use karpenter_provider_stack.Utils.Zone.{sanitize_zone}
use karpenter_provider_stack.Instance
use karpenter_provider_stack.Instance.{Instance}
use karpenter_provider_stack.CloudProvider.Drift.{
  no_drift, node_class_drift, availability_zone_drift, compare_hashes, are_static_fields_drifted,
  zone_drifted,
}

-- Class and claim both have a hash and a version, the versions agree and the hashes do not.
abbrev pub HashesDiffer : Option Text → Option Text → Option Text → Option Text → Type 0
HashesDiffer ch cv nh nv =
    (h : Text) × (v : Text) × (g : Text) × (ch ≡ some h)
    × (cv ≡ some v)
    × (nh ≡ some g)
    × (nv ≡ some v)
    × (h ≢ g)

compare_hashes_iff :
    (ch cv nh nv : Option Text)
    → (compare_hashes ch cv nh nv ≡ node_class_drift) ↔ HashesDiffer ch cv nh nv
unfolding compare_hashes
compare_hashes_iff (some h) (some v) (some g) (some w) = elim (Bool-cases (text_eq v w)) [
  | inr different ↦ (
    λ d. absurd (ground (arith, different)),
    λ (h', v', g', a, b, c, e, n). ground (arith, text_eq_iff v w),
  )
  | inl same ↦ elim (Bool-cases (text_eq h g)) [
    | inl equal ↦
        (λ d. ground (arith), λ (h', v', g', a, b, c, e, n). ground (arith, text_eq_iff h g))
    | inr unequal ↦ (
      λ d. (
        h,
        v,
        g,
        refl,
        refl,
        refl,
        ap some (sym (text_eq_sound v w same)),
        λ e. cc ((text_eq_iff h g).1 e),
      ),
      λ (h', v', g', a, b, c, e, n). ground arith,
    )
  ]
]
compare_hashes_iff none cv nh nv = (λ h. cc, λ (h, v, g, a, b, c, d, n). cc)
compare_hashes_iff (some x) none nh nv = (λ h. cc, λ (h, v, g, a, b, c, d, n). cc)
compare_hashes_iff (some x) (some y) none nv = (λ h. cc, λ (h, v, g, a, b, c, d, n). cc)
compare_hashes_iff (some x) (some y) (some z) none = (λ h. cc, λ (h, v, g, a, b, c, d, n). cc)

-- Static fields have drifted exactly if the class and the claim both carry a hash and a hash
-- version, the versions are the same and the hashes differ.
pub static_drift_iff :
    (nc : NodeClaim) (c : StackitNodeClass)
    → (are_static_fields_drifted nc c ≡ node_class_drift)
      ↔ HashesDiffer
          (lookup annotation_hash c.annotations)
          (lookup annotation_hash_version c.annotations)
          (lookup annotation_hash nc.annotations)
          (lookup annotation_hash_version nc.annotations)
unfolding are_static_fields_drifted
static_drift_iff nc c =
    compare_hashes_iff (lookup annotation_hash c.annotations)
      (lookup annotation_hash_version c.annotations) (lookup annotation_hash nc.annotations)
      (lookup annotation_hash_version nc.annotations)

abbrev zone_among : List Text → Text → Bool
zone_among zs z = any (λ s. text_eq s z) (map sanitize_zone zs)

zone_among_iff :
    (zs : List Text) (z : Text) → (zone_among zs z ≡ false) ↔ All (λ y. sanitize_zone y ≢ z) zs
zone_among_iff [] z = (λ h. tt, λ h. refl)
zone_among_iff (y ∷ zs) z =
    let rest = zone_among_iff zs z in
    elim (Bool-cases (text_eq (sanitize_zone y) z)) [
      | inl same ↦ (
        λ h. absurd (ground (arith, same)),
        λ h. absurd (h.0 (text_eq_sound (sanitize_zone y) z same)),
      )
      | inr other ↦ (
        λ h. ((λ e. cc ((text_eq_iff (sanitize_zone y) z).1 e)), rest.0 (ground (arith, other))),
        λ h. rw other (rest.1 h.1),
      )
    ]

not_among :
    (b : Bool)
    → (if b then no_drift else availability_zone_drift) ≡ availability_zone_drift
    → b ≡ false
not_among true h = cc
not_among false h = refl

-- The zone has drifted exactly if the class has zones and, sanitized, none of them is the server's.
pub zone_drift_iff :
    (zs : List Text) (inst : Instance)
    → (zone_drifted zs inst ≡ availability_zone_drift)
      ↔ ((zs ≢ []) × All (λ y. sanitize_zone y ≢ Instance.zone inst) zs)
unfolding zone_drifted
zone_drift_iff [] inst = (λ h. cc, λ h. absurd (h.0 refl))
zone_drift_iff (z ∷ zs) inst =
    let among = zone_among_iff (z ∷ zs) (Instance.zone inst) in
    (
      λ h. ((λ e. cc), among.0 (not_among (zone_among (z ∷ zs) (Instance.zone inst)) h)),
      λ h. rw (among.1 h.1),
    )
