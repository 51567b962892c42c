-- ===== src/Controllers/Hash/Loop.antt =====
-- What the loop of updateNodeClaimHash has done for each claim, if it has no error.
use karpenter_provider_stack.Prelude.{
  ◌≡◌, ◌⊎◌, inl, inr, refl, ap, subst, Bool, true, false, Bool-cases, Option, none, some, List, [],
  ◌∷◌, Text, str, text_eq, text_eq_sound, lookup, In, here, there, if◌then◌else◌,
}
use karpenter_provider_stack.Errors.{Err, is_kube_not_found, combine, joined}
use karpenter_provider_stack.Apis.LabelKeys.{annotation_hash_version}
use karpenter_provider_stack.Apis.NodeClass.{StackitNodeClass, hash_version}
use karpenter_provider_stack.Apis.Core.{NodeClaim}
use karpenter_provider_stack.CloudProvider.Drift.{no_drift, are_static_fields_drifted}
use karpenter_provider_stack.Controllers.Hash.{
  Kube, is_current, ignore_not_found, restamp, restamp_all, stamp,
}
use karpenter_provider_stack.Controllers.Hash.Upgrade.{IsUpgraded, restamp_no_drift}

-- A combination of errors is none only if all are.
none-combine :
    (e : Option Err) (es : List (Option Err))
    → combine (e ∷ es) ≡ none
    → (e ≡ none) × (combine es ≡ none)
unfolding combine
none-combine none es h = (refl, h)
none-combine (some e) es h = joined_some (combine es) h
  where
    joined_some :
        (r : Option Err)
        → elim r as (λ _. Option Err) [ none ↦ some e | some f ↦ some (joined e f) ] ≡ none
        → (some e ≡ none) × (r ≡ none)
    joined_some none k = cc k
    joined_some (some f) k = cc k

-- A patch that was taken, or whose claim is gone.
abbrev pub Accepted : Kube → NodeClaim → Type 0
Accepted kube x =
    (kube.patch_claim x ≡ none)
    ⊎ ((e : Err) × (kube.patch_claim x ≡ some e) × (is_kube_not_found e ≡ true))

ignored : (e : Err) → ignore_not_found (some e) ≡ none → is_kube_not_found e ≡ true
ignored e h = elim (Bool-cases (is_kube_not_found e)) [
  | inl gone ↦ gone
  | inr counts ↦ (let k = rw counts at h in cc k)
]

ignore_not_found-Accepted :
    (kube : Kube) (x : NodeClaim) (r : Option Err)
    → kube.patch_claim x ≡ r
    → ignore_not_found r ≡ none
    → Accepted kube x
ignore_not_found-Accepted kube x none e h = inl e
ignore_not_found-Accepted kube x (some f) e h = inr (f, e, ignored f h)

module _ (kube : Kube) (h : Text) where
  -- The claim is of the current hash version; or a patch to this state is among the patched claims
  -- and was accepted, unless the claim equals it already.
  abbrev pub Sent : NodeClaim → NodeClaim → List NodeClaim → Type 0
  Sent nc x patched = (kube.same_claim nc x ≡ true) ⊎ (In x patched × Accepted kube x)

  abbrev pub Patched : NodeClaim → List NodeClaim → Type 0
  Patched nc patched = (is_current nc ≡ true) ⊎ Sent nc (restamp h nc) patched

  turn_of :
      (nc : NodeClaim) (rest : List NodeClaim × List (Option Err)) (v b : Bool)
      → is_current nc ≡ v
      → kube.same_claim nc (restamp h nc) ≡ b
      → let r = if v then rest else if b then rest else (
        restamp h nc ∷ rest.0,
        ignore_not_found (kube.patch_claim (restamp h nc)) ∷ rest.1,
      ) in
        combine r.1 ≡ none
        → (combine rest.1 ≡ none) × Patched nc r.0 × ((x : NodeClaim) → In x rest.0 → In x r.0)
  turn_of nc rest true b current same k = (k, inl current, λ x i. i)
  turn_of nc rest false true older same k = (k, inr (inl same), λ x i. i)
  turn_of nc rest false false older other k =
      let (mine, others) = none-combine _ rest.1 k in
      let accepted = ignore_not_found-Accepted kube (restamp h nc) _ refl mine in
      (others, inr (inr (here refl, accepted)), λ x i. there i)

  more :
      (nc : NodeClaim) (a b : List NodeClaim)
      → ((x : NodeClaim) → In x a → In x b)
      → Patched nc a
      → Patched nc b
  more nc a b sub (inl current) = inl current
  more nc a b sub (inr (inl same)) = inr (inl same)
  more nc a b sub (inr (inr (i, e))) = inr (inr (sub _ i, e))

  pub restamp_all-Patched :
      (ncs : List NodeClaim)
      → combine (restamp_all kube h ncs).1 ≡ none
      → (nc : NodeClaim) → In nc ncs
      → Patched nc (restamp_all kube h ncs).0
  unfolding restamp_all
  restamp_all-Patched [] k nc i = elim i [ ]
  restamp_all-Patched (x ∷ ncs) k nc (here e) =
      let (rest, mine, sub) =
        turn_of x (restamp_all kube h ncs) (is_current x) (kube.same_claim x (restamp h x)) refl
          refl k in
      subst (λ (y : NodeClaim). Patched y (restamp_all kube h (x ∷ ncs)).0) e mine
  restamp_all-Patched (x ∷ ncs) k nc (there i) =
      let (rest, mine, sub) =
        turn_of x (restamp_all kube h ncs) (is_current x) (kube.same_claim x (restamp h x)) refl
          refl k in
      more nc (restamp_all kube h ncs).0 _ sub (restamp_all-Patched ncs rest nc i)

-- A claim was known as drifted, or is not drifted against the class as it is now.
abbrev pub KeepsDrift : NodeClaim → NodeClaim → StackitNodeClass → Type 0
KeepsDrift nc x c' = (nc.drifted_condition ≡ true) ⊎ (are_static_fields_drifted x c' ≡ no_drift)

pub restamp-KeepsDrift :
    (h : Text) (nc : NodeClaim) (c : StackitNodeClass) → KeepsDrift nc (restamp h nc) (stamp h c)
restamp-KeepsDrift h nc c = elim (Bool-cases nc.drifted_condition) [
  | inl drifted ↦ inl drifted
  | inr fine ↦ inr (restamp_no_drift h nc c fine)
]

-- What a complete upgrade has done for a claim.
abbrev pub Upgraded : Kube → Text → NodeClaim → List NodeClaim → StackitNodeClass → Type 0
Upgraded kube h nc patched c' =
    (lookup annotation_hash_version nc.annotations ≡ some hash_version)
    ⊎ ((x : NodeClaim) × IsUpgraded h nc x × Sent kube h nc x patched × KeepsDrift nc x c')

pub current_version :
    (nc : NodeClaim)
    → is_current nc ≡ true
    → lookup annotation_hash_version nc.annotations ≡ some hash_version
unfolding text_eq str
current_version nc h = of_lookup (lookup annotation_hash_version nc.annotations) h
  where
    of_lookup :
        (r : Option Text)
        → text_eq (elim r as (λ _. Text) [ none ↦ [] | some v ↦ v ]) hash_version ≡ true
        → r ≡ some hash_version
    of_lookup none k = cc k
    of_lookup (some v) k = ap some (text_eq_sound v hash_version k)
