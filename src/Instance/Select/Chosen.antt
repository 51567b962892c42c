-- ===== src/Instance/Select/Chosen.antt =====
-- What cheapestOffering chooses is an available offering of one of the instance types, whatever the
-- prices are.
use karpenter_provider_stack.Prelude.{
  ◌≡◌, refl, subst, Bool, true, Option, none, some, List, [], ◌∷◌, Text, In, here, there, inl, inr,
  Bool-cases,
}
use karpenter_provider_stack.Prelude.Float.{ltf}
use karpenter_provider_stack.Errors.{ok}
use karpenter_provider_stack.Apis.LabelKeys.{label_topology_zone}
use karpenter_provider_stack.Apis.Core.{Requirements, Offering, InstanceType, NodeClaim}
use karpenter_provider_stack.Env.Karpenter.{Karpenter, IsKarpenter}
use karpenter_provider_stack.Instance.Select.{
  resources_fit, best_of, Best, improve, consider, cheapest_loop, cheapest_offering,
}

-- An available offering of the instance type.
abbrev pub Offers : InstanceType → Offering → Type 0
Offers t o = In o t.offerings × (o.available ≡ true)

module _ (k : Karpenter) (offering_compatible : Offering → Requirements → Bool)
    (spec : IsKarpenter k offering_compatible) (reqs : Requirements) (node_claim : NodeClaim) where
  open spec use {available_iff, compatible_iff, cheapest_mem}

  -- The best so far is an offering of one of the instance types.
  abbrev From : List InstanceType → Best → Type 0
  From its none = Unit
  From its (some (t, o)) = In t its × Offers t o

  best_of-Offers : (it : InstanceType) (o : Offering) → best_of k reqs it ≡ some o → Offers it o
  unfolding best_of
  best_of-Offers it o h =
      (available_iff o it.offerings).0 ((compatible_iff o _ reqs).0 (cheapest_mem _ o h)).0

  improve-From :
      (its : List InstanceType) (best : Best) (it : InstanceType) (o : Offering)
      → From its best
      → In it its
      → Offers it o
      → From its (improve best it o)
  unfolding improve
  improve-From its none it o f i a = (i, a)
  improve-From its (some (t, b)) it o f i a = elim (Bool-cases (ltf o.price b.price)) [
    | inl less ↦ rw less (i, a)
    | inr not_less ↦ rw not_less f
  ]

  consider-From :
      (its : List InstanceType) (best : Best) (it : InstanceType)
      → From its best
      → In it its
      → From its (consider k reqs node_claim best it)
  consider-From its best it f i = elim (Bool-cases (k.compatible it.requirements reqs)) [
    | inr apart ↦ unfold consider in rw apart f
    | inl together ↦ elim (Bool-cases (resources_fit k it node_claim)) [
      | inr large ↦ unfold consider in rw (together, large) f
      | inl small ↦ unfold consider in rw (together, small) (by_best (best_of k reqs it) refl)
    ]
  ]
    where
      by_best :
          (c : Option Offering)
          → best_of k reqs it ≡ c
          → From its (elim c as (λ _. Best) [ none ↦ best | some o ↦ improve best it o ])
      by_best none e = f
      by_best (some o) e = improve-From its best it o f i (best_of-Offers it o e)

  loop-From :
      (all its : List InstanceType) (best : Best)
      → ((it : InstanceType) → In it its → In it all)
      → From all best
      → From all (cheapest_loop k reqs node_claim best its)
  unfolding cheapest_loop
  loop-From all [] best sub f = f
  loop-From all (it ∷ its) best sub f =
      loop-From all its (consider k reqs node_claim best it) (λ x i. sub x (there i))
        (consider-From all best it f (sub it (here refl)))

-- The chosen zone is the zone of an available offering of the chosen type, one of the list.
pub cheapest_offering-Offers :
    (k : Karpenter) (offering_compatible : Offering → Requirements → Bool)
    → IsKarpenter k offering_compatible
    → (its : List InstanceType) (claim : NodeClaim) (it : InstanceType) (zone : Text)
    → cheapest_offering k its claim ≡ ok (it, zone)
    → (o : Offering) × In it its
      × Offers it o
      × (k.any_value o.requirements label_topology_zone ≡ zone)
unfolding cheapest_offering
cheapest_offering-Offers k oc spec its claim it zone h =
    go (cheapest_loop k reqs claim none its) refl
      (loop-From k oc spec reqs claim its its none (λ x i. i) tt)
  where
    reqs : Requirements
    reqs = k.node_selector_requirements claim.requirements

    go :
        (r : Best)
        → cheapest_loop k reqs claim none its ≡ r
        → From k oc spec reqs claim its r
        → (o : Offering) × In it its
          × Offers it o
          × (k.any_value o.requirements label_topology_zone ≡ zone)
    go none e f = cc (rw (e, cheapest_offering) at h)
    go (some (t, o)) e (i, a) =
        let chosen = rw (e, cheapest_offering) at h in
        let same : t ≡ it = cc chosen in
        (
          o,
          subst (λ (x : InstanceType). In x its) same i,
          subst (λ (x : InstanceType). Offers x o) same a,
          cc chosen,
        )
