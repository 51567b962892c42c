-- ===== src/Instance/Select/Cheapest.antt =====
-- cheapestOffering finds an offering that no other feasible one undercuts.
use karpenter_provider_stack.Prelude.{
  ◌≡◌, refl, Bool, true, false, Option, none, some, List, [], ◌∷◌, In, here, there, All, arith, ◌⊎◌,
  inl, inr, Bool-cases, subst, subst₂, sym, ◌∙◌,
}
use karpenter_provider_stack.Prelude.Float.{ltf, is_nan, not-ltf_trans, ltf_asymm, ltf_irrefl}
use karpenter_provider_stack.Errors.{ok, err, client, insufficient_capacity, plain}
use karpenter_provider_stack.Apis.LabelKeys.{label_topology_zone}
use karpenter_provider_stack.Apis.Core.{Requirements, Offering, InstanceType, NodeClaim}
use karpenter_provider_stack.Env.Karpenter.{Karpenter, IsKarpenter}
use karpenter_provider_stack.Instance.Select.{
  resources_fit, best_of, Best, improve, consider, cheapest_loop, cheapest_offering,
}

-- An instance type and an offering of it that the claim can be launched on.
pub record IsFeasible (k : Karpenter) (offering_compatible : Offering → Requirements → Bool)
    (reqs : Requirements) (node_claim : NodeClaim) (it : InstanceType) (o : Offering) : Type 0 where
  pub type_compatible : k.compatible it.requirements reqs ≡ true
  pub fits_requests : resources_fit k it node_claim ≡ true
  pub offered : In o it.offerings
  pub is_available : o.available ≡ true
  pub zone_compatible : offering_compatible o reqs ≡ true

false-true : ¬ (false ≡ true)
false-true e = cc

In_empty : {o : Offering} → ¬ In o []
In_empty m = elim m [ ]

-- No offering of the instance type has NaN for a price.
abbrev pub Priced : InstanceType → Type 0
Priced it = (o : Offering) → In o it.offerings → is_nan o.price ≡ false

module _ (k : Karpenter) (offering_compatible : Offering → Requirements → Bool)
    (spec : IsKarpenter k offering_compatible) (reqs : Requirements) (node_claim : NodeClaim) where
  open spec use {available_iff, compatible_iff, cheapest_none, cheapest_mem, cheapest_least}

  abbrev Feasible : InstanceType → Offering → Type 0
  Feasible it o = IsFeasible k offering_compatible reqs node_claim it o

  -- No feasible offering of the instance type is cheaper than `o`.
  abbrev NoneCheaper : Offering → InstanceType → Type 0
  NoneCheaper o it = (o' : Offering) → Feasible it o' → ltf o'.price o.price ≡ false

  abbrev candidates : InstanceType → List Offering
  candidates it = k.offerings_compatible (k.offerings_available it.offerings) reqs

  candidate_of : (it : InstanceType) (o : Offering) → Feasible it o → In o (candidates it)
  candidate_of it o f =
      (compatible_iff o _ reqs).1
        ((available_iff o it.offerings).1 (f.offered, f.is_available), f.zone_compatible)

  Feasible-of :
      (it : InstanceType) (o : Offering)
      → k.compatible it.requirements reqs ≡ true
      → resources_fit k it node_claim ≡ true
      → In o (candidates it)
      → Feasible it o
  Feasible-of it o c f m =
      let z = (compatible_iff o _ reqs).0 m in
      let a = (available_iff o it.offerings).0 z.0 in
      record {
        type_compatible = c;
        fits_requests = f;
        offered = a.0;
        is_available = a.1;
        zone_compatible = z.1;
      }

  -- What the choice `r`, made from `best` and one more instance type, says.
  abbrev Chosen : Best → InstanceType → Best → Type 0
  Chosen best it none = (best ≡ none) × ((o : Offering) → ¬ Feasible it o)
  Chosen best it (some (t, o)) =
      ((best ≡ some (t, o)) ⊎ ((t ≡ it) × Feasible it o))
      × ((b : InstanceType) (bo : Offering) → best ≡ some (b, bo) → ltf bo.price o.price ≡ false)
      × NoneCheaper o it

  keep-Chosen :
      (best : Best) (it : InstanceType) → ((o : Offering) → ¬ Feasible it o) → Chosen best it best
  keep-Chosen none it nothing = (refl, nothing)
  keep-Chosen (some (b, bo)) it nothing =
      (inl refl, λ t o e. ground (arith, ltf_irrefl bo.price), λ o' f. absurd (nothing o' f))

  improve-Chosen :
      (best : Best) (it : InstanceType) (o : Offering)
      → Feasible it o
      → is_nan o.price ≡ false
      → NoneCheaper o it
      → Chosen best it (improve best it o)
  unfolding improve
  improve-Chosen none it o f n least = (inr (refl, f), (λ b bo e. cc), least)
  improve-Chosen (some (b, bo)) it o f n least = elim (Bool-cases (ltf o.price bo.price)) [
    | inl less ↦
        rw less (inr (refl, f), (λ t to e. ground (arith, ltf_asymm o.price bo.price)), least)
    | inr not_less ↦ rw not_less (
      inl refl,
      (λ t to e. ground (arith, ltf_irrefl bo.price)),
      λ o' g. not-ltf_trans o'.price o.price bo.price n (least o' g) not_less,
    )
  ]

  from_candidates :
      (best : Best) (it : InstanceType)
      → Priced it
      → k.compatible it.requirements reqs ≡ true
      → resources_fit k it node_claim ≡ true
      → (c : Option Offering) → best_of k reqs it ≡ c
      → Chosen best it (elim c as (λ _. Best) [ none ↦ best | some o ↦ improve best it o ])
  unfolding best_of
  from_candidates best it p c f none e =
      keep-Chosen best it
        λ o g. In_empty (subst (In o) (cheapest_none (candidates it) e) (candidate_of it o g))
  from_candidates best it p c f (some o) e =
      let g = Feasible-of it o c f (cheapest_mem (candidates it) o e) in
      improve-Chosen best it o g (p o g.offered)
        λ o' g'. cheapest_least (candidates it) o o' e (candidate_of it o' g')

  consider-Chosen :
      (best : Best) (it : InstanceType)
      → Priced it
      → Chosen best it (consider k reqs node_claim best it)
  consider-Chosen best it p = elim (Bool-cases (k.compatible it.requirements reqs)) [
    | inr apart ↦
        unfold consider in
        rw apart (keep-Chosen best it λ o g. false-true (sym apart ∙ g.type_compatible))
    | inl together ↦ elim (Bool-cases (resources_fit k it node_claim)) [
      | inr large ↦
          unfold consider in
          rw (together, large) (keep-Chosen best it λ o g. false-true (sym large ∙ g.fits_requests))
      | inl small ↦
          unfold consider in
          rw (together, small) (from_candidates best it p together small (best_of k reqs it) refl)
    ]
  ]

  -- What the choice `r`, made from `best` and a list of instance types, says.
  abbrev LoopChosen : Best → List InstanceType → Best → Type 0
  LoopChosen best its none = (best ≡ none) × All (λ it. (o : Offering) → ¬ Feasible it o) its
  LoopChosen best its (some (t, o)) =
      ((best ≡ some (t, o)) ⊎ (In t its × Feasible t o))
      × ((b : InstanceType) (bo : Offering) → best ≡ some (b, bo) → ltf bo.price o.price ≡ false)
      × All (NoneCheaper o) its

  abbrev BestPriced : Best → Type 0
  BestPriced best =
      (b : InstanceType) (bo : Offering) → best ≡ some (b, bo) → is_nan bo.price ≡ false

  Chosen-BestPriced :
      (best : Best) (it : InstanceType) (m : Best)
      → Priced it
      → BestPriced best
      → Chosen best it m
      → BestPriced m
  Chosen-BestPriced best it none p bp c b bo e = cc
  Chosen-BestPriced best it (some (x, xo)) p bp (inl same, _, _) b bo e = bp b bo (same ∙ e)
  Chosen-BestPriced best it (some (x, xo)) p bp (inr (t, f), _, _) b bo e =
      ground (arith, p xo f.offered)

  -- The pair that `some` holds, and the facts about it.
  moved :
      (x t : InstanceType) (xo o : Offering)
      → ◌≡◌ {A = Best} (some (x, xo)) (some (t, o))
      → Feasible x xo
      → (x ≡ t) × Feasible t o
  moved x t xo o e f = (
    ground arith,
    subst₂ Feasible (let q : x ≡ t = ground arith in q) (let q : xo ≡ o = ground arith in q) f,
  )

  compose :
      (best : Best) (it : InstanceType) (its : List InstanceType) (m r : Best)
      → BestPriced m
      → Chosen best it m
      → LoopChosen m its r
      → LoopChosen best (it ∷ its) r
  compose best it its none none mp c l = (c.0, (c.1, l.1))
  compose best it its none (some (t, o)) mp c (inl e, _, _) = cc
  compose best it its none (some (t, o)) mp c (inr (m, f), _, rest) =
      (inr (there m, f), (λ b bo e. cc (c.0)), ((λ o' g. absurd (c.1 o' g)), rest))
  compose best it its (some (x, xo)) none mp c l = cc (l.0)
  compose best it its (some (x, xo)) (some (t, o)) mp (from, before, here_) (to, after, rest) =
      let n = mp x xo refl in
      let l = after x xo refl in
      (
        origin from to,
        (λ b bo e. not-ltf_trans bo.price xo.price o.price n (before b bo e) l),
        ((λ o' g. not-ltf_trans o'.price xo.price o.price n (here_ o' g) l), rest),
      )
    where
      origin :
          (best ≡ some (x, xo)) ⊎ ((x ≡ it) × Feasible it xo)
          → (◌≡◌ {A = Best} (some (x, xo)) (some (t, o))) ⊎ (In t its × Feasible t o)
          → (best ≡ some (t, o)) ⊎ (In t (it ∷ its) × Feasible t o)
      origin _ (inr (m, f)) = inr (there m, f)
      origin (inl e) (inl e') = inl (e ∙ e')
      origin (inr (p, f)) (inl e') =
          let q = moved x t xo o e' (subst (λ i. Feasible i xo) (sym p) f) in
          inr (here (sym p ∙ q.0), q.1)

  loop-LoopChosen :
      (its : List InstanceType) (best : Best)
      → All Priced its
      → BestPriced best
      → LoopChosen best its (cheapest_loop k reqs node_claim best its)
  unfolding cheapest_loop
  loop-LoopChosen [] none p bp = (refl, tt)
  loop-LoopChosen [] (some (b, bo)) p bp =
      (inl refl, (λ t o e. ground (arith, ltf_irrefl bo.price)), tt)
  loop-LoopChosen (it ∷ its) best p bp =
      let c = consider-Chosen best it p.0 in
      let mp = Chosen-BestPriced best it _ p.0 bp c in
      compose best it its _ _ mp c (loop-LoopChosen its (consider k reqs node_claim best it) p.1 mp)

-- Where no price is NaN, the launch takes a feasible instance type and offering, in the zone of that
-- offering, that no other feasible offering undercuts; it reports insufficient capacity exactly if
-- no instance type has a feasible offering.
pub cheapest_offering_lem :
    (k : Karpenter) (offering_compatible : Offering → Requirements → Bool)
    → IsKarpenter k offering_compatible
    → (its : List InstanceType) (claim : NodeClaim) → All Priced its
    → let feasible =
        IsFeasible k offering_compatible (k.node_selector_requirements claim.requirements) claim in
      ((cheapest_offering k its claim ≡ err (insufficient_capacity (client plain)))
        × All (λ it. (o : Offering) → ¬ feasible it o) its)
      ⊎ ((it : InstanceType) × (o : Offering) × (cheapest_offering k its claim
            ≡ ok (it, k.any_value o.requirements label_topology_zone))
          × In it its
          × feasible it o
          × All (λ it'. (o' : Offering) → feasible it' o' → ltf o'.price o.price ≡ false) its)
unfolding cheapest_offering
cheapest_offering_lem k oc spec its claim priced =
    go (cheapest_loop k reqs claim none its) refl
      (loop-LoopChosen k oc spec reqs claim its none priced (λ b bo e. cc))
  where
    reqs : Requirements
    reqs = k.node_selector_requirements claim.requirements

    go :
        (r : Best)
        → cheapest_loop k reqs claim none its ≡ r
        → LoopChosen k oc spec reqs claim none its r
        → ((cheapest_offering k its claim ≡ err (insufficient_capacity (client plain)))
            × All (λ it. (o : Offering) → ¬ IsFeasible k oc reqs claim it o) its)
          ⊎ ((it : InstanceType) × (o : Offering) × (cheapest_offering k its claim
                ≡ ok (it, k.any_value o.requirements label_topology_zone))
              × In it its
              × IsFeasible k oc reqs claim it o
              × All
                  (λ it'.
                    (o' : Offering)
                    → IsFeasible k oc reqs claim it' o'
                    → ltf o'.price o.price ≡ false)
                  its)
    go none e l = inl (rw (e, cheapest_offering), l.1)
    go (some (t, o)) e (inl same, _, _) = cc
    go (some (t, o)) e (inr (m, f), _, rest) = inr (t, o, rw (e, cheapest_offering), m, f, rest)
