-- ===== src/Instance/Select.antt =====
-- cheapestOffering and resourcesFit (pkg/providers/instance/instance.go).
pub mod Cheapest
pub mod Chosen
pub mod Fits
use karpenter_provider_stack.Prelude.{
  ◌≡◌, ◌↔◌, refl, Bool, true, false, not, ◌&&◌, Option, none, some, List, [], ◌∷◌, Text, Map,
  lookup, In, here, there, ltb, if◌then◌else◌, arith, ◌⊎◌, inl, inr, Bool-cases, Option-cases,
  subst,
}
use karpenter_provider_stack.Prelude.Float.{ltf}
use karpenter_provider_stack.Errors.{Err, Result, ok, err, client, insufficient_capacity, plain}
use karpenter_provider_stack.Apis.LabelKeys.{label_topology_zone}
use karpenter_provider_stack.Apis.Core.{
  Requirements, ResourceList, Quantity, Offering, InstanceType, NodeClaim,
}
use karpenter_provider_stack.Env.Karpenter.{Karpenter, IsKarpenter}

-- The loop of resourcesFit, over the requests that are left.
unfoldable pub fits : ResourceList → ResourceList → Bool
fits allocatable [] = true
fits allocatable ((name, quantity) ∷ requests) =
    elim (lookup name allocatable) [ none ↦ false | some available ↦ not (ltb available quantity) ]
    && fits allocatable requests

-- bestType and bestOffering, which are nil together.
abbrev pub Best : Type 0
Best = Option (InstanceType × Offering)

-- bestOffering == nil || offering.Price < bestOffering.Price
unfoldable pub improve : Best → InstanceType → Offering → Best
improve none it o = some (it, o)
improve (some (best_type, best)) it o =
    if ltf o.price best.price then some (it, o) else some (best_type, best)

module _ (k : Karpenter) where
  unfoldable pub resources_fit : InstanceType → NodeClaim → Bool
  resources_fit it node_claim = fits (k.allocatable it) node_claim.requests

  -- The offering that the loop looks at for an instance type.
  unfoldable pub best_of : Requirements → InstanceType → Option Offering
  best_of reqs it = k.cheapest (k.offerings_compatible (k.offerings_available it.offerings) reqs)

  -- One turn of the loop.
  unfoldable pub consider : Requirements → NodeClaim → Best → InstanceType → Best
  consider reqs node_claim best it =
      if not (k.compatible it.requirements reqs)
      then best
      else if not (resources_fit it node_claim)
      then best
      else elim (best_of reqs it) [ none ↦ best | some o ↦ improve best it o ]

  unfoldable pub cheapest_loop : Requirements → NodeClaim → Best → List InstanceType → Best
  cheapest_loop reqs node_claim best [] = best
  cheapest_loop reqs node_claim best (it ∷ its) =
      cheapest_loop reqs node_claim (consider reqs node_claim best it) its

  unfoldable pub cheapest_offering :
      List InstanceType → NodeClaim → Result Err (InstanceType × Text)
  cheapest_offering instance_types node_claim =
      let reqs = k.node_selector_requirements node_claim.requirements in
      elim (cheapest_loop reqs node_claim none instance_types) [
        | none ↦ err (insufficient_capacity (client plain))
        | some (best_type, best) ↦ ok (best_type, k.any_value best.requirements label_topology_zone)
      ]
