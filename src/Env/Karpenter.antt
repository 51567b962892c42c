-- ===== src/Env/Karpenter.antt =====
-- What the program calls of Karpenter's scheduling and cloudprovider packages.
use karpenter_provider_stack.Prelude.{
  ◌≡◌, ◌↔◌, Bool, true, false, Option, none, some, List, [], ◌∷◌, Text, text_eq, All, In,
}
use karpenter_provider_stack.Prelude.Float.{ltf}
use karpenter_provider_stack.Apis.Core.{
  Requirement, Requirements, ResourceList, Offering, InstanceType,
}

pub record Karpenter : Type 0 where
  -- scheduling.NewNodeSelectorRequirementsWithMinValues
  pub node_selector_requirements : Requirements → Requirements
  -- Requirements.Compatible(reqs, AllowUndefinedWellKnownLabels) == nil
  pub compatible : Requirements → Requirements → Bool
  -- InstanceType.Allocatable
  pub allocatable : InstanceType → ResourceList
  -- Offerings.Available, Offerings.Compatible, Offerings.Cheapest
  pub offerings_available : List Offering → List Offering
  pub offerings_compatible : List Offering → Requirements → List Offering
  pub cheapest : List Offering → Option Offering
  -- Requirements.Get(key).Any()
  pub any_value : Requirements → Text → Text

-- The documented behaviour of the three methods on offerings, where `offering_compatible` is the
-- test that Compatible makes of one offering; and of Any, which gives the one value of a requirement
-- that has one, if no other requirement has its key.
pub record IsKarpenter (k : Karpenter) (offering_compatible : Offering → Requirements → Bool)
    : Type 0 where
  pub available_iff :
      (o : Offering) (os : List Offering)
      → In o (k.offerings_available os) ↔ (In o os × (o.available ≡ true))
  pub compatible_iff :
      (o : Offering) (os : List Offering) (r : Requirements)
      → In o (k.offerings_compatible os r) ↔ (In o os × (offering_compatible o r ≡ true))
  pub cheapest_none : (os : List Offering) → k.cheapest os ≡ none → os ≡ []
  pub cheapest_mem : (os : List Offering) (o : Offering) → k.cheapest os ≡ some o → In o os
  pub cheapest_least :
      (os : List Offering) (o o' : Offering)
      → k.cheapest os ≡ some o
      → In o' os
      → ltf o'.price o.price ≡ false
  pub any_value_single :
      (r : Requirement) (rs : Requirements) (v : Text)
      → r.values ≡ v ∷ []
      → All (λ (r' : Requirement). text_eq r'.key r.key ≡ false) rs
      → k.any_value (r ∷ rs) r.key ≡ v
