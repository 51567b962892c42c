-- ===== src/Instance/Select/Fits.antt =====
-- resourcesFit (pkg/providers/instance/instance.go): when a claim's requests fit an instance type.
use karpenter_provider_stack.Prelude.{
  ◌≤◌, ◌≡◌, ◌↔◌, refl, Bool, true, false, not, ◌&&◌, Option, none, some, [], ◌∷◌, Text, lookup, ltb,
  arith, All,
}
use karpenter_provider_stack.Apis.Core.{ResourceList, Quantity, InstanceType, NodeClaim}
use karpenter_provider_stack.Env.Karpenter.{Karpenter}
use karpenter_provider_stack.Instance.Select.{fits, resources_fit}

-- The resource is there, in the quantity asked for.
abbrev pub IsCovered : ResourceList → Text × Quantity → Type 0
IsCovered allocatable (name, quantity) =
    (available : Quantity) × (lookup name allocatable ≡ some available) × (quantity ≤ available)

turn_iff :
    (found : Option Quantity) (quantity : Quantity) (rest : Bool) {A : Type 0}
    → (rest ≡ true) ↔ A
    → ((elim found as (λ _. Bool) [ none ↦ false | some available ↦ not (ltb available quantity) ]
          && rest)
        ≡ true)
      ↔ (((available : Quantity) × (found ≡ some available) × (quantity ≤ available)) × A)
turn_iff none quantity rest go = ((λ h. cc h), λ ((a, e, l), r). cc e)
turn_iff (some available) quantity true go = (
  (λ h. ((available, refl, ground (arith, h)), go.0 refl)),
  λ ((a, e, l), r). let same : available ≡ a = cc e in ground (arith, same, l),
)
turn_iff (some available) quantity false go = ((λ h. ground (arith, h)), λ (c, r). cc (go.1 r))

fits_iff :
    (allocatable requests : ResourceList)
    → (fits allocatable requests ≡ true) ↔ All (IsCovered allocatable) requests
unfolding fits
fits_iff allocatable [] = ((λ h. tt), λ h. refl)
fits_iff allocatable ((name, quantity) ∷ requests) =
    turn_iff (lookup name allocatable) quantity (fits allocatable requests)
      (fits_iff allocatable requests)

-- A claim fits an instance type exactly if the type has every requested resource among its allocatable
-- ones, in at least the requested quantity.
pub resources_fit_iff :
    (k : Karpenter) (it : InstanceType) (node_claim : NodeClaim)
    → (resources_fit k it node_claim ≡ true)
      ↔ All (IsCovered (k.allocatable it)) node_claim.requests
unfolding resources_fit
resources_fit_iff k it node_claim = fits_iff (k.allocatable it) node_claim.requests
