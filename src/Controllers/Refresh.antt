-- ===== src/Controllers/Refresh.antt =====
-- pkg/controllers/providers: the timers that refresh the machine types and the prices.
use karpenter_provider_stack.Prelude.{ℕ, ◌*◌, List}
use karpenter_provider_stack.Errors.{ClientError, client, wrap, Result, ok, err}
use karpenter_provider_stack.Env.Sdk.{Call}
use karpenter_provider_stack.InstanceType.Catalog
use karpenter_provider_stack.InstanceType.Catalog.{
  DefaultProvider, update_machine_types, machine_type_specs,
}
use karpenter_provider_stack.Pricing
use karpenter_provider_stack.Pricing.{update_prices}
use karpenter_provider_stack.Controllers.NodeClass.{Outcome, requeue_after, fail}

abbrev pub refresh_period : ℕ
refresh_period = 12 * 60 * 60

abbrev pub outcome_of : Result ClientError (Unit {0}) → Outcome
outcome_of (err e) = fail (wrap (client e))
outcome_of (ok x) = requeue_after refresh_period

-- Reconcile of providers.instancetype: its outcome, and what it leaves.
unfoldable pub reconcile_machine_types :
    DefaultProvider → List Call → Catalog.State → (Outcome × Catalog.State) × List Call
reconcile_machine_types p calls s =
    let ((r, s'), calls') = update_machine_types p calls s in ((outcome_of r, s'), calls')

-- Reconcile of providers.pricing, whose prices come from the catalog.
unfoldable pub reconcile_prices :
    DefaultProvider
    → List Call
    → Catalog.State
    → Pricing.Provider
    → (Outcome × (Catalog.State × Pricing.Provider)) × List Call
reconcile_prices p calls s prices =
    let ((specs, s'), calls') = machine_type_specs p calls s in
    let (r, prices') = update_prices specs prices in ((outcome_of r, (s', prices')), calls')
