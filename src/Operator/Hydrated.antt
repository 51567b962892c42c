-- ===== src/Operator/Hydrated.antt =====
-- What is loaded when the operator starts.
use karpenter_provider_stack.Prelude.{
  ◌≡◌, refl, ap, ◌∙◌, true, Bool-cases, inl, inr, Option, none, some, none-ne-some, List, [], ◌∷◌,
  Text, text_eq, text_eq_refl, Map, lookup,
}
use karpenter_provider_stack.Prelude.Float.{Float64}
use karpenter_provider_stack.Errors.{ClientError, Result, ok}
use karpenter_provider_stack.Env.Sdk.{Sdk, Call, list_machine_types}
use karpenter_provider_stack.Apis.Core.{MachineType}
use karpenter_provider_stack.Stackit.Client.{Client, call, client_list_machine_types}
use karpenter_provider_stack.InstanceType.Catalog.{
  DefaultProvider, State, new_state, by_name, updated, update_machine_types, specs_of, specs_or,
  Specs, machine_type_specs,
}
use karpenter_provider_stack.InstanceType.Catalog.Names.{
  InCatalog, Named, by_name_complete, by_name_keyed,
}
use karpenter_provider_stack.Pricing.{
  MachineTypeSpec, Provider, new_provider, price, model_price, price_loop, update_prices,
}
use karpenter_provider_stack.Pricing.Model.{last_spec, override_or, price_by, price_loop_lem}
use karpenter_provider_stack.Operator.{
  Libraries, Operator, operator_of, catalog_of, hydrate_prices, new_operator,
}
use karpenter_provider_stack.Operator.Options

abbrev Priced : Map MachineType → Text → Type 0
Priced ms name = (s : MachineTypeSpec) × (last_spec name (specs_of ms) ≡ some s)

-- The head is the last spec of its name, unless a later one has the name.
priced_head :
    (k : Text) (x : MachineType) (ms : Map MachineType) (name : Text) (r : Option MachineTypeSpec)
    → last_spec name (specs_of ms) ≡ r
    → text_eq x.name name ≡ true
    → Priced ((k, x) ∷ ms) name
priced_head k x ms name none p e =
    (record { name = x.name; vcpus = x.vcpus; ram_mib = x.ram; disk_gib = x.disk }, rw (p, e) refl)
priced_head k x ms name (some s) p e = (s, rw p refl)

priced_tail :
    (k : Text) (x : MachineType) (ms : Map MachineType) (name : Text)
    → Priced ms name
    → Priced ((k, x) ∷ ms) name
priced_tail k x ms name (s, p) = (s, rw p refl)

-- A machine type of the catalog is among the specs that prices are made of.
last_spec-specs_of :
    (ms : Map MachineType) (name : Text) (m : MachineType)
    → lookup name ms ≡ some m
    → text_eq m.name name ≡ true
    → Priced ms name
unfolding lookup
last_spec-specs_of [] name m h e = absurd (none-ne-some m h)
last_spec-specs_of ((k, x) ∷ ms) name m h e = elim (Bool-cases (text_eq k name)) [
  | inl same ↦
      let here : x ≡ m = cc (rw same at h) in
      priced_head k x ms name (last_spec name (specs_of ms)) refl (rw here e)
  | inr other ↦ priced_tail k x ms name (last_spec-specs_of ms name m (rw other at h) e)
]

-- The prices of a catalog that has a machine type are made of it, and it has one.
updated_prices :
    (overrides : Map Float64) (ms : Map MachineType) (name : Text) (m : MachineType)
    → lookup name ms ≡ some m
    → text_eq m.name name ≡ true
    → (p : Provider) × (update_prices (ok (specs_of ms)) (new_provider overrides) ≡ (ok tt, p))
      × ((q : Float64) × (price p name ≡ some q))
unfolding update_prices new_provider price lookup
updated_prices overrides [] name m h e = absurd (none-ne-some m h)
updated_prices overrides ((k, x) ∷ ms) name m h e =
    let (s, l) = last_spec-specs_of ((k, x) ∷ ms) name m h e in
    let specs = specs_of ((k, x) ∷ ms) in
    (
      record { overrides = overrides; prices = price_loop overrides specs [] },
      refl,
      (
        override_or (lookup s.name overrides) (model_price s),
        price_loop_lem overrides specs [] name ∙ ap (λ r. price_by overrides r none) l,
      ),
    )

-- A catalog that is not empty is not asked for again.
specs_or_loaded :
    (s : State) (calls : List Call) (refreshed : Specs) (ms : Map MachineType) (name : Text)
    → InCatalog ms name
    → specs_or ms s calls refreshed ≡ ((ok (specs_of s.machine_types), s), calls)
unfolding lookup
specs_or_loaded s calls refreshed [] name h = absurd (none-ne-some h.0 h.1)
specs_or_loaded s calls refreshed (e ∷ ms) name h = refl

machine_type_specs_loaded :
    (p : DefaultProvider) (calls : List Call) (s : State) (name : Text)
    → InCatalog s.machine_types name
    → machine_type_specs p calls s ≡ ((ok (specs_of s.machine_types), s), calls)
unfolding machine_type_specs
machine_type_specs_loaded p calls s name h = specs_or_loaded s calls _ s.machine_types name h

hydrated_prices :
    (libs : Libraries) (opts : Options.Options) (c : Client) (s : State) (calls : List Call)
    (ms : Map MachineType) (name : Text) (m : MachineType)
    → s.machine_types ≡ ms
    → lookup name ms ≡ some m
    → text_eq m.name name ≡ true
    → (p : Provider) × (hydrate_prices libs opts c ((ok (specs_of s.machine_types), s), calls)
        ≡ (ok (operator_of libs opts c s p), calls))
      × ((q : Float64) × (price p name ≡ some q))
hydrated_prices libs opts c s calls ms name m e h n =
    let (p, u, q) = updated_prices opts.pricing_overrides ms name m h n in (p, rw (e, u) refl, q)

-- Given a client whose API lists at least one machine type, the operator starts after that one
-- request, with a catalog that has exactly the machine types that were listed; each of them has a
-- price.
pub new_operator_lem :
    (libs : Libraries) (made : Result ClientError Sdk) (opts : Options.Options) (c : Client)
    (calls : List Call) (m : MachineType) (ms : List MachineType) (name : Text)
    → c.api.on_list_machine_types calls ≡ ok (some (m ∷ ms))
    → Named name (m ∷ ms)
    → (op : Operator) × (new_operator libs made opts (some c) calls
        ≡ (ok op, call c list_machine_types ∷ calls))
      × (op.instance_types.machine_types ≡ by_name (m ∷ ms))
      × InCatalog op.instance_types.machine_types name
      × ((q : Float64) × (price op.pricing_provider name ≡ some q))
unfolding new_operator update_machine_types updated client_list_machine_types
new_operator_lem libs made opts c calls m ms name a n =
    let (x, h) = by_name_complete name (m ∷ ms) n in
    let p = catalog_of libs opts c in
    let s = (updated p (ok (m ∷ ms)) new_state).1 in
    let calls' = call c list_machine_types ∷ calls in
    let named : text_eq x.name name ≡ true =
      rw (by_name_keyed (m ∷ ms) name x h) (text_eq_refl name) in
    let (prices, e, q) =
      hydrated_prices libs opts c s calls' (by_name (m ∷ ms)) name x refl h named in
    (
      operator_of libs opts c s prices,
      rw (a, machine_type_specs_loaded p calls' s name (x, h)) e,
      refl,
      (x, h),
      q,
    )
