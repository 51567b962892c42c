-- ===== src/Pricing/Model.antt =====
-- The modelled prices, and the table that UpdatePrices leaves.
use karpenter_provider_stack.Prelude.{
  ℕ, ◌+◌, ◌*◌, ◌≤◌, ◌<◌, ◌≡◌, ◌≢◌, ◌⊎◌, inl, inr, refl, true, Option, none, some, List, [], ◌∷◌,
  Text, text_eq, Map, lookup, lookup-insert, insert, arith, if◌then◌else◌,
}
use karpenter_provider_stack.Prelude.Float.{Float64, finite, pos, lef, ltf, zero_float}
use karpenter_provider_stack.Errors.{ClientError, Result, ok, err, plain}
use karpenter_provider_stack.Pricing.{
  MachineTypeSpec, Provider, model_price, price_of, price_loop, update_prices, price,
  eur_per_vcpu_hour, eur_per_mib_hour, eur_per_gib_disk_hour,
}

-- No machine type is free, whatever its resources are.
pub model_price_pos : (s : MachineTypeSpec) → ltf zero_float (model_price s) ≡ true
unfolding model_price lef ltf
model_price_pos s = ground arith

-- A machine type with at least the vCPUs, memory and disk of one that has a vCPU is not cheaper.
pub model_price_mono :
    (s t : MachineTypeSpec)
    → 0 < s.vcpus
    → s.vcpus ≤ t.vcpus
    → s.ram_mib ≤ t.ram_mib
    → s.disk_gib ≤ t.disk_gib
    → lef (model_price s) (model_price t) ≡ true
unfolding model_price lef
model_price_mono s t h a b c = ground arith

mul_pos : (a b : ℕ) → 0 < a → 0 < b → 0 < a * b
mul_pos a b h k = grind arith

-- A machine type with k times the resources of one that has a vCPU costs exactly k times as much.
pub model_price_scale :
    (s : MachineTypeSpec) (k : ℕ)
    → 0 < s.vcpus
    → 0 < k
    → (p : ℕ) × (model_price s ≡ finite (pos p))
      × (model_price
            (record s { vcpus = k * s.vcpus; ram_mib = k * s.ram_mib; disk_gib = k * s.disk_gib })
          ≡ finite (pos (k * p)))
unfolding model_price lef
model_price_scale s k h l = (
  s.vcpus * eur_per_vcpu_hour + s.ram_mib * eur_per_mib_hour + s.disk_gib * eur_per_gib_disk_hour,
  ground arith,
  let q : 0 < k * s.vcpus = mul_pos k s.vcpus l h in ground arith,
)

-- The last spec of a name.
abbrev pub last_spec : Text → List MachineTypeSpec → Option MachineTypeSpec
last_spec name [] = none
last_spec name (s ∷ specs) = elim (last_spec name specs) [
  | none ↦ (if text_eq s.name name then some s else none)
  | some t ↦ some t
]

-- The override if there is one, and else the other price.
abbrev pub override_or : Option Float64 → Float64 → Float64
override_or (some override) modelled = override
override_or none modelled = modelled

price_of-override_or :
    (overrides : Map Float64) (s : MachineTypeSpec)
    → price_of overrides s ≡ override_or (lookup s.name overrides) (model_price s)
unfolding price_of
price_of-override_or overrides s = by_override (lookup s.name overrides)
  where
    by_override :
        (o : Option Float64)
        → elim o as (λ _. Float64) [ some override ↦ override | none ↦ model_price s ]
          ≡ override_or o (model_price s)
    by_override none = refl
    by_override (some override) = refl

-- The price of a machine type, by its last spec: its override or its modelled price.
abbrev pub price_by : Map Float64 → Option MachineTypeSpec → Option Float64 → Option Float64
price_by overrides none old = old
price_by overrides (some s) old = some (override_or (lookup s.name overrides) (model_price s))

pub price_loop_lem :
    (overrides : Map Float64) (specs : List MachineTypeSpec) (prices : Map Float64) (name : Text)
    → lookup name (price_loop overrides specs prices)
      ≡ price_by overrides (last_spec name specs) (lookup name prices)
unfolding price_loop
price_loop_lem overrides [] prices name = refl
price_loop_lem overrides (s ∷ specs) prices name = ground (
  arith,
  price_loop_lem overrides specs (insert s.name (price_of overrides s) prices) name,
  lookup-insert s.name name (price_of overrides s) prices,
  price_of-override_or overrides s,
)

-- A successful update prices exactly the machine types of the catalog, each by its override if it
-- has one and else by the model; a failed or empty listing is an error and leaves the old prices.
pub update_prices_lem :
    (p : Provider) (listed : Result ClientError (List MachineTypeSpec)) (name : Text)
    → ((specs : List MachineTypeSpec) × (listed ≡ ok specs)
        × (specs ≢ [])
        × ((update_prices listed p).0 ≡ ok tt)
        × (price (update_prices listed p).1 name
            ≡ price_by p.overrides (last_spec name specs) none))
      ⊎ ((e : ClientError) × ((update_prices listed p).0 ≡ err e)
          × ((update_prices listed p).1 ≡ p)
          × ((listed ≡ ok []) ⊎ ((e' : ClientError) × (listed ≡ err e'))))
unfolding update_prices price lookup
update_prices_lem p (err e) name = inr (_, refl, refl, inr (e, refl))
update_prices_lem p (ok []) name = inr (plain, refl, refl, inl refl)
update_prices_lem p (ok (s ∷ specs)) name =
    inl (s ∷ specs, refl, (λ h. cc), refl, price_loop_lem p.overrides (s ∷ specs) [] name)
