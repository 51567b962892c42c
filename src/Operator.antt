-- ===== src/Operator.antt =====
-- pkg/operator/operator.go: the wiring of the parts, and the first load of machine types and prices.
-- The libraries, and the share that the resolver reads from the options later, are parameters.
pub mod Options
pub mod Hydrated
use karpenter_provider_stack.Prelude.{ℕ, Bool, Option, none, some, List, [], ◌∷◌, Text}
use karpenter_provider_stack.Prelude.Binary.{Binary}
use karpenter_provider_stack.Errors.{ClientError, wrapped, Result, ok, err}
use karpenter_provider_stack.Env.Go.{Go}
use karpenter_provider_stack.Env.GoCache.{GoCache}
use karpenter_provider_stack.Env.Sdk.{Sdk, Call}
use karpenter_provider_stack.Env.Karpenter.{Karpenter}
use karpenter_provider_stack.Apis.NodeClass.{KubeletConfiguration}
use karpenter_provider_stack.Apis.Core.{Quantity, Offering, InstanceType, MachineType}
use karpenter_provider_stack.Cache.Unavailable.{UnavailableOfferings, new_unavailable_offerings}
use karpenter_provider_stack.Stackit.Client.{Client, new_client}
use karpenter_provider_stack.Instance.{Instance}
use karpenter_provider_stack.Instance.Provider
use karpenter_provider_stack.InstanceType.Catalog
use karpenter_provider_stack.InstanceType.Catalog.{
  update_machine_types, machine_type_specs, new_state,
}
use karpenter_provider_stack.Offering
use karpenter_provider_stack.Pricing
use karpenter_provider_stack.Pricing.{MachineTypeSpec, new_provider, update_prices, price}

pub record Libraries : Type 0 where
  pub go : Go
  pub karpenter : Karpenter
  pub share : Binary
  pub instance_types : GoCache (List InstanceType)
  pub offerings : GoCache (List Offering)
  pub discovered_capacity : GoCache Quantity
  pub unavailable : GoCache (Unit {0})
  pub instances : GoCache Instance
  pub hash_settings : Text → List Text → ℕ → Option KubeletConfiguration → Text
  pub hash_zones : List Text → Text
  pub has_changed : List (List MachineType) → List MachineType → Bool

-- The parts that are handed to the controllers. A provider is its settings and its state.
pub record Operator : Type 0 where
  pub stackit_client : Client
  pub unavailable_offerings : UnavailableOfferings
  pub instance_types_provider : Catalog.DefaultProvider
  pub instance_types : Catalog.State
  pub offering_provider : Option Offering.DefaultProvider
  pub instance_provider : Provider.DefaultProvider
  pub pricing_provider : Pricing.Provider

abbrev pub catalog_of : Libraries → Options.Options → Client → Catalog.DefaultProvider
catalog_of libs opts client = record {
  api = client;
  go = libs.go;
  share = libs.share;
  region = opts.region;
  instance_types = libs.instance_types;
  discovered_capacity = libs.discovered_capacity;
  hash_settings = libs.hash_settings;
  has_changed = libs.has_changed;
}

-- SetPricingProvider: offerings read the prices from then on.
abbrev pub offering_of : Libraries → Pricing.Provider → Offering.DefaultProvider
offering_of libs p = record {
  price = price p;
  offerings = libs.offerings;
  unavailable = libs.unavailable;
  hash_zones = libs.hash_zones;
}

abbrev pub operator_of :
    Libraries → Options.Options → Client → Catalog.State → Pricing.Provider → Operator
operator_of libs opts client s p = record {
  stackit_client = client;
  unavailable_offerings = new_unavailable_offerings;
  instance_types_provider = catalog_of libs opts client;
  instance_types = s;
  offering_provider = some (offering_of libs p);
  instance_provider = record {
    cluster_name = opts.cluster_name;
    api = client;
    instances = libs.instances;
    karpenter = libs.karpenter;
  };
  pricing_provider = p;
}

abbrev pub finished :
    Libraries
    → Options.Options
    → Client
    → Catalog.State
    → Result ClientError (Unit {0}) × Pricing.Provider
    → List Call
    → Result ClientError Operator × List Call
finished libs opts client s (err e, p) calls = (err (wrapped e), calls)
finished libs opts client s (ok x, p) calls = (ok (operator_of libs opts client s p), calls)

-- UpdatePrices with the catalog as its lister.
abbrev pub hydrate_prices :
    Libraries
    → Options.Options
    → Client
    → (Result ClientError (List MachineTypeSpec) × Catalog.State) × List Call
    → Result ClientError Operator × List Call
hydrate_prices libs opts client ((specs, s), calls) =
    finished libs opts client s (update_prices specs (new_provider opts.pricing_overrides)) calls

abbrev pub hydrate :
    Libraries
    → Options.Options
    → Client
    → (Result ClientError (Unit {0}) × Catalog.State) × List Call
    → Result ClientError Operator × List Call
hydrate libs opts client ((err e, s), calls) = (err (wrapped e), calls)
hydrate libs opts client ((ok x, s), calls) =
    hydrate_prices libs opts client (machine_type_specs (catalog_of libs opts client) calls s)

abbrev pub with_client :
    Libraries
    → Options.Options
    → Result ClientError Client
    → List Call
    → Result ClientError Operator × List Call
with_client libs opts (err e) calls = (err (wrapped e), calls)
with_client libs opts (ok client) calls =
    hydrate libs opts client (update_machine_types (catalog_of libs opts client) calls new_state)

-- NewOperator: an injected client, or one that is made from the options.
unfoldable pub new_operator :
    Libraries
    → Result ClientError Sdk
    → Options.Options
    → Option Client
    → List Call
    → Result ClientError Operator × List Call
new_operator libs made opts (some client) calls = with_client libs opts (ok client) calls
new_operator libs made opts none calls =
    with_client libs opts (new_client made opts.project_id opts.region) calls
