-- ===== src/Examples/Start.antt =====
-- The theorems on the options and the start of the operator, at small ones.
use karpenter_provider_stack.Prelude.{
  ◌≡◌, ◌↔◌, ◌⊎◌, refl, false, Option, none, some, List, [], ◌∷◌, Text, text_eq, lookup, insert,
  here, split_byte, cut_byte,
}
use karpenter_provider_stack.Prelude.Float.{Float64, finite, pos, lef, ltf}
use karpenter_provider_stack.Errors.{ok}
use karpenter_provider_stack.Env.GoCache.{simple_cache}
use karpenter_provider_stack.Env.Sdk.{list_machine_types}
use karpenter_provider_stack.Cache.{
  default_ttl, unavailable_offerings_ttl, instance_types_and_offerings_ttl, discovered_capacity_ttl,
}
use karpenter_provider_stack.Stackit.Client.{Client, call}
use karpenter_provider_stack.InstanceType.Catalog.{by_name}
use karpenter_provider_stack.InstanceType.Catalog.Names.{InCatalog}
use karpenter_provider_stack.Pricing.{
  price, parse_overrides, trim_space, is_space, parse_pairs, check_override,
}
use karpenter_provider_stack.Utils.Zone.{trim_left, trim_right}
use karpenter_provider_stack.Pricing.Accepted.{IsAccepted}
use karpenter_provider_stack.Operator.{Libraries, Operator, new_operator}
use karpenter_provider_stack.Operator.Options.{Options, FlagsParsed, settings, validate, parse}
use karpenter_provider_stack.Operator.Options.Validity.{IsValid, validate_iff, parse_sound}
use karpenter_provider_stack.Operator.Hydrated.{new_operator_lem}
use karpenter_provider_stack.Examples.Data.{small, client, sdk, karpenter}
use karpenter_provider_stack.Examples.Traces.{go, types, machine, seven_percent}

abbrev options : Options
options = record {
  cluster_name = b'k' ∷ [];
  project_id = b'p' ∷ [];
  region = b'r' ∷ [];
  vm_memory_overhead_percent = finite (pos 7680000);
  pricing_overrides = [];
  disable_dry_run = false;
  raw_pricing_overrides = b'a' ∷ b'=' ∷ b'1' ∷ [];
}

validate_iff_example : (validate options ≡ []) ↔ IsValid options
validate_iff_example = validate_iff options

abbrev flags : Options → List Text → FlagsParsed
flags o args = settings o

abbrev one_price : Text → Option Float64
one_price s = some (finite (pos 1))

abbrev parsed : Options
parsed = record options { pricing_overrides = (b'a' ∷ [], finite (pos 1)) ∷ [] }

parsed_given : parse flags one_price [] options ≡ some (ok parsed)
unfolding parse parse_overrides text_eq trim_space trim_right trim_left is_space parse_pairs
    split_byte cut_byte check_override lef validate ltf insert
parsed_given = refl

parse_sound_example :
    (s : Options) × (settings options ≡ settings s)
    × (parsed ≡ record s { pricing_overrides = parsed.pricing_overrides })
    × (parse_overrides one_price s.raw_pricing_overrides ≡ ok parsed.pricing_overrides)
    × IsValid parsed
    × ((lookup (b'a' ∷ []) parsed.pricing_overrides ≡ none)
        ⊎ ((price : Float64) × (lookup (b'a' ∷ []) parsed.pricing_overrides ≡ some price)
            × IsAccepted one_price (split_byte b',' s.raw_pricing_overrides) (b'a' ∷ []) price))
parse_sound_example = parse_sound flags one_price [] options parsed (b'a' ∷ []) parsed_given

abbrev libraries : Libraries
libraries = record {
  go = go;
  karpenter = karpenter;
  share = seven_percent;
  instance_types = simple_cache instance_types_and_offerings_ttl;
  offerings = simple_cache instance_types_and_offerings_ttl;
  discovered_capacity = simple_cache discovered_capacity_ttl;
  unavailable = simple_cache unavailable_offerings_ttl;
  instances = simple_cache default_ttl;
  hash_settings = types.hash_settings;
  hash_zones = λ zones. [];
  has_changed = types.has_changed;
}

abbrev listing : Client
listing = record client {
  api = record sdk { on_list_machine_types = λ calls. ok (some (machine ∷ [])) };
}

new_operator_lem_example :
    (op : Operator) × (new_operator libraries (ok sdk) options (some listing) []
      ≡ (ok op, call listing list_machine_types ∷ []))
    × (op.instance_types.machine_types ≡ by_name (machine ∷ []))
    × InCatalog op.instance_types.machine_types small
    × ((q : Float64) × (price op.pricing_provider small ≡ some q))
new_operator_lem_example =
    new_operator_lem libraries (ok sdk) options listing [] machine [] small refl
      (machine, here refl, refl)
