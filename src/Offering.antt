-- ===== src/Offering.antt =====
-- pkg/providers/instancetype/offering/offering.go: per-zone availability and price.
pub mod Freshness
pub mod Withdrawn
use karpenter_provider_stack.Prelude.{
  ℕ, Bool, true, false, not, ◌&&◌, Option, none, some, List, [], ◌∷◌, ◌++◌, map, Text, str, text_eq,
  Map, lookup, insert, if◌then◌else◌, ◌==◌,
}
use karpenter_provider_stack.Prelude.Float.{Float64}
use karpenter_provider_stack.Env.GoCache.{GoCache, History, set_default}
use karpenter_provider_stack.Apis.LabelKeys.{
  label_topology_zone, label_topology_region, label_capacity_type, capacity_type_on_demand,
}
use karpenter_provider_stack.Apis.Core.{Requirement, Offering, InstanceType}
use karpenter_provider_stack.Cache.Unavailable.{
  UnavailableOfferings, seq_num, seq_at, is_unavailable, is_found,
}
use karpenter_provider_stack.Utils.Zone.{sanitize_zone}

pub record State : Type 0 where
  pub cache : History (List Offering)
  -- machine type name to the sequence number that its offerings were last built from
  pub last_seq_num : Map ℕ

-- Prices, the two caches' library, and hashstructure.Hash of a zone list as "%016x" of it.
pub record DefaultProvider : Type 0 where
  pub price : Text → Option Float64
  pub offerings : GoCache (List Offering)
  pub unavailable : GoCache (Unit {0})
  pub hash_zones : List Text → Text

abbrev single : Text → Text → Requirement
single key value = record { key = key; values = value ∷ [] }

unfoldable pub cache_key : DefaultProvider → Text → InstanceType → List Text → Text
cache_key p region it zones = it.name ++ (b'-' ∷ (region ++ (b'-' ∷ p.hash_zones zones)))

-- Serve what is cached if the sequence number is the same, and else what is built afresh.
abbrev pub served :
    Option (List Offering) → Bool → List Offering × State → State → List Offering × State
served none same fresh s = fresh
served (some cached) same fresh s = if same then (cached, s) else fresh

module _ (p : DefaultProvider) (u : UnavailableOfferings) (now : ℕ) (region : Text) where
  unfoldable pub zone_offering : Text → Float64 → Text → Offering
  zone_offering name price zone =
      let sanitized = sanitize_zone zone in
      record {
        requirements =
            single label_topology_zone sanitized
            ∷ single label_topology_region region
            ∷ single label_capacity_type capacity_type_on_demand
            ∷ [];
        price = price;
        available = not (is_unavailable p.unavailable u now name sanitized);
      }

  -- The offerings that are built when none are cached.
  unfoldable pub build : InstanceType → List Text → List Offering
  build it zones = elim (p.price it.name) [
    | none ↦ []
    | some price ↦ map (zone_offering it.name price) zones
  ]

  unfoldable pub rebuild : InstanceType → List Text → State → List Offering × State
  unfolding build
  rebuild it zones s =
      let offerings = build it zones in
      (
        offerings,
        record {
          cache = set_default now (cache_key p region it zones) offerings ∷ s.cache;
          last_seq_num = insert it.name (seq_num u it.name) s.last_seq_num;
        },
      )

  unfoldable pub create_offerings : InstanceType → List Text → State → List Offering × State
  create_offerings it zones s =
      served (p.offerings.get s.cache now (cache_key p region it zones))
        (seq_at s.last_seq_num it.name == seq_num u it.name) (rebuild it zones s) s

  unfoldable pub inject_offerings :
      List InstanceType → List Text → State → List InstanceType × State
  unfolding create_offerings
  inject_offerings [] zones s = ([], s)
  inject_offerings (it ∷ its) zones s =
      let (offerings, s') = create_offerings it zones s in
      let (rest, s'') = inject_offerings its zones s' in
      (record it { offerings = offerings } ∷ rest, s'')
