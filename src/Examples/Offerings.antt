-- ===== src/Examples/Offerings.antt =====
-- The theorems on availability, offerings, prices and capacity, at one machine type.
use karpenter_provider_stack.Prelude.{
  ◌≡◌, ◌≢◌, ◌⊎◌, refl, sym, Bool, true, false, Option, none, some, List, [], ◌∷◌, map, Text,
  text_eq, text_eq_refl, has_byte, lookup, assign, join, arith,
}
use karpenter_provider_stack.Prelude.Float.{Float64, finite, pos, lef}
use karpenter_provider_stack.Errors.{ClientError, Result, ok, err}
use karpenter_provider_stack.Env.GoCache.{simple_cache, simple_cache-IsGoCache, set_default}
use karpenter_provider_stack.Apis.LabelKeys.{label_instance_type}
use karpenter_provider_stack.Apis.Core.{Node}
use karpenter_provider_stack.Cache.{unavailable_offerings_ttl, instance_types_and_offerings_ttl}
use karpenter_provider_stack.Cache.Unavailable.{
  UnavailableOfferings, seq_at, seq_num, mark_unavailable, is_unavailable,
}
use karpenter_provider_stack.Cache.Unavailable.Marks.{mark_unavailable_lem}
use karpenter_provider_stack.Offering.{State, cache_key, build, create_offerings}
use karpenter_provider_stack.Offering.Freshness.{create_offerings_stale}
use karpenter_provider_stack.Pricing.{
  MachineTypeSpec, Provider, update_prices, parse_overrides, price, is_space,
}
use karpenter_provider_stack.Pricing.Model.{last_spec, price_by, update_prices_lem}
use karpenter_provider_stack.Pricing.Overrides.{
  Override, IsWellFormed, render, entries, parse_overrides-render,
}
use karpenter_provider_stack.Examples.Data.{
  small, zone_a, zone_b, team, web, instance_type, unavailable, offerings,
}

abbrev marked : UnavailableOfferings
marked = mark_unavailable 5 small zone_a unavailable

mark_unavailable_lem_example :
    (is_unavailable
        (simple_cache unavailable_offerings_ttl)
        (mark_unavailable 5 small zone_a unavailable)
        9
        small
        zone_a
      ≡ true)
    × (seq_num (mark_unavailable 5 small zone_a unavailable) small ≢ seq_num unavailable small)
    × ((text_eq small team ≡ true)
        ⊎ (seq_num (mark_unavailable 5 small zone_a unavailable) team ≡ seq_num unavailable team))
mark_unavailable_lem_example =
    mark_unavailable_lem (simple_cache unavailable_offerings_ttl)
      (simple_cache-IsGoCache unavailable_offerings_ttl) unavailable 5 9 small zone_a team
      (omega arith) (omega arith)

abbrev single : Text → Bool
single [] = false
single (c ∷ []) = true
single (c ∷ d ∷ s) = false

false-true : ¬ (false ≡ true)
false-true e = cc

-- Offerings cached at sequence number 0 for two zone lists, and a mark since then.
abbrev region : Text
region = b'r' ∷ []

abbrev cached : State
cached = record {
  cache = set_default 1 (cache_key offerings region instance_type (zone_b ∷ [])) [] ∷ [];
  last_seq_num = [];
}

moved : seq_at cached.last_seq_num small ≢ seq_num marked small
unfolding seq_at seq_num lookup
moved h =
    (mark_unavailable_lem (simple_cache unavailable_offerings_ttl)
        (simple_cache-IsGoCache unavailable_offerings_ttl) unavailable 5 9 small zone_a team
        (omega arith) (omega arith)).1
      (sym h)

other_key :
    text_eq
      (cache_key offerings region instance_type (zone_a ∷ []))
      (cache_key offerings region instance_type (zone_b ∷ []))
    ≡ false
unfolding cache_key text_eq
other_key = refl

old_cached :
    offerings.offerings.get cached.cache 5 (cache_key offerings region instance_type (zone_b ∷ []))
    ≡ some []
old_cached = rw (text_eq_refl (cache_key offerings region instance_type (zone_b ∷ [])))

create_offerings_stale_example :
    ((create_offerings offerings marked 5 region instance_type (zone_b ∷ []) cached).0
      ≡ build offerings marked 5 region instance_type (zone_b ∷ []))
    × ((create_offerings offerings marked 5 region instance_type
          (zone_b ∷ [])
          (create_offerings offerings marked 5 region instance_type (zone_a ∷ []) cached).1).0
        ≡ [])
create_offerings_stale_example =
    create_offerings_stale offerings (simple_cache-IsGoCache instance_types_and_offerings_ttl)
      region marked 5 instance_type (zone_a ∷ []) (zone_b ∷ []) [] cached moved other_key old_cached

abbrev one_cpu : MachineTypeSpec
one_cpu = record { name = small; vcpus = 1; ram_mib = 1024; disk_gib = 0 }

abbrev prices : Provider
prices = record { overrides = []; prices = [] }

abbrev listing : Result ClientError (List MachineTypeSpec)
listing = ok (one_cpu ∷ [])

update_prices_lem_example :
    ((specs : List MachineTypeSpec) × (listing ≡ ok specs)
      × (specs ≢ [])
      × ((update_prices listing prices).0 ≡ ok tt)
      × (price (update_prices listing prices).1 small ≡ price_by [] (last_spec small specs) none))
    ⊎ ((e : ClientError) × ((update_prices listing prices).0 ≡ err e)
        × ((update_prices listing prices).1 ≡ prices)
        × ((listing ≡ ok []) ⊎ ((e' : ClientError) × (listing ≡ err e'))))
update_prices_lem_example = update_prices_lem prices listing small

-- A parser that reads every text as 7.
abbrev seven : Text → Option Float64
seven value = some (finite (pos 7))

abbrev override : Override
override = record { name = team; value = web; price = finite (pos 7) }

well_formed : IsWellFormed seven override
unfolding text_eq has_byte is_space lef
well_formed = record {
  name_not_empty = refl;
  name_no_space = (refl, tt);
  name_no_equals = refl;
  name_no_comma = refl;
  value_not_empty = refl;
  value_no_space = (refl, tt);
  value_no_comma = refl;
  value_parses = refl;
  price_not_le_zero = refl;
}

parse_overrides-render_example :
    parse_overrides seven (join (b',' ∷ []) (map render (override ∷ [])))
    ≡ ok (assign [] (entries (override ∷ [])))
parse_overrides-render_example = parse_overrides-render seven (override ∷ []) (well_formed, tt)

abbrev node : Node
node = record {
  name = [];
  provider_id = [];
  labels = (label_instance_type, small) ∷ [];
  memory_capacity = 900;
}
