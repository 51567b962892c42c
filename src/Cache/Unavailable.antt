-- ===== src/Cache/Unavailable.antt =====
-- UnavailableOfferings (pkg/cache/unavailableofferings.go).
pub mod Marks
pub mod Spec
pub mod Keys
pub mod Steps
pub mod Refinement
use karpenter_provider_stack.Prelude.{
  ℕ, ◌+◌, ◌%◌, ◌^◌, Bool, true, false, ◌||◌, Option, none, some, List, [], ◌∷◌, ◌++◌, Text, str,
  cut_byte, Map, lookup, insert, if◌then◌else◌,
}
use karpenter_provider_stack.Env.GoCache.{
  CacheOp, History, GoCache, set_default, delete, flush, evict,
}

pub record UnavailableOfferings : Type 0 where
  pub offering_cache : History (Unit {0})
  pub offering_cache_seq_num : Map ℕ
  pub zone_cache : History (Unit {0})
  pub zone_cache_seq_num : ℕ

abbrev pub u64 : ℕ
u64 = 2 ^ 64

unfoldable pub new_unavailable_offerings : UnavailableOfferings
new_unavailable_offerings = record {
  offering_cache = [];
  offering_cache_seq_num = [];
  zone_cache = [];
  zone_cache_seq_num = 0;
}

unfoldable pub key : Text → Text → Text
key machine_type zone = machine_type ++ b':' ∷ zone

-- `offeringCacheSeqNum[machineType]`, and its increment.
unfoldable pub seq_at : Map ℕ → Text → ℕ
seq_at m k = elim (lookup k m) [ none ↦ 0 | some n ↦ n ]

unfoldable pub bump_seq : Text → UnavailableOfferings → UnavailableOfferings
bump_seq machine_type u = record u {
  offering_cache_seq_num =
      insert machine_type ((seq_at u.offering_cache_seq_num machine_type + 1) % u64)
        u.offering_cache_seq_num;
}

unfoldable pub bump_zone_seq : UnavailableOfferings → UnavailableOfferings
bump_zone_seq u = record u { zone_cache_seq_num = (u.zone_cache_seq_num + 1) % u64 }

-- The OnEvicted callback of the offering cache; `none` is its panic.
unfoldable pub on_offering_evicted : Text → UnavailableOfferings → Option UnavailableOfferings
on_offering_evicted k u = elim (cut_byte b':' k) [
  | none ↦ none
  | some (machine_type, _) ↦ some (bump_seq machine_type u)
]

unfoldable pub seq_num : UnavailableOfferings → Text → ℕ
seq_num u machine_type = (seq_at u.offering_cache_seq_num machine_type + u.zone_cache_seq_num) % u64

unfoldable pub mark_unavailable : ℕ → Text → Text → UnavailableOfferings → UnavailableOfferings
mark_unavailable now machine_type zone u =
    bump_seq machine_type
      (record u { offering_cache = set_default now (key machine_type zone) tt ∷ u.offering_cache })

unfoldable pub mark_zone_unavailable : ℕ → Text → UnavailableOfferings → UnavailableOfferings
mark_zone_unavailable now zone u =
    bump_zone_seq (record u { zone_cache = set_default now zone tt ∷ u.zone_cache })

abbrev pub is_found {ℓ} : {A : Type ℓ} → Option A → Bool
is_found none = false
is_found (some a) = true

-- A cleanup calls OnEvicted for each key that has expired.
unfoldable pub evict_each : List Text → UnavailableOfferings → Option UnavailableOfferings
evict_each [] u = some u
evict_each (k ∷ ks) u = elim (on_offering_evicted k u) [ none ↦ none | some u' ↦ evict_each ks u' ]

-- The caches are instances of the library, which is a parameter.
module _ (lib : GoCache (Unit {0})) where
  unfoldable pub is_unavailable : UnavailableOfferings → ℕ → Text → Text → Bool
  is_unavailable u now machine_type zone =
      let offering_found = is_found (lib.get u.offering_cache now (key machine_type zone)) in
      let zone_found = is_found (lib.get u.zone_cache now zone) in offering_found || zone_found

  -- Delete: the library calls OnEvicted if the key was there.
  unfoldable pub delete_offering : Text → Text → UnavailableOfferings → Option UnavailableOfferings
  delete_offering machine_type zone u =
      let k = key machine_type zone in
      let u' = record u { offering_cache = delete k ∷ u.offering_cache } in
      if lib.holds u.offering_cache k then on_offering_evicted k u' else some u'

  unfoldable pub clean_offerings : ℕ → UnavailableOfferings → Option UnavailableOfferings
  unfolding evict_each
  clean_offerings now u =
      evict_each (lib.expired u.offering_cache now)
        (record u { offering_cache = evict now ∷ u.offering_cache })

-- The OnEvicted callback of the zone cache, for each key that has expired.
abbrev pub evict_zones : List Text → UnavailableOfferings → UnavailableOfferings
evict_zones [] u = u
evict_zones (z ∷ zs) u = evict_zones zs (bump_zone_seq u)

unfoldable pub clean_zones : GoCache (Unit {0}) → ℕ → UnavailableOfferings → UnavailableOfferings
clean_zones lib now u =
    evict_zones (lib.expired u.zone_cache now) (record u { zone_cache = evict now ∷ u.zone_cache })

-- Flush drops the entries and leaves the sequence numbers.
unfoldable pub flush_offerings : UnavailableOfferings → UnavailableOfferings
flush_offerings u = record u {
  offering_cache = flush ∷ u.offering_cache;
  zone_cache = flush ∷ u.zone_cache;
}
