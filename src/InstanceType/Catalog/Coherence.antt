-- ===== src/InstanceType/Catalog/Coherence.antt =====
-- The states that the provider can reach, and what its cache holds in them.
use karpenter_provider_stack.Prelude.{
  ℕ, ◌≡◌, ◌↔◌, ◌⊎◌, inl, inr, refl, false, Option, none, some, List, [], ◌∷◌, Text, Map, In,
  none-ne-some,
}
use karpenter_provider_stack.Errors.{ClientError, Err, Result}
use karpenter_provider_stack.Env.GoCache.{IsGoCache, Held, set_default, evict}
use karpenter_provider_stack.Apis.NodeClass.{StackitNodeClass}
use karpenter_provider_stack.Apis.Core.{Node, InstanceType, MachineType}
use karpenter_provider_stack.Cache.{instance_types_and_offerings_ttl}
use karpenter_provider_stack.Cache.Unavailable.{UnavailableOfferings}
use karpenter_provider_stack.Offering
use karpenter_provider_stack.InstanceType.Discovered.{update_capacity}
use karpenter_provider_stack.InstanceType.Catalog.Names.{InCatalog, Named}
use karpenter_provider_stack.InstanceType.Catalog.Resolved.{Keyed, AllIn, Covers, resolve_all_exact}
use karpenter_provider_stack.InstanceType.Catalog.{
  DefaultProvider, State, new_state, resolve_all, stored, cached_or, list_types, list, updated,
  reset, cache_key,
}

-- The change monitor's documented behaviour: a value has not changed only if the last one that was
-- shown has the same elements.
abbrev pub SameAsLast : List (List MachineType) → List MachineType → Type 0
SameAsLast [] v = ⊥
SameAsLast (last ∷ older) v = (m : MachineType) → In m last ↔ In m v

abbrev pub IsChangeMonitor : DefaultProvider → Type 0
IsChangeMonitor p =
    (shown : List (List MachineType)) (v : List MachineType)
    → p.has_changed shown v ≡ false
    → SameAsLast shown v

-- What may happen to the provider, in any order: instance types are listed for some class, with
-- some offering provider or none, a cleanup of the cache runs, the catalog is refreshed with some answer of the API, a node reports its memory, a reset.
pub data Step (p : DefaultProvider) (s s' : State) : Type 0 where
  listed :
      (now : ℕ) (o : Option Offering.DefaultProvider) (u : UnavailableOfferings)
      (c : StackitNodeClass) (r : Result Err (List InstanceType))
      → list p now o u c s ≡ some (r, s')
      → Step p s s'
  evicted :
      (now : ℕ)
      → s' ≡ record s { instance_types_cache = evict now ∷ s.instance_types_cache }
      → Step p s s'
  refreshed :
      (answer : Result ClientError (List MachineType)) → s' ≡ (updated p answer s).1 → Step p s s'
  observed :
      (now : ℕ) (node : Node) (c : StackitNodeClass)
      → s' ≡ record s {
        discovered_capacity_cache =
            update_capacity p.discovered_capacity p.go.format now node c
              s.discovered_capacity_cache;
      }
      → Step p s s'
  reset_all : s' ≡ reset p s → Step p s s'

pub data Reach (p : DefaultProvider) : State → Type 0 where
  start : Reach p new_state
  next : {s s' : State} → Reach p s → Step p s s' → Reach p s'

abbrev pub LastNames : Text → List (List MachineType) → Type 0
LastNames name [] = ⊥
LastNames name (last ∷ older) = Named name last

-- Instance types of all names of a catalog, and of no other.
abbrev pub Exact : Map MachineType → List InstanceType → Type 0
Exact ms its = AllIn ms its × Covers ms its

pub record IsCoherent (s : State) : Type 0 where
  pub keyed : Keyed s.machine_types
  pub last_shown : (name : Text) → InCatalog s.machine_types name → LastNames name s.shown
  -- the catalog is the last one that was shown, unless a reset has emptied it
  pub synced :
      (s.machine_types ≡ [])
      ⊎ ((name : Text) → LastNames name s.shown → InCatalog s.machine_types name)
  -- nothing is cached for an empty catalog
  pub uncached :
      (key : Text) (its : List InstanceType)
      → s.machine_types ≡ []
      → ¬ Held key its s.instance_types_cache
  pub cached :
      (key : Text) (its : List InstanceType)
      → Held key its s.instance_types_cache
      → Exact s.machine_types its

module _ (p : DefaultProvider) where
  -- A list of types is what was cached or what is resolved, and only the cache changes.
  abbrev pub Listed : StackitNodeClass → State → List InstanceType → State → Type 0
  Listed c s its s' =
      Exact s.machine_types its
      × ((s' ≡ s)
          ⊎ ((now : ℕ) × (s' ≡ record s {
            instance_types_cache = set_default now (cache_key p c) its ∷ s.instance_types_cache;
          })))

  module _ (spec : IsGoCache instance_types_and_offerings_ttl p.instance_types) where
    pub list_types-Listed :
        (now : ℕ) (c : StackitNodeClass) (s s' : State) (its : List InstanceType)
        → IsCoherent s
        → list_types p now c s ≡ some (its, s')
        → Listed c s its s'
    unfolding list_types
    list_types-Listed now c s s' its v h =
        by_cache (p.instance_types.get s.instance_types_cache now (cache_key p c)) refl h
      where
        by_resolved :
            (r : Option (List InstanceType))
            → resolve_all p now s c s.machine_types ≡ r
            → stored p now (cache_key p c) s r ≡ some (its, s')
            → Listed c s its s'
        by_resolved none e k = absurd (none-ne-some (its, s') k)
        by_resolved (some found) e k =
            let same : found ≡ its = cc k in
            (resolve_all_exact p now s c its v.keyed (rw (← same) e), inr (now, rw (← same) (cc k)))

        by_cache :
            (r : Option (List InstanceType))
            → p.instance_types.get s.instance_types_cache now (cache_key p c) ≡ r
            → cached_or p now r c s ≡ some (its, s')
            → Listed c s its s'
        by_cache none e k = by_resolved (resolve_all p now s c s.machine_types) refl k
        by_cache (some found) e k =
            let same : found ≡ its = cc k in
            (
              v.cached (cache_key p c) its
                  (spec.get_sound s.instance_types_cache now (cache_key p c) its (rw (← same) e)),
              inl (cc k),
            )
