-- ===== src/InstanceType/Catalog.antt =====
-- DefaultProvider of pkg/providers/instancetype/instancetype.go: the catalog of machine types and
-- the instance types made of it. An outer `none` is a panic of the resolver; a method that cannot
-- reach the resolver has none. Locks, gauges and log lines are left out.
pub mod Names
pub mod Resolved
pub mod Coherence
pub mod Served
pub mod Exact
use karpenter_provider_stack.Prelude.{
  ℕ, Bool, true, false, Option, none, some, List, [], ◌∷◌, map, Text, text_eq, Map, lookup, insert,
  assign, find, if◌then◌else◌,
}
use karpenter_provider_stack.Prelude.Binary.{Binary}
use karpenter_provider_stack.Errors.{ClientError, Err, client, plain, wrapped, Result, ok, err}
use karpenter_provider_stack.Env.Go.{Go}
use karpenter_provider_stack.Env.GoCache.{GoCache, History, set_default, flush}
use karpenter_provider_stack.Env.Sdk.{Call}
use karpenter_provider_stack.Apis.NodeClass.{
  StackitNodeClass, KubeletConfiguration, availability_zone_ids, boot_volume_size_gb,
  kubelet_configuration,
}
use karpenter_provider_stack.Apis.Core.{Quantity, InstanceType, MachineType}
use karpenter_provider_stack.Cache.Unavailable.{UnavailableOfferings}
use karpenter_provider_stack.Stackit.Client.{Client, client_list_machine_types}
use karpenter_provider_stack.Pricing.{MachineTypeSpec}
use karpenter_provider_stack.Offering
use karpenter_provider_stack.Offering.{inject_offerings}
use karpenter_provider_stack.InstanceType.Discovered.{
  discovered_capacity_cache_key, update_capacity,
}
use karpenter_provider_stack.InstanceType.Resolve.{resolve, resource_memory}

-- `share` is the option VMMemoryOverheadPercent. `hash_settings` is hashstructure.Hash of what
-- CacheKey lists, and `has_changed` the change monitor's HasChanged, from the values that it was
-- shown before, newest first.
pub record DefaultProvider : Type 0 where
  pub api : Client
  pub go : Go
  pub share : Binary
  pub region : Text
  pub instance_types : GoCache (List InstanceType)
  pub discovered_capacity : GoCache Quantity
  pub hash_settings : Text → List Text → ℕ → Option KubeletConfiguration → Text
  pub has_changed : List (List MachineType) → List MachineType → Bool

pub record State : Type 0 where
  pub machine_types : Map MachineType
  pub instance_types_cache : History (List InstanceType)
  pub discovered_capacity_cache : History Quantity
  -- what the change monitor was shown
  pub shown : List (List MachineType)
  pub offering : Offering.State

unfoldable pub new_state : State
new_state = record {
  machine_types = [];
  instance_types_cache = [];
  discovered_capacity_cache = [];
  shown = [];
  offering = record { cache = []; last_seq_num = [] };
}

abbrev pub Panics : Type 0 → Type 0
Panics A = Option A

-- lo.SliceToMap by name: a later machine type replaces an earlier one of its name.
abbrev pub by_name : List MachineType → Map MachineType
by_name ms = assign [] (map (λ (m : MachineType). (m.name, m)) ms)

abbrev pub set_memory : Option Quantity → InstanceType → InstanceType
set_memory none it = it
set_memory (some q) it = record it { capacity = insert resource_memory q it.capacity }

abbrev pub collect : InstanceType → Option (List InstanceType) → Option (List InstanceType)
collect it none = none
collect it (some its) = some (it ∷ its)

abbrev pub keep_ok :
    Panics (Result Err InstanceType) → Option (List InstanceType) → Option (List InstanceType)
keep_ok none rest = none
keep_ok (some (err e)) rest = rest
keep_ok (some (ok it)) rest = collect it rest

abbrev pub specs_of : Map MachineType → List MachineTypeSpec
specs_of ms =
    map
      (λ (e : Text × MachineType). record {
        name = e.1.name;
        vcpus = e.1.vcpus;
        ram_mib = e.1.ram;
        disk_gib = e.1.disk;
      })
      ms

abbrev pub specs_after :
    Result ClientError (Unit {0}) × State → Result ClientError (List MachineTypeSpec) × State
specs_after (err e, s) = (err e, s)
specs_after (ok x, s) = (ok (specs_of s.machine_types), s)

abbrev pub Specs : Type 0
Specs = (Result ClientError (List MachineTypeSpec) × State) × List Call

-- The specs of a catalog that is not empty, and else what a refresh gives.
abbrev pub specs_or : Map MachineType → State → List Call → Specs → Specs
specs_or [] s calls refreshed = refreshed
specs_or (e ∷ ms) s calls refreshed = ((ok (specs_of s.machine_types), s), calls)

module _ (p : DefaultProvider) where
  -- CacheKey of the resolver.
  unfoldable pub cache_key : StackitNodeClass → Text
  cache_key c =
      p.hash_settings p.region (availability_zone_ids c) (boot_volume_size_gb c)
        (kubelet_configuration c)

  module _ (now : ℕ) where
    abbrev pub with_discovered : State → StackitNodeClass → InstanceType → InstanceType
    with_discovered s c it =
        set_memory
          (p.discovered_capacity.get s.discovered_capacity_cache now
            (discovered_capacity_cache_key p.go.format it.name c))
          it

    abbrev pub got :
        State → StackitNodeClass → Option InstanceType → Panics (Result Err InstanceType)
    got s c none = none
    got s c (some it) = some (ok (with_discovered s c it))

    abbrev pub get_found :
        State → StackitNodeClass → Option MachineType → Panics (Result Err InstanceType)
    get_found s c none = some (err (client plain))
    get_found s c (some m) = got s c (resolve p.go p.share p.region m c)

    -- The unexported get.
    unfoldable pub get_type : State → StackitNodeClass → Text → Panics (Result Err InstanceType)
    get_type s c name = get_found s c (lookup name s.machine_types)

    -- lo.FilterMapToSlice over the entries that are left.
    unfoldable pub resolve_all :
        State → StackitNodeClass → Map MachineType → Option (List InstanceType)
    resolve_all s c [] = some []
    resolve_all s c ((name, m) ∷ ms) = keep_ok (get_type s c name) (resolve_all s c ms)

    abbrev pub stored :
        Text → State → Option (List InstanceType) → Panics (List InstanceType × State)
    stored key s none = none
    stored key s (some its) =
        some (
          its,
          record s { instance_types_cache = set_default now key its ∷ s.instance_types_cache },
        )

    abbrev pub cached_or :
        Option (List InstanceType) → StackitNodeClass → State → Panics (List InstanceType × State)
    cached_or (some its) c s = some (its, s)
    cached_or none c s = stored (cache_key c) s (resolve_all s c s.machine_types)

    -- The instance types of a class, without offerings.
    unfoldable pub list_types : StackitNodeClass → State → Panics (List InstanceType × State)
    list_types c s = cached_or (p.instance_types.get s.instance_types_cache now (cache_key c)) c s

    module _ (o : Offering.DefaultProvider) (u : UnavailableOfferings) where
      abbrev pub inject :
          List Text
          → Panics (List InstanceType × State)
          → Panics (Result Err (List InstanceType) × State)
      inject zones none = none
      inject zones (some (its, s)) =
          let (injected, offering) = inject_offerings o u now p.region its zones s.offering in
          some (ok injected, record s { offering = offering })

      -- The guards of List: an empty catalog, and a class without zones.
      abbrev pub list_guarded :
          Map MachineType
          → List Text
          → StackitNodeClass
          → State
          → Panics (Result Err (List InstanceType) × State)
      list_guarded [] zones c s = some (err (client plain), s)
      list_guarded (m ∷ ms) [] c s = some (err (client plain), s)
      list_guarded (m ∷ ms) (z ∷ zs) c s = inject (z ∷ zs) (list_types c s)

    -- List; no offering provider until SetPricingProvider has been called.
    unfoldable pub list :
        Option Offering.DefaultProvider
        → UnavailableOfferings
        → StackitNodeClass
        → State
        → Panics (Result Err (List InstanceType) × State)
    list none u c s = some (err (client plain), s)
    list (some o) u c s = list_guarded o u s.machine_types (availability_zone_ids c) c s

    abbrev pub or_missing : Option InstanceType → Result Err InstanceType
    or_missing none = err (client plain)
    or_missing (some it) = ok it

    abbrev pub find_named : Text → Result Err (List InstanceType) → Result Err InstanceType
    find_named name (err e) = err e
    find_named name (ok its) = or_missing (find (λ it. text_eq it.name name) its)

    abbrev pub named :
        Text
        → Panics (Result Err (List InstanceType) × State)
        → Panics (Result Err InstanceType × State)
    named name none = none
    named name (some (its, s')) = some (find_named name its, s')

    -- Get.
    unfoldable pub get :
        Option Offering.DefaultProvider
        → UnavailableOfferings
        → StackitNodeClass
        → Text
        → State
        → Panics (Result Err InstanceType × State)
    get o u c name s = named name (list o u c s)

  -- UpdateMachineTypes, from the API's answer.
  unfoldable pub updated :
      Result ClientError (List MachineType) → State → Result ClientError (Unit {0}) × State
  updated (err e) s = (err (wrapped e), s)
  updated (ok []) s = (err plain, s)
  updated (ok (m ∷ ms)) s =
      let catalog = m ∷ ms in
      (
        ok tt,
        record s {
          machine_types = by_name catalog;
          instance_types_cache =
              if p.has_changed s.shown catalog
              then flush ∷ s.instance_types_cache
              else s.instance_types_cache;
          shown = catalog ∷ s.shown;
        },
      )

  unfoldable pub update_machine_types :
      List Call → State → (Result ClientError (Unit {0}) × State) × List Call
  update_machine_types calls s =
      let (answer, calls') = client_list_machine_types p.api calls in (updated answer s, calls')

  -- MachineTypeSpecs: an empty catalog is refreshed first.
  unfoldable pub machine_type_specs : List Call → State → Specs
  machine_type_specs calls s =
      let (answer, calls') = update_machine_types calls s in
      specs_or s.machine_types s calls (specs_after answer, calls')

  -- Reset.
  unfoldable pub reset : State → State
  reset s = record s {
    machine_types = [];
    instance_types_cache = flush ∷ s.instance_types_cache;
    discovered_capacity_cache = flush ∷ s.discovered_capacity_cache;
  }
