-- ===== src/InstanceType/Resolve.antt =====
-- pkg/providers/instancetype/types.go: a machine type and a class's settings make an instance type.
-- `none` stands for a panic of MustParse or mustParsePercentage. The memory overhead and the
-- percentages of eviction thresholds are computed in float64, with its rounding.
use karpenter_provider_stack.Prelude.{
  ℕ, ◌-◌, ◌*◌, ◌/◌, ◌^◌, Bool, false, Option, none, some, List, [], ◌∷◌, map, Text, str, text_eq,
  any, Map, lookup, assign, ltb, ◌==◌, if◌then◌else◌,
}
use karpenter_provider_stack.Prelude.Binary.{Binary, float_of, mul, div, ceil}
use karpenter_provider_stack.Env.Go.{Go}
use karpenter_provider_stack.Apis.LabelKeys.{
  label_topology_zone, label_topology_region, label_capacity_type, capacity_type_on_demand,
  label_instance_type, label_arch, architecture_amd64, label_os, os_linux, label_instance_cpu,
  label_instance_memory, label_instance_family, label_instance_disk,
}
use karpenter_provider_stack.Apis.NodeClass.{
  StackitNodeClass, KubeletConfiguration, availability_zone_ids, boot_volume_size_gb,
  kubelet_configuration, from_ptr_or,
}
use karpenter_provider_stack.Apis.Core.{
  Requirement, Requirements, Quantity, ResourceList, InstanceType, MachineType,
}
use karpenter_provider_stack.Utils.Zone.{sanitize_zone, trim_left, trim_right}
use karpenter_provider_stack.InstanceType.{
  machine_type_family, cpu, pods, ephemeral_storage, kube_reserved_memory, kube_reserved_cpu,
}

infixl 5 ◌>>=◌
abbrev pub ◌>>=◌ : {A B : Type 0} → Option A → (A → Option B) → Option B
none >>= f = none
some a >>= f = f a

abbrev pub mebibyte : Quantity
mebibyte = 1024 * 1024 * 1000

abbrev pub resource_cpu : Text
resource_cpu = str "cpu"

abbrev pub resource_memory : Text
resource_memory = str "memory"

abbrev pub resource_pods : Text
resource_pods = str "pods"

abbrev pub resource_ephemeral_storage : Text
resource_ephemeral_storage = str "ephemeral-storage"

-- A requirement holds a set of values.
unfoldable pub distinct : List Text → List Text
distinct [] = []
distinct (x ∷ xs) = let rest = distinct xs in if any (λ y. text_eq y x) rest then rest else x ∷ rest

abbrev one : Text → Text → Requirement
one key value = record { key = key; values = value ∷ [] }

unfoldable pub compute_requirements : Go → MachineType → Text → List Text → Requirements
unfolding distinct
compute_requirements go m region zones =
    one label_instance_type m.name
    ∷ record { key = label_topology_zone; values = distinct (map sanitize_zone zones) }
    ∷ one label_topology_region region
    ∷ one label_arch architecture_amd64
    ∷ one label_os os_linux
    ∷ one label_capacity_type capacity_type_on_demand
    ∷ one label_instance_cpu (go.format m.vcpus)
    ∷ one label_instance_memory (go.format m.ram)
    ∷ one label_instance_family (machine_type_family m.name)
    ∷ one label_instance_disk (go.format m.disk)
    ∷ []

-- The overhead in MiB, rounded up, of the memory in MiB.
unfoldable pub overhead_mib : ℕ → Binary → ℕ
unfolding ceil div mul
overhead_mib ram share = ceil (div (div (mul (float_of (ram * 1024 * 1024)) share) 1024) 1024)

-- Options.Validate keeps the share below the whole, so that the subtraction does not go below zero.
unfoldable pub memory : MachineType → Binary → Quantity
unfolding overhead_mib
memory m share = (m.ram - overhead_mib m.ram share) * mebibyte

unfoldable pub compute_capacity : MachineType → Binary → ℕ → Option ℕ → Option ℕ → ResourceList
compute_capacity m share boot_volume_gb max_pods pods_per_core =
    (resource_cpu, cpu m)
    ∷ (resource_memory, memory m share)
    ∷ (resource_pods, pods m max_pods pods_per_core * 1000)
    ∷ (resource_ephemeral_storage, ephemeral_storage boot_volume_gb)
    ∷ []

-- lo.MapEntries with resource.MustParse.
unfoldable pub parse_quantities : Go → Map Text → Option ResourceList
parse_quantities go [] = some []
parse_quantities go ((name, text) ∷ m) = do
  quantity ← go.parse_quantity text
  rest ← parse_quantities go m
  some ((name, quantity) ∷ rest)

unfoldable pub kube_reserved_resources : Go → Quantity → ℕ → Map Text → Option ResourceList
kube_reserved_resources go cpus pod_count kube_reserved = do
  configured ← parse_quantities go kube_reserved
  some (
      assign
        ((resource_memory, kube_reserved_memory pod_count * mebibyte)
          ∷ (resource_ephemeral_storage, 1024 * mebibyte)
          ∷ (resource_cpu, kube_reserved_cpu cpus)
          ∷ [])
        configured)

abbrev pub memory_available : Text
memory_available = str "memory.available"

-- strings.HasSuffix(s, "%").
abbrev pub is_percentage : Text → Bool
is_percentage [] = false
is_percentage (c ∷ []) = c == b'%'
is_percentage (c ∷ d ∷ s) = is_percentage (d ∷ s)

abbrev zero_percent : Binary
zero_percent = record { mantissa = 0; scale = 0 }

-- 100% disables the threshold.
unfoldable pub must_parse_percentage : Go → Text → Option Binary
must_parse_percentage go v = do
  p ← go.parse_percentage (trim_right (λ c. c == b'%') (trim_left (λ c. c == b'%') v))
  some (if p.mantissa == 100 * 2 ^ p.scale then zero_percent else p)

unfoldable pub compute_eviction_signal : Go → Quantity → Text → Option Quantity
unfolding must_parse_percentage ceil div mul
compute_eviction_signal go capacity signal =
    if is_percentage signal
    then (do
      p ← must_parse_percentage go signal
      some (ceil (mul (div (float_of (capacity / 1000)) 100) p) * 1000))
    else go.parse_quantity signal

-- What one of the two maps sets for memory.available, if it does.
unfoldable pub eviction_signal : Go → Quantity → Option (Map Text) → Option (Option Quantity)
eviction_signal go capacity none = some none
eviction_signal go capacity (some m) = elim (lookup memory_available m) [
  | none ↦ some none
  | some v ↦ compute_eviction_signal go capacity v >>= λ q. some (some q)
]

-- resources.MaxResources of what the two maps set.
abbrev pub max_memory : Option Quantity → Option Quantity → ResourceList
max_memory none none = []
max_memory (some a) none = (resource_memory, a) ∷ []
max_memory none (some b) = (resource_memory, b) ∷ []
max_memory (some a) (some b) = (resource_memory, if ltb a b then b else a) ∷ []

unfoldable pub eviction_threshold :
    Go → Quantity → Option (Map Text) → Option (Map Text) → Option ResourceList
eviction_threshold go capacity hard soft = do
  h ← eviction_signal go capacity hard
  s ← eviction_signal go capacity soft
  some (assign ((resource_memory, 100 * mebibyte) ∷ []) (max_memory h s))

unfoldable pub new_instance_type :
    Go → Binary → MachineType → Text → List Text → ℕ → KubeletConfiguration → Option InstanceType
new_instance_type go share m region zones boot_volume_gb kc = do
  reserved ←
      kube_reserved_resources go (cpu m) (pods m kc.max_pods kc.pods_per_core) kc.kube_reserved
  system ← parse_quantities go kc.system_reserved
  threshold ← eviction_threshold go (memory m share) kc.eviction_hard kc.eviction_soft
  some (record {
    name = m.name;
    requirements = compute_requirements go m region zones;
    offerings = [];
    capacity = compute_capacity m share boot_volume_gb kc.max_pods kc.pods_per_core;
    overhead = record {
      kube_reserved = reserved;
      system_reserved = system;
      eviction_threshold = threshold;
    };
  })

-- &v1alpha1.KubeletConfiguration{}
abbrev pub empty_kubelet : KubeletConfiguration
empty_kubelet = record {
  cluster_dns = [];
  max_pods = none;
  pods_per_core = none;
  system_reserved = [];
  kube_reserved = [];
  eviction_hard = none;
  eviction_soft = none;
  eviction_soft_grace_period = [];
  eviction_max_pod_grace_period = none;
  cpu_cfs_quota = none;
}

unfoldable pub resolve : Go → Binary → Text → MachineType → StackitNodeClass → Option InstanceType
resolve go share region m c =
    new_instance_type go share m region (availability_zone_ids c) (boot_volume_size_gb c)
      (from_ptr_or (kubelet_configuration c) empty_kubelet)
