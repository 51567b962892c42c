-- ===== src/InstanceType.antt =====
-- pkg/providers/instancetype/types.go: what a machine type offers. Quantities are in thousandths, so
-- that a vCPU is 1000 and a byte is 1000.
pub mod Catalog
pub mod Resolve
pub mod Overheads
pub mod Discovered
use karpenter_provider_stack.Prelude.{
  ℕ, ◌+◌, ◌-◌, ◌*◌, ◌/◌, ◌^◌, min, Bool, true, false, ◌||◌, Option, none, some, List, [], ◌∷◌, Text,
  str, text_eq, cut_byte, to_lower, ltb, if◌then◌else◌,
}
use karpenter_provider_stack.Apis.NodeClass.{from_ptr_or}
use karpenter_provider_stack.Apis.Core.{MachineType, Quantity}

abbrev pub default_max_pods : ℕ
default_max_pods = 110

abbrev pub os_reserved_storage_gb : ℕ
os_reserved_storage_gb = 4

abbrev pub family_unknown : Text
family_unknown = str "unknown"

abbrev family_of : Option (Text × Text) → Text
family_of none = family_unknown
family_of (some (prefix, rest)) = if text_eq prefix [] then family_unknown else to_lower prefix

-- MachineTypeFamily.
unfoldable pub machine_type_family : Text → Text
machine_type_family name = family_of (cut_byte b'.' name)

unfoldable pub cpu : MachineType → Quantity
cpu m = m.vcpus * 1000

-- The usable gigabytes of the boot volume.
unfoldable pub ephemeral_storage : ℕ → Quantity
ephemeral_storage boot_volume_gb =
    let usable = boot_volume_gb - os_reserved_storage_gb in
    (if ltb usable 1 then 1 else usable) * 1000000000 * 1000

-- The number of pods.
unfoldable pub pods : MachineType → Option ℕ → Option ℕ → ℕ
pods m max_pods pods_per_core =
    let count = from_ptr_or max_pods default_max_pods in
    let per_core = from_ptr_or pods_per_core 0 in
    if ltb 0 per_core then min (per_core * m.vcpus) count else count

-- The memory that kubeReservedResources keeps back, in MiB.
unfoldable pub kube_reserved_memory : ℕ → ℕ
kube_reserved_memory pods = 11 * pods + 255

-- A turn of the loop over the ranges; a share is in parts of ten thousand. On whole vCPUs the
-- products of the source's floating-point shares round to these.
unfoldable pub cpu_range : ℕ → ℕ → ℕ → ℕ → ℕ
cpu_range first last share cpu_milli =
    let r = if ltb cpu_milli last then cpu_milli - first else last - first in
    if ltb cpu_milli first then 0 else r * share / 10000

-- The CPU that kubeReservedResources keeps back, in thousandths.
unfoldable pub kube_reserved_cpu : ℕ → ℕ
kube_reserved_cpu cpu_milli =
    cpu_range 0 1000 600 cpu_milli
    + cpu_range 1000 2000 100 cpu_milli
    + cpu_range 2000 4000 50 cpu_milli
    + cpu_range 4000 (2 ^ 31) 25 cpu_milli
