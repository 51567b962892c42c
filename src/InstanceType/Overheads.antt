-- ===== src/InstanceType/Overheads.antt =====
-- How capacity and reserved resources grow with the machine.
use karpenter_provider_stack.Prelude.{
  ℕ, ◌*◌, ◌≤◌, ◌≡◌, ◌⊎◌, min, false, some, [], ◌∷◌, Text, text_eq, has_byte, to_lower,
  cut_byte-append, ◌++◌, arith,
}
use karpenter_provider_stack.Apis.Core.{MachineType}
use karpenter_provider_stack.InstanceType.{machine_type_family, cpu_range, kube_reserved_cpu, pods}

-- The CPU that is reserved does not shrink as the machine grows.
pub kube_reserved_cpu_mono : (v w : ℕ) → v ≤ w → kube_reserved_cpu v ≤ kube_reserved_cpu w
unfolding kube_reserved_cpu cpu_range
kube_reserved_cpu_mono v w h = ground arith

-- The CPU that is reserved is at most 6 % of the machine's.
pub kube_reserved_cpu_bound : (v : ℕ) → kube_reserved_cpu v * 100 ≤ 6 * v
unfolding kube_reserved_cpu cpu_range
kube_reserved_cpu_bound v = ground arith

-- A node never gets more pods than the kubelet's limit, nor, if pods per core are set, more than
-- those for each vCPU; and one of the two bounds is reached.
pub pods_lem :
    (m : MachineType) (max_pods : ℕ) (per_core : ℕ)
    → (pods m (some max_pods) (some per_core) ≤ max_pods)
      × ((per_core ≡ 0) × (pods m (some max_pods) (some per_core) ≡ max_pods)
          ⊎ (pods m (some max_pods) (some per_core) ≡ min (per_core * m.vcpus) max_pods))
unfolding pods
pods_lem m max_pods per_core = (ground arith, ground arith)

-- The family of a machine type is the lower-case name up to its first dot.
pub machine_type_family_lem :
    (family size : Text)
    → has_byte b'.' family ≡ false
    → text_eq family [] ≡ false
    → machine_type_family (family ++ b'.' ∷ size) ≡ to_lower family
unfolding machine_type_family
machine_type_family_lem family size d e = rw (cut_byte-append b'.' family size d, e)
