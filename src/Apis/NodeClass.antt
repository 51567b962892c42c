-- ===== src/Apis/NodeClass.antt =====
-- StackitNodeClass (pkg/apis/v1alpha1/stackitnodeclass.go, stackitnodeclass_status.go).
use karpenter_provider_stack.Prelude.{
  ℕ, Bool, true, Option, none, some, List, [], Text, str, Map, map,
}

-- A pointer that is dereferenced with a default: lo.FromPtrOr.
abbrev pub from_ptr_or {ℓ} : {A : Type ℓ} → Option A → A → A
from_ptr_or none d = d
from_ptr_or (some a) d = a

pub record BootVolumeSourceSpec : Type 0 where
  pub id : Text
  pub source_type : Option Text

pub record BootVolumeSpec : Type 0 where
  pub source : BootVolumeSourceSpec
  pub size : ℕ
  pub performance_class : Option Text
  pub delete_on_termination : Option Bool

pub record NetworkingSpec : Type 0 where
  pub network_id : Option Text
  pub nic_ids : List Text

-- The fields that the provider itself reads or hashes.
pub record KubeletConfiguration : Type 0 where
  pub cluster_dns : List Text
  pub max_pods : Option ℕ
  pub pods_per_core : Option ℕ
  pub system_reserved : Map Text
  pub kube_reserved : Map Text
  pub eviction_hard : Option (Map Text)
  pub eviction_soft : Option (Map Text)
  pub eviction_soft_grace_period : Map ℕ
  pub eviction_max_pod_grace_period : Option ℕ
  pub cpu_cfs_quota : Option Bool

pub record StackitNodeClassSpec : Type 0 where
  pub availability_zones : List Text
  pub boot_volume : BootVolumeSpec
  pub user_data : Option Text
  pub networking : NetworkingSpec
  pub security_groups : List Text
  pub keypair_name : Option Text
  pub affinity_group : Option Text
  pub service_account_mails : List Text
  pub labels : Map Text
  pub server_name_prefix : Option Text
  pub kubelet : Option KubeletConfiguration

pub data ConditionStatus : Type 0 where
  condition_true condition_false condition_unknown : ConditionStatus

-- A condition as it is read: its status, and the generation of the spec that it was set for.
pub record Condition : Type 0 where
  pub status : ConditionStatus
  pub observed_generation : ℕ

pub record AvailabilityZone : Type 0 where
  pub id : Text

pub record StackitNodeClassStatus : Type 0 where
  pub availability_zones : List AvailabilityZone
  pub zones_ready : Condition
  pub validation_succeeded : Condition
  -- the Ready condition, which status.NewReadyConditions derives from the other two
  pub ready : Condition

pub record StackitNodeClass : Type 0 where
  pub name : Text
  pub generation : ℕ
  pub deletion_timestamp : Option ℕ
  pub annotations : Map Text
  pub finalizers : List Text
  pub spec : StackitNodeClassSpec
  pub status : StackitNodeClassStatus

abbrev pub hash_version : Text
hash_version = str "v1"

-- Hash: hashstructure.Hash is a parameter; it sees the spec without the labels.
unfoldable pub hash : (StackitNodeClassSpec → Text) → StackitNodeClass → Text
hash hash_spec in_class =
    let hashable_spec = record in_class.spec { labels = [] } in hash_spec hashable_spec

unfoldable pub kubelet_configuration : StackitNodeClass → Option KubeletConfiguration
kubelet_configuration c = c.spec.kubelet

unfoldable pub boot_volume_size_gb : StackitNodeClass → ℕ
boot_volume_size_gb c = c.spec.boot_volume.size

unfoldable pub boot_volume_source_type : StackitNodeClass → Text
boot_volume_source_type c = from_ptr_or c.spec.boot_volume.source.source_type (str "image")

unfoldable pub delete_boot_volume_on_termination : StackitNodeClass → Bool
delete_boot_volume_on_termination c = from_ptr_or c.spec.boot_volume.delete_on_termination true

unfoldable pub availability_zone_ids : StackitNodeClass → List Text
availability_zone_ids c = map (λ (z : AvailabilityZone). z.id) c.status.availability_zones
