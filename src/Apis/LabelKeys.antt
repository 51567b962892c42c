-- ===== src/Apis/LabelKeys.antt =====
-- Label and annotation keys (pkg/apis/v1alpha1/labels.go, pkg/apis/apis.go), and the keys of
-- Kubernetes and Karpenter that the program names, by their published values.
use karpenter_provider_stack.Prelude.{Bool, List, [], ◌∷◌, ◌++◌, Text, str, any, text_eq}

-- apis.Group
abbrev pub group : Text
group = str "karpenter.k8s.stackit"

abbrev pub label_node_class : Text
label_node_class = group ++ str "/nodeclass"

abbrev pub annotation_hash : Text
annotation_hash = group ++ str "/stackitnodeclass-hash"

abbrev pub annotation_hash_version : Text
annotation_hash_version = group ++ str "/stackitnodeclass-hash-version"

abbrev pub termination_finalizer : Text
termination_finalizer = group ++ str "/termination"

abbrev pub label_key_managed_by : Text
label_key_managed_by = str "karpenter.sh/managed-by"

-- karpv1.NodePoolLabelKey
abbrev pub label_key_node_pool : Text
label_key_node_pool = str "karpenter.sh/nodepool"

abbrev pub label_key_node_claim : Text
label_key_node_claim = str "karpenter.sh/nodeclaim"

abbrev pub label_key_node_class : Text
label_key_node_class = label_node_class

-- corev1.LabelTopologyZone, corev1.LabelTopologyRegion, karpv1.CapacityTypeLabelKey
abbrev pub label_topology_zone : Text
label_topology_zone = str "topology.kubernetes.io/zone"

abbrev pub label_topology_region : Text
label_topology_region = str "topology.kubernetes.io/region"

abbrev pub label_capacity_type : Text
label_capacity_type = str "karpenter.sh/capacity-type"

abbrev pub capacity_type_on_demand : Text
capacity_type_on_demand = str "on-demand"

-- corev1.LabelInstanceTypeStable
abbrev pub label_instance_type : Text
label_instance_type = str "node.kubernetes.io/instance-type"

-- corev1.LabelArchStable, karpv1.ArchitectureAmd64, corev1.LabelOSStable, corev1.Linux
abbrev pub label_arch : Text
label_arch = str "kubernetes.io/arch"

abbrev pub architecture_amd64 : Text
architecture_amd64 = str "amd64"

abbrev pub label_os : Text
label_os = str "kubernetes.io/os"

abbrev pub os_linux : Text
os_linux = str "linux"

-- The well-known labels of STACKIT.
abbrev pub label_instance_cpu : Text
label_instance_cpu = group ++ str "/instance-cpu"

abbrev pub label_instance_memory : Text
label_instance_memory = group ++ str "/instance-memory"

abbrev pub label_instance_family : Text
label_instance_family = group ++ str "/instance-family"

abbrev pub label_instance_disk : Text
label_instance_disk = group ++ str "/instance-disk"

unfoldable pub managed_label_keys : List Text
managed_label_keys =
    label_key_managed_by ∷ label_key_node_pool ∷ label_key_node_claim ∷ label_key_node_class ∷ []

-- `reserved.Has(key)`
unfoldable pub is_reserved : Text → Bool
is_reserved key = any (λ k. text_eq k key) managed_label_keys
