-- ===== src/CloudProvider.antt =====
-- pkg/cloudprovider/cloudprovider.go: Karpenter's CloudProvider interface for STACKIT. Events and
-- log lines are left out.
pub mod Drift
pub mod Claims
pub mod Launchable
pub mod Fresh
pub mod Terminating
use karpenter_provider_stack.Prelude.{
  ℕ, ◌*◌, str, Bool, true, false, not, Option, none, some, List, [], ◌∷◌, Text, text_eq, Map,
  lookup, insert, assign, select, find, if◌then◌else◌, ◌==◌,
}
use karpenter_provider_stack.Errors.{
  ClientError, Err, client, plain, wrap, kube_not_found, insufficient_capacity,
  node_class_not_ready, create_error, is_kube_not_found, Result, ok, err, ◌>>=◌,
}
use karpenter_provider_stack.Env.Sdk.{Call}
use karpenter_provider_stack.Apis.LabelKeys.{
  annotation_hash, annotation_hash_version, label_key_node_pool, label_topology_zone,
  label_topology_region, label_capacity_type, capacity_type_on_demand,
}
use karpenter_provider_stack.Apis.NodeClass.{
  StackitNodeClass, StackitNodeClassSpec, ConditionStatus, condition_true, condition_false,
  condition_unknown, hash, hash_version,
}
use karpenter_provider_stack.Apis.Core.{
  Requirements, ResourceList, InstanceType, NodeClaim, NodePool,
}
use karpenter_provider_stack.Utils.ProviderId.{parse_instance_id}
use karpenter_provider_stack.Utils.Labels.{managed_labels}
use karpenter_provider_stack.Instance
use karpenter_provider_stack.Instance.{Instance}
use karpenter_provider_stack.Instance.Provider
use karpenter_provider_stack.Instance.Provider.{State, Method, DefaultProvider}
use karpenter_provider_stack.CloudProvider.Drift.{DriftReason, no_drift, is_node_class_drifted}

-- `get_node_class` and `get_node_pool` are reads of the Kubernetes API; `list_types` is
-- the instance type provider's List, which may make requests.
pub record CloudProvider : Type 0 where
  pub region : Text
  pub cluster_name : Text
  pub instances : DefaultProvider
  pub list_types : StackitNodeClass → List Call → Result Err (List InstanceType) × List Call
  pub allocatable : InstanceType → ResourceList
  pub get_node_class : Text → Result Err StackitNodeClass
  pub get_node_pool : Text → Result Err NodePool
  pub hash_spec : StackitNodeClassSpec → Text

-- A node condition for which Karpenter replaces a node, after a time in seconds.
pub record RepairPolicy : Type 0 where
  pub condition_type : Text
  pub condition_status : ConditionStatus
  pub toleration_duration : ℕ

abbrev pub repair_after_half_an_hour : Text → ConditionStatus → RepairPolicy
repair_after_half_an_hour type status = record {
  condition_type = type;
  condition_status = status;
  toleration_duration = 30 * 60;
}

unfoldable pub repair_policies : List RepairPolicy
repair_policies =
    repair_after_half_an_hour (str "Ready") condition_false
    ∷ repair_after_half_an_hour (str "Ready") condition_unknown
    ∷ repair_after_half_an_hour (str "StorageReady") condition_false
    ∷ repair_after_half_an_hour (str "NetworkingReady") condition_false
    ∷ repair_after_half_an_hour (str "KernelReady") condition_false
    ∷ repair_after_half_an_hour (str "ContainerRuntimeReady") condition_false
    ∷ []

-- Requirements that resolve to one value, as labels.
unfoldable pub single_labels : Requirements → Map Text
single_labels [] = []
single_labels (r ∷ rs) =
    let rest = single_labels rs in
    elim r.values [ [] ↦ rest | v ∷ vs ↦ elim vs [ [] ↦ (insert r.key v rest) | w ∷ ws ↦ rest ] ]

unfoldable pub nonzero : ResourceList → ResourceList
nonzero = select (λ entry. not (entry.1 == 0))

-- client.IgnoreNotFound of a failed resolution: no type, or the error.
abbrev pub ignore_not_found : Err → Result Err (Option InstanceType)
ignore_not_found e = if is_kube_not_found e then ok none else err e

-- A class that is being deleted counts as not found.
abbrev pub live : StackitNodeClass → Result Err StackitNodeClass
live c = elim c.deletion_timestamp [ none ↦ ok c | some t ↦ err kube_not_found ]

module _ (cp : CloudProvider) where
  -- resolveNodeClassFromNodeClaim and resolveNodeClassFromNodePool, from the reference.
  unfoldable pub resolve_node_class : Option Text → Result Err StackitNodeClass
  resolve_node_class none = err kube_not_found
  resolve_node_class (some name) = cp.get_node_class name >>= live

  unfoldable pub instance_to_node_claim : Instance → Option InstanceType → NodeClaim
  instance_to_node_claim inst instance_type =
      let labels : Map Text = elim instance_type [
        | none ↦ []
        | some t ↦ (single_labels t.requirements)
      ] in
      record {
        name = [];
        labels = insert label_capacity_type capacity_type_on_demand (
            insert label_topology_region cp.region
              (insert label_topology_zone (Instance.zone inst) labels));
        annotations = [];
        creation_timestamp = inst.created_at;
        deletion_timestamp = none;
        node_class_ref = none;
        requirements = [];
        requests = [];
        provider_id = Instance.provider_id inst;
        capacity = elim instance_type [ none ↦ [] | some t ↦ (nonzero t.capacity) ];
        allocatable = elim instance_type [ none ↦ [] | some t ↦ (nonzero (cp.allocatable t)) ];
        drifted_condition = false;
      }

  abbrev pub ready_at : ConditionStatus → Bool → Option Err
  ready_at condition_false current = some (node_class_not_ready (client plain))
  ready_at condition_unknown current = some (create_error (client plain))
  ready_at condition_true false = some (node_class_not_ready (client plain))
  ready_at condition_true true = none

  -- The guards on the class's Ready condition; `none` lets the launch go on.
  unfoldable pub readiness : StackitNodeClass → Option Err
  readiness c =
      let ready = c.status.ready in
      ready_at ready.status (ready.observed_generation == c.generation)

  unfoldable pub created : StackitNodeClass → List InstanceType → Instance → NodeClaim
  created c instance_types inst =
      let instance_type = find (λ t. text_eq t.name inst.machine_type) instance_types in
      let claim = instance_to_node_claim inst instance_type in
      record claim {
        annotations =
            assign claim.annotations (
              (annotation_hash, hash cp.hash_spec c)
              ∷ (annotation_hash_version, hash_version)
              ∷ []);
      }

  unfoldable pub resolve_node_pool : Instance → Result Err NodePool
  resolve_node_pool inst = elim (lookup label_key_node_pool inst.labels) [
    | none ↦ err kube_not_found
    | some name ↦ cp.get_node_pool name
  ]

module _ (cp : CloudProvider) (now : ℕ) where
  abbrev pub hydrate :
      StackitNodeClass
      → List InstanceType
      → Result Err Instance × State
      → Result Err NodeClaim × State
  hydrate c instance_types (err e, s) = (err (wrap e), s)
  hydrate c instance_types (ok inst, s) = (ok (created cp c instance_types inst), s)

  abbrev pub launch_with :
      StackitNodeClass → NodeClaim → Result Err (List InstanceType) → Method NodeClaim
  launch_with c node_claim (err e) s = (err (create_error (wrap e)), s)
  launch_with c node_claim (ok instance_types) s = hydrate c instance_types (
      Provider.create cp.instances now c node_claim (managed_labels c node_claim cp.cluster_name)
        instance_types s)

  -- Create, once the readiness cp of the class is known.
  abbrev pub create_for : StackitNodeClass → NodeClaim → Option Err → Method NodeClaim
  create_for c node_claim (some e) s = (err e, s)
  create_for c node_claim none s =
      let (types, calls) = cp.list_types c s.calls in
      launch_with c node_claim types (record s { calls = calls })

  abbrev pub create_with : NodeClaim → Result Err StackitNodeClass → Method NodeClaim
  create_with node_claim (err e) s =
      (err (if is_kube_not_found e then insufficient_capacity (wrap e) else wrap e), s)
  create_with node_claim (ok c) s = create_for c node_claim (readiness cp c) s

  unfoldable pub create : NodeClaim → Method NodeClaim
  create node_claim = create_with node_claim (resolve_node_class cp node_claim.node_class_ref)

  -- GetInstanceTypes.
  abbrev pub types_of : Result Err StackitNodeClass → Method (List InstanceType)
  types_of (err e) s = (err (wrap e), s)
  types_of (ok c) s =
      let (types, calls) = cp.list_types c s.calls in (types, record s { calls = calls })

  unfoldable pub get_instance_types : NodePool → Method (List InstanceType)
  get_instance_types pool = types_of (resolve_node_class cp pool.node_class_ref)

  abbrev pub type_of : Instance → Result Err (List InstanceType) → Result Err (Option InstanceType)
  type_of inst (err e) = ignore_not_found (wrap e)
  type_of inst (ok ts) = ok (find (λ t. text_eq t.name inst.machine_type) ts)

  abbrev pub type_in : Instance → Result Err NodePool → Method (Option InstanceType)
  type_in inst (err e) s = (ignore_not_found (wrap e), s)
  type_in inst (ok pool) s = let (types, s') = get_instance_types pool s in (type_of inst types, s')

  unfoldable pub resolve_instance_type : Instance → Method (Option InstanceType)
  resolve_instance_type inst = type_in inst (resolve_node_pool cp inst)

  abbrev pub claim_of :
      Instance → Result Err (Option InstanceType) × State → Result Err NodeClaim × State
  claim_of inst (err e, s) = (err (wrap e), s)
  claim_of inst (ok t, s) = (ok (instance_to_node_claim cp inst t), s)

  abbrev claim_found : Result Err Instance × State → Result Err NodeClaim × State
  claim_found (err e, s) = (err e, s)
  claim_found (ok inst, s) = claim_of inst (resolve_instance_type inst s)

  unfoldable pub get : Text → Method NodeClaim
  get provider_id s = elim (parse_instance_id provider_id) [
    | err e ↦ (err (wrap (client e)), s)
    | ok id ↦ claim_found (Provider.get cp.instances now false id s)
  ]

  abbrev pub prepend :
      Result Err NodeClaim → Result Err (List NodeClaim) → Result Err (List NodeClaim)
  prepend (err e) rest = err e
  prepend (ok claim) (err e) = err e
  prepend (ok claim) (ok claims) = ok (claim ∷ claims)

  abbrev pub state_after : Result Err NodeClaim → State → State → State
  state_after (err e) first rest = first
  state_after (ok claim) first rest = rest

  -- The loop of List; the first error ends it.
  unfoldable pub claims_of : List Instance → Method (List NodeClaim)
  claims_of [] s = (ok [], s)
  claims_of (inst ∷ is) s =
      let (first, s') = claim_of inst (resolve_instance_type inst s) in
      let (rest, s'') = claims_of is s' in (prepend first rest, state_after first s' s'')

  abbrev pub listed : Result Err (List Instance) × State → Result Err (List NodeClaim) × State
  listed (err e, s) = (err (wrap e), s)
  listed (ok is, s) = claims_of is s

  unfoldable pub list : Method (List NodeClaim)
  list s = listed (Provider.list cp.instances now s)

  abbrev pub delete_parsed : Result ClientError Text → State → Option Err × State
  delete_parsed (err e) s = (some (wrap (client e)), s)
  delete_parsed (ok id) s = Provider.delete_server cp.instances now id s

  unfoldable pub delete : NodeClaim → State → Option Err × State
  delete node_claim s = delete_parsed (parse_instance_id node_claim.provider_id) s

  abbrev pub drift_against : NodeClaim → Result Err StackitNodeClass → Method DriftReason
  drift_against node_claim (err e) s =
      (if is_kube_not_found e then ok no_drift else err (wrap e), s)
  drift_against node_claim (ok c) s =
      let (reason, s') = is_node_class_drifted cp.instances now node_claim c s in (ok reason, s')

  abbrev pub drift_by_ref : NodeClaim → Option Text → Method DriftReason
  drift_by_ref node_claim none s = (ok no_drift, s)
  drift_by_ref node_claim (some name) s =
      drift_against node_claim (resolve_node_class cp (some name)) s

  abbrev pub drift_in : NodeClaim → Result Err NodePool → Method DriftReason
  drift_in node_claim (err e) s = (if is_kube_not_found e then ok no_drift else err e, s)
  drift_in node_claim (ok pool) s = drift_by_ref node_claim pool.node_class_ref s

  abbrev pub drift_by_pool : NodeClaim → Option Text → Method DriftReason
  drift_by_pool node_claim none s = (ok no_drift, s)
  drift_by_pool node_claim (some name) s = drift_in node_claim (cp.get_node_pool name) s

  unfoldable pub is_drifted : NodeClaim → Method DriftReason
  is_drifted node_claim s =
      drift_by_pool node_claim (lookup label_key_node_pool node_claim.labels) s
