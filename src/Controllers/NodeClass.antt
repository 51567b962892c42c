-- ===== src/Controllers/NodeClass.antt =====
-- pkg/controllers/nodeclass/controller.go: availability zones, validation and readiness.
pub mod Zones
pub mod Reconcile
pub mod Outcomes
use karpenter_provider_stack.Prelude.{
  ℕ, ◌*◌, Bool, true, false, not, ◌&&◌, ◌||◌, Option, none, some, List, [], ◌∷◌, map, Text, str,
  text_eq, any, length, ltb, Map, if◌then◌else◌,
}
use karpenter_provider_stack.Errors.{
  ClientError, Err, client, plain, wrapped, Result, ok, err, is_kube_not_found,
}
use karpenter_provider_stack.Env.GoCache.{GoCache, History, set_default}
use karpenter_provider_stack.Env.Conditions.{Conditions}
use karpenter_provider_stack.Env.Sdk.{Call}
use karpenter_provider_stack.Apis.NodeClass.{
  StackitNodeClass, StackitNodeClassStatus, AvailabilityZone, Condition, ConditionStatus,
  condition_true, condition_false, condition_unknown,
}
use karpenter_provider_stack.Stackit.Classify.{is_retryable}
use karpenter_provider_stack.Stackit.Client.{Client, client_list_availability_zones}
use karpenter_provider_stack.Utils.Labels.{validate_labels}
use karpenter_provider_stack.Instance.Payload.{is_set, is_empty}

abbrev pub resync_period : ℕ
resync_period = 5 * 60

abbrev pub availability_zones_cache_key : Text
availability_zones_cache_key = str "availability-zones"

pub record State : Type 0 where
  pub calls : List Call
  pub validation_cache : History (List Text)

pub record Controller : Type 0 where
  pub api : Client
  pub zones : GoCache (List Text)
  pub conditions : Conditions

abbrev store_zones :
    ℕ → Result ClientError (List Text) → State → Result ClientError (List Text) × State
store_zones now (err e) s = (err e, s)
store_zones now (ok zones) s = (
  ok zones,
  record s {
    validation_cache = set_default now availability_zones_cache_key zones ∷ s.validation_cache;
  },
)

unfoldable pub list_availability_zones :
    Controller → ℕ → State → Result ClientError (List Text) × State
list_availability_zones c now s =
    elim (c.zones.get s.validation_cache now availability_zones_cache_key) [
      | some zones ↦ (ok zones, s)
      | none ↦
          let (answer, calls) = client_list_availability_zones c.api s.calls in
          store_zones now answer (record s { calls = calls })
    ]

-- SetTrue, SetFalse and SetUnknownWithReason, for the class's generation.
abbrev pub set_condition : ConditionStatus → StackitNodeClass → Condition
set_condition status c = record { status = status; observed_generation = c.generation }

-- Setting a condition recomputes the Ready condition.
abbrev pub recompute :
    Conditions → StackitNodeClass → StackitNodeClassStatus → StackitNodeClassStatus
recompute k c status = record status {
  ready = k.root c.generation status.zones_ready status.validation_succeeded;
}

abbrev pub set_zones :
    Conditions → List AvailabilityZone → ConditionStatus → StackitNodeClass → StackitNodeClass
set_zones k zones status c = record c {
  status =
      recompute k c
        (record c.status { availability_zones = zones; zones_ready = set_condition status c });
}

-- The loop over the requested zones: the resolved ones and the unknown ones.
unfoldable pub split_zones : List Text → List Text → List AvailabilityZone × List Text
split_zones known [] = ([], [])
split_zones known (id ∷ ids) =
    let (resolved, unknown) = split_zones known ids in
    if not (any (λ z. text_eq z id) known)
    then (resolved, id ∷ unknown)
    else (record { id = id } ∷ resolved, unknown)

-- resolveAvailabilityZones, from what the listing gave; `none` is nil.
unfoldable pub resolve_with :
    Conditions
    → Result ClientError (List Text)
    → StackitNodeClass
    → Option ClientError × StackitNodeClass
resolve_with k (err e) c = (
  some (wrapped e),
  record c {
    status = recompute k c (record c.status { zones_ready = set_condition condition_unknown c });
  },
)
resolve_with k (ok []) c = (some plain, set_zones k [] condition_false c)
resolve_with k (ok (z ∷ zs)) c =
    let available = z ∷ zs in
    let requested =
      if is_empty c.spec.availability_zones then available else c.spec.availability_zones in
    let (resolved, unknown) = split_zones available requested in
    if not (is_empty unknown)
    then (some plain, set_zones k [] condition_false c)
    else (none, set_zones k resolved condition_true c)

unfoldable pub resolve_availability_zones :
    Controller → ℕ → StackitNodeClass → State → (Option ClientError × StackitNodeClass) × State
resolve_availability_zones ctl now c s =
    let (listed, s') = list_availability_zones ctl now s in
    (resolve_with ctl.conditions listed c, s')

unfoldable pub validate_networking : StackitNodeClass → Option ClientError
validate_networking c =
    let spec = c.spec.networking in
    let has_network = is_set spec.network_id in
    let has_nics = not (is_empty spec.nic_ids) in
    if has_network && has_nics
    then some plain
    else if not has_network && not has_nics
    then some plain
    else if has_nics && ltb 1 (length spec.nic_ids)
    then some plain
    else none

abbrev pub set_validation : Conditions → ConditionStatus → StackitNodeClass → StackitNodeClass
set_validation k status c = record c {
  status = recompute k c (record c.status { validation_succeeded = set_condition status c });
}

-- The condition that the errors of the two checks give: the labels' error comes first.
abbrev pub validated :
    Conditions
    → Option ClientError
    → Option ClientError
    → StackitNodeClass
    → Option ClientError × StackitNodeClass
validated k (some e) net_err c = (some e, set_validation k condition_false c)
validated k none (some e) c = (some e, set_validation k condition_false c)
validated k none none c = (none, set_validation k condition_true c)

unfoldable pub validate : Conditions → StackitNodeClass → Option ClientError × StackitNodeClass
validate k c = validated k (validate_labels c.spec.labels) (validate_networking c) c

-- What a reconcile returns: how long to wait for the next, or an error.
pub data Outcome : Type 0 where
  done : Outcome
  requeue_after : ℕ → Outcome
  fail : Err → Outcome

-- client.IgnoreNotFound of a patch's error.
abbrev pub ignore_not_found : Err → Outcome
ignore_not_found e = if is_kube_not_found e then done else fail e

-- The last loop of Reconcile: the first error that is worth retrying.
abbrev pub first_retryable : List (Option ClientError) → Option ClientError
first_retryable [] = none
first_retryable (none ∷ es) = first_retryable es
first_retryable (some e ∷ es) = if is_retryable e then some e else first_retryable es

-- The Kubernetes client: equality.Semantic.DeepEqual, and the answer to a patch of the status.
pub record Kube : Type 0 where
  pub same : StackitNodeClass → StackitNodeClass → Bool
  pub patch_status : StackitNodeClass → Option Err

-- The answer to the patch, if there is something to patch.
abbrev pub patched : Kube → StackitNodeClass → StackitNodeClass → Option Err
patched kube stored c = if kube.same stored c then none else kube.patch_status c

abbrev pub result : Option Err → Option ClientError → Outcome
result (some e) retryable = ignore_not_found e
result none (some e) = fail (client e)
result none none = requeue_after resync_period

-- Reconcile after the two steps: the patch, and the choice of the result.
unfoldable pub finish :
    Kube → StackitNodeClass → StackitNodeClass → Option ClientError → Option ClientError → Outcome
finish kube stored c zone_err validation_err =
    result (patched kube stored c) (first_retryable (zone_err ∷ validation_err ∷ []))

-- By the deletion timestamp.
abbrev pub reconcile_at :
    Kube
    → Controller
    → ℕ
    → StackitNodeClass
    → State
    → Option ℕ
    → (Outcome × StackitNodeClass) × State
reconcile_at kube ctl now c s (some t) = ((done, c), s)
reconcile_at kube ctl now c s none =
    let ((zone_err, c1), s') = resolve_availability_zones ctl now c s in
    let (validation_err, c2) = validate ctl.conditions c1 in
    ((finish kube c c2 zone_err validation_err, c2), s')

-- Reconcile: its outcome, the class with its new status, and the state.
unfoldable pub reconcile :
    Kube → Controller → ℕ → StackitNodeClass → State → (Outcome × StackitNodeClass) × State
reconcile kube ctl now c s = reconcile_at kube ctl now c s c.deletion_timestamp
