-- ===== src/Controllers/NodeClass/Outcomes.antt =====
-- What a whole reconcile of a class leaves and returns.
use karpenter_provider_stack.Prelude.{
  ℕ, ◌≡◌, ◌⊎◌, inl, inr, refl, sym, subst, Bool, true, false, Bool-cases, Option, none, some, List,
  [], ◌∷◌, Text, Map, not, ◌&&◌, ltb, length, if◌then◌else◌,
}
use karpenter_provider_stack.Errors.{ClientError, Err, plain, client, Result, ok, err}
use karpenter_provider_stack.Env.Conditions.{Conditions}
use karpenter_provider_stack.Apis.NodeClass.{StackitNodeClass, StackitNodeClassStatus}
use karpenter_provider_stack.Stackit.Classify.{is_retryable, as_api_error}
use karpenter_provider_stack.Utils.Labels.{LabelProblem, problems_of, sorted_keys, validate_labels}
use karpenter_provider_stack.Instance.Payload.{is_empty, is_set}
use karpenter_provider_stack.Controllers.NodeClass.{
  ignore_not_found, Kube, Controller, State, Outcome, requeue_after, fail, resync_period,
  list_availability_zones, resolve_with, resolve_availability_zones, split_zones, validate,
  validated, validate_networking, patched, result, first_retryable, finish, reconcile_at, reconcile,
}

-- The two steps' parts of the status are independent: neither step stops the other.
abbrev pub Recorded : Conditions → StackitNodeClass → StackitNodeClass → StackitNodeClass → Type 0
Recorded k c zoned left =
    (left.status.zones_ready ≡ zoned.status.zones_ready)
    × (left.status.availability_zones ≡ zoned.status.availability_zones)
    × (left.status.validation_succeeded ≡ (validate k c).1.status.validation_succeeded)
    × (left.spec ≡ c.spec)

abbrev pub with_status : StackitNodeClass → StackitNodeClassStatus → StackitNodeClass
with_status c status = record c { status = status }

-- The verdict does not depend on the status that the first step left.
validated-independent :
    (k : Conditions) (a b : Option ClientError) (c : StackitNodeClass) (st : StackitNodeClassStatus)
    → let left = (validated k a b (with_status c st)).1 in
      (left.status.zones_ready ≡ st.zones_ready)
      × (left.status.availability_zones ≡ st.availability_zones)
      × (left.status.validation_succeeded ≡ (validated k a b c).1.status.validation_succeeded)
      × (left.spec ≡ c.spec)
validated-independent k (some e) b c st = (refl, refl, refl, refl)
validated-independent k none (some e) c st = (refl, refl, refl, refl)
validated-independent k none none c st = (refl, refl, refl, refl)

validate-Recorded :
    (k : Conditions) (c : StackitNodeClass) (st : StackitNodeClassStatus)
    → Recorded k c (with_status c st) (validate k (with_status c st)).1
unfolding validate validate_networking
validate-Recorded k c st =
    validated-independent k (validate_labels c.spec.labels) (validate_networking c) c st

-- The first step changes the status alone.
pub resolve_with-status :
    (k : Conditions) (r : Result ClientError (List Text)) (c : StackitNodeClass)
    → (resolve_with k r c).1 ≡ with_status c (resolve_with k r c).1.status
unfolding resolve_with
resolve_with-status k (err e) c = refl
resolve_with-status k (ok []) c = refl
resolve_with-status k (ok (z ∷ zs)) c =
    let unknown =
      (split_zones (z ∷ zs)
        (if is_empty c.spec.availability_zones then z ∷ zs else c.spec.availability_zones)).1 in
    elim (Bool-cases (is_empty unknown)) [
      | inl found ↦ rw (resolve_with, found) refl
      | inr missing ↦ rw (resolve_with, missing) refl
    ]

-- What a reconcile returns: the patch counts first, then an error that is worth retrying.
abbrev pub Returned :
    Kube → StackitNodeClass → StackitNodeClass → Option ClientError → Outcome → Type 0
Returned kube c left zone_err o =
    ((e : Err) × (patched kube c left ≡ some e) × (o ≡ ignore_not_found e))
    ⊎ ((e : ClientError) × (patched kube c left ≡ none)
        × (zone_err ≡ some e)
        × (is_retryable e ≡ true)
        × (o ≡ fail (client e)))
    ⊎ ((patched kube c left ≡ none)
        × ((zone_err ≡ none) ⊎ ((e : ClientError) × (zone_err ≡ some e) × (is_retryable e ≡ false)))
        × (o ≡ requeue_after resync_period))

-- No error, or one without a status of the API.
abbrev Plainly : Option ClientError → Type 0
Plainly v = (v ≡ none) ⊎ (v ≡ some plain)

plain_not_retryable : is_retryable plain ≡ false
unfolding is_retryable as_api_error
plain_not_retryable = refl

first_plain : (v : Option ClientError) → Plainly v → first_retryable (v ∷ []) ≡ none
first_plain v (inl e) = rw e refl
first_plain v (inr e) = rw (e, plain_not_retryable) refl

finish-Returned :
    (kube : Kube) (c left : StackitNodeClass) (z v : Option ClientError) (a : Option Err)
    → patched kube c left ≡ a
    → Plainly v
    → Returned kube c left z (result a (first_retryable (z ∷ v ∷ [])))
finish-Returned kube c left z v (some e) p h = inl (e, p, refl)
finish-Returned kube c left none v none p h = inr (inr (p, inl refl, rw (first_plain v h) refl))
finish-Returned kube c left (some e) v none p h = elim (Bool-cases (is_retryable e)) [
  | inl again ↦ inr (inl (e, p, refl, again, rw again refl))
  | inr never ↦ inr (inr (p, inr (e, refl, never), rw (never, first_plain v h) refl))
]

validate_labels-Plainly : (labels : Map Text) → Plainly (validate_labels labels)
unfolding validate_labels
validate_labels-Plainly labels = of_problems (problems_of labels (sorted_keys labels))
  where
    of_problems :
        (ps : List LabelProblem)
        → Plainly (elim ps as (λ _. Option ClientError) [ [] ↦ none | p ∷ rest ↦ some plain ])
    of_problems [] = inl refl
    of_problems (p ∷ rest) = inr refl

plain_unless :
    (b : Bool) (v : Option ClientError) → Plainly v → Plainly (if b then some plain else v)
plain_unless true v h = inr refl
plain_unless false v h = h

validate_networking-Plainly : (c : StackitNodeClass) → Plainly (validate_networking c)
unfolding validate_networking
validate_networking-Plainly c =
    let nets = c.spec.networking in
    let a = is_set nets.network_id in
    let b = not (is_empty nets.nic_ids) in
    plain_unless (a && b) _ (
      plain_unless (not a && not b) _
        (plain_unless (b && ltb 1 (length nets.nic_ids)) none (inl refl)))

validated-Plainly :
    (k : Conditions) (a b : Option ClientError) (c : StackitNodeClass)
    → Plainly a
    → Plainly b
    → Plainly (validated k a b c).0
validated-Plainly k none none c h h' = inl refl
validated-Plainly k none (some e) c h h' = h'
validated-Plainly k (some e) b c h h' = h

validate-Plainly : (k : Conditions) (c : StackitNodeClass) → Plainly (validate k c).0
unfolding validate
validate-Plainly k c =
    validated-Plainly k (validate_labels c.spec.labels) (validate_networking c) c
      (validate_labels-Plainly c.spec.labels) (validate_networking-Plainly c)

module _ (kube : Kube) (ctl : Controller) (now : ℕ) (c : StackitNodeClass) (s : State) where
  -- What the first step works on, and what it gives.
  abbrev pub resolved : Option ClientError × StackitNodeClass
  resolved = resolve_with ctl.conditions (list_availability_zones ctl now s).0 c

  abbrev pub Reconciled : (Outcome × StackitNodeClass) × State → Type 0
  Reconciled r =
      Recorded ctl.conditions c resolved.1 r.0.1
      × Returned kube c r.0.1 resolved.0 r.0.0
      × (r.1 ≡ (list_availability_zones ctl now s).1)

  reconcile_live : Reconciled (reconcile_at kube ctl now c s none)
  unfolding finish resolve_availability_zones
  reconcile_live =
      let zoned = resolved.1 in
      (
        subst (λ z. Recorded ctl.conditions c z (validate ctl.conditions z).1)
            (sym (resolve_with-status ctl.conditions (list_availability_zones ctl now s).0 c))
            (validate-Recorded ctl.conditions c zoned.status),
        finish-Returned kube c (validate ctl.conditions zoned).1 resolved.0
            (validate ctl.conditions zoned).0 _ refl (validate-Plainly ctl.conditions zoned),
        refl,
      )

  -- A reconcile of a class that is not being deleted records the verdict on its zones and the
  -- verdict on its labels and networking, whatever the other one is, and leaves the spec. It
  -- returns what the patch's error says, or else the zones' error if that is worth retrying, or
  -- else asks for a repetition after five minutes; an invalid class is not retried at once.
  pub reconcile_lem : c.deletion_timestamp ≡ none → Reconciled (reconcile kube ctl now c s)
  unfolding reconcile
  reconcile_lem h = subst (λ t. Reconciled (reconcile_at kube ctl now c s t)) (sym h) reconcile_live
