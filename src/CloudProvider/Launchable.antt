-- ===== src/CloudProvider/Launchable.antt =====
-- Which reconciled classes Create launches from: the node class controller and the guards of Create.
use karpenter_provider_stack.Prelude.{
  ℕ, ◌≡◌, ◌↔◌, inl, inr, refl, sym, ap, ◌∙◌, subst, true, none, some, Option, List, [], ◌∷◌, Text,
  All, ◌==◌, arith, Bool-cases,
}
use karpenter_provider_stack.Errors.{ClientError, Result, ok, err}
use karpenter_provider_stack.Env.Conditions.{Conditions, IsConditions}
use karpenter_provider_stack.Apis.NodeClass.{
  StackitNodeClass, StackitNodeClassStatus, ConditionStatus, Condition, condition_true,
  condition_false,
}
use karpenter_provider_stack.Utils.Labels.{validate_labels}
use karpenter_provider_stack.Instance.Payload.{is_empty}
use karpenter_provider_stack.Controllers.NodeClass.{
  Kube, Controller, State, list_availability_zones, resolve_availability_zones, resolve_with,
  split_zones, validate, validated, validate_networking, reconcile,
}
use karpenter_provider_stack.Controllers.NodeClass.Zones.{Known, requested, resolve_with_lem}
use karpenter_provider_stack.Controllers.NodeClass.Reconcile.{IsValid, validate_lem}
use karpenter_provider_stack.Controllers.NodeClass.Outcomes.{reconcile_lem, resolve_with-status}
use karpenter_provider_stack.CloudProvider.{CloudProvider, readiness}
use karpenter_provider_stack.CloudProvider.Claims.{readiness_sound}

-- The zones' condition is set for the class's generation, whatever the listing gave.
zones_generation :
    (k : Conditions) (r : Result ClientError (List Text)) (c : StackitNodeClass)
    → (resolve_with k r c).1.status.zones_ready.observed_generation ≡ c.generation
unfolding resolve_with
zones_generation k (err e) c = refl
zones_generation k (ok []) c = refl
zones_generation k (ok (z ∷ zs)) c =
    elim (Bool-cases (is_empty (split_zones (z ∷ zs) (requested (z ∷ zs) c)).1)) [
      | inl found ↦ rw found refl
      | inr missing ↦ rw missing refl
    ]

-- What setting the last condition leaves: the ready condition of both, for the class's generation.
abbrev Fresh : Conditions → StackitNodeClass → StackitNodeClass → Type 0
Fresh k c left =
    (left.generation ≡ c.generation)
    × (left.status.ready
        ≡ k.root c.generation left.status.zones_ready left.status.validation_succeeded)
    × (left.status.validation_succeeded.observed_generation ≡ c.generation)

validated-Fresh :
    (k : Conditions) (a b : Option ClientError) (c : StackitNodeClass)
    → Fresh k c (validated k a b c).1
validated-Fresh k (some e) b c = (refl, refl, refl)
validated-Fresh k none (some e) c = (refl, refl, refl)
validated-Fresh k none none c = (refl, refl, refl)

validate-Fresh : (k : Conditions) (c : StackitNodeClass) → Fresh k c (validate k c).1
unfolding validate
validate-Fresh k c = validated-Fresh k (validate_labels c.spec.labels) (validate_networking c) c

same : (n : ℕ) → (n == n) ≡ true
same n = ground arith

-- Create's guards let a class pass exactly if its ready condition is true and of its generation.
readiness_complete :
    (cp : CloudProvider) (c : StackitNodeClass)
    → c.status.ready.status ≡ condition_true
    → c.status.ready.observed_generation ≡ c.generation
    → readiness cp c ≡ none
unfolding readiness
readiness_complete cp c h g = rw (h, g, same c.generation) refl

false-not-true : (x : ConditionStatus) → x ≡ condition_false → ¬ (x ≡ condition_true)
false-not-true x h e = cc

module _ (k : Conditions) (c : StackitNodeClass) where
  zones_ready_iff :
      (z : Text) (zs : List Text) (r : Result ClientError (List Text))
      → r ≡ ok (z ∷ zs)
      → ((resolve_with k r c).1.status.zones_ready.status ≡ condition_true)
        ↔ All (Known (z ∷ zs)) (requested (z ∷ zs) c)
  zones_ready_iff z zs r h =
      subst
        (λ r.
          ((resolve_with k r c).1.status.zones_ready.status ≡ condition_true)
          ↔ All (Known (z ∷ zs)) (requested (z ∷ zs) c))
        (sym h)
        (elim (resolve_with_lem k z zs c) [
          | inl good ↦ ((λ e. good.0), λ known. good.2)
          | inr bad ↦ ((λ e. absurd (false-not-true _ bad.2 e)), λ known. absurd (bad.0 known))
        ])

  validated_iff : ((validate k c).1.status.validation_succeeded.status ≡ condition_true) ↔ IsValid c
  validated_iff = elim (validate_lem k c) [
    | inl good ↦ ((λ e. good.0), λ valid. good.2)
    | inr bad ↦ ((λ e. absurd (false-not-true _ bad.2 e)), λ valid. absurd (bad.0 valid))
  ]

status_of : {a b : Condition} → a ≡ b → a.status ≡ b.status
status_of e = ap (λ (x : Condition). x.status) e

generation_of : {a b : Condition} → a ≡ b → a.observed_generation ≡ b.observed_generation
generation_of e = ap (λ (x : Condition). x.observed_generation) e

module _ (cp : CloudProvider) (k : Conditions) (conditions : IsConditions k)
    (c left edited : StackitNodeClass) (fresh : Fresh k c left)
    (zones : left.status.zones_ready.observed_generation ≡ c.generation)
    (kept : edited.status ≡ left.status) where
  ready_root :
      edited.status.ready
      ≡ k.root c.generation left.status.zones_ready left.status.validation_succeeded
  ready_root = ap (λ (x : StackitNodeClassStatus). x.ready) kept ∙ fresh.1

  ready_generation : edited.status.ready.observed_generation ≡ c.generation
  ready_generation =
      generation_of ready_root
      ∙ conditions.root_generation c.generation left.status.zones_ready
          left.status.validation_succeeded

  ready_iff : (edited.status.ready.status ≡ condition_true) ↔ (
      (left.status.zones_ready.status ≡ condition_true)
      × (left.status.validation_succeeded.status ≡ condition_true))
  ready_iff =
      let root =
        conditions.root_true c.generation left.status.zones_ready left.status.validation_succeeded
          zones fresh.2 in
      ((λ h. root.0 (sym (status_of ready_root) ∙ h)), λ both. status_of ready_root ∙ root.1 both)

  launchable_left : (readiness cp edited ≡ none) ↔ (
      (edited.generation ≡ c.generation)
      × (left.status.zones_ready.status ≡ condition_true)
      × (left.status.validation_succeeded.status ≡ condition_true))
  launchable_left = (
    (λ h.
        let (a, b) = readiness_sound cp edited h in
        let (x, y) = ready_iff.0 a in (sym b ∙ ready_generation, x, y)),
    λ h. readiness_complete cp edited (ready_iff.1 (h.1, h.2)) (ready_generation ∙ sym h.0),
  )

module _ (cp : CloudProvider) (kube : Kube) (ctl : Controller) (now : ℕ) (c : StackitNodeClass)
    (s : State) where
  abbrev reconciled : StackitNodeClass
  reconciled = (reconcile kube ctl now c s).0.1

  abbrev zoned : StackitNodeClass
  zoned = (resolve_with ctl.conditions (list_availability_zones ctl now s).0 c).1

  reconciled_live : c.deletion_timestamp ≡ none → reconciled ≡ (validate ctl.conditions zoned).1
  unfolding reconcile resolve_availability_zones
  reconciled_live h = rw h refl

  zoned_generation : zoned.generation ≡ c.generation
  zoned_generation =
      ap (λ (x : StackitNodeClass). x.generation)
        (resolve_with-status ctl.conditions (list_availability_zones ctl now s).0 c)

  reconciled-Fresh : c.deletion_timestamp ≡ none → Fresh ctl.conditions c reconciled
  reconciled-Fresh h =
      subst (λ (x : StackitNodeClass). Fresh ctl.conditions c x) (sym (reconciled_live h))
        (subst
          (λ g.
            ((validate ctl.conditions zoned).1.generation ≡ g)
            × ((validate ctl.conditions zoned).1.status.ready
                ≡ ctl.conditions.root g (validate ctl.conditions zoned).1.status.zones_ready
                    (validate ctl.conditions zoned).1.status.validation_succeeded)
            × ((validate ctl.conditions zoned).1.status.validation_succeeded.observed_generation
                ≡ g))
          zoned_generation (validate-Fresh ctl.conditions zoned))

  -- If the condition set behaves as documented, and the zone listing of a reconcile of a class that
  -- is not being deleted gave a zone:
  -- the guards of Create let a class pass that has the status this reconcile left, exactly if the
  -- class is still of the reconciled generation, all zones that the reconciled class asks for are
  -- listed, and its labels and its networking are valid.
  pub launchable_iff :
      (edited : StackitNodeClass) (z : Text) (zs : List Text)
      → IsConditions ctl.conditions
      → c.deletion_timestamp ≡ none
      → (list_availability_zones ctl now s).0 ≡ ok (z ∷ zs)
      → edited.status ≡ reconciled.status
      → (readiness cp edited ≡ none) ↔ (
          (edited.generation ≡ c.generation)
          × All (Known (z ∷ zs)) (requested (z ∷ zs) c)
          × IsValid c)
  launchable_iff edited z zs conditions live listed kept =
      let k = ctl.conditions in
      let listing = (list_availability_zones ctl now s).0 in
      let (zr, azs, vs, spec) = (reconcile_lem kube ctl now c s live).0 in
      let ready =
        launchable_left cp k conditions c reconciled edited (reconciled-Fresh live)
          (generation_of zr ∙ zones_generation k listing c) kept in
      let known = zones_ready_iff k c z zs listing listed in
      let valid = validated_iff k c in
      (
        (λ h.
            let (g, a, b) = ready.0 h in
            (g, known.0 (sym (status_of zr) ∙ a), valid.0 (sym (status_of vs) ∙ b))),
        λ h. ready.1 (h.0, status_of zr ∙ known.1 h.1, status_of vs ∙ valid.1 h.2),
      )
