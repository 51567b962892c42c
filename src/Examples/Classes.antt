-- ===== src/Examples/Classes.antt =====
-- The theorems on the controllers of the classes, at one class.
use karpenter_provider_stack.Prelude.{◌≡◌, ◌↔◌, ◌⊎◌, refl, false, none, some, List, [], ◌∷◌, All}
use karpenter_provider_stack.Errors.{plain, ok}
use karpenter_provider_stack.Apis.NodeClass.{
  StackitNodeClass, condition_true, condition_false, availability_zone_ids,
}
use karpenter_provider_stack.Apis.Core.{NodeClaim}
use karpenter_provider_stack.Controllers.NodeClass.{requeue_after, resolve_with}
use karpenter_provider_stack.Controllers.NodeClass.Zones.{Known, requested, resolve_with_lem}
use karpenter_provider_stack.Controllers.NodeClass.Reconcile.{Verdict, validate_lem}
use karpenter_provider_stack.Controllers.Termination.{
  Kube, contains_finalizer, remove_finalizer, reconcile, requeue_while_in_use,
}
use karpenter_provider_stack.Controllers.Termination.Finalizer.{finalizer_released}
use karpenter_provider_stack.Env.Conditions.{simple_conditions}
use karpenter_provider_stack.Examples.Data.{zone_a, zone_b, class}

resolve_with_lem_example :
    (All (Known (zone_a ∷ zone_b ∷ [])) (requested (zone_a ∷ zone_b ∷ []) class)
      × ((resolve_with simple_conditions (ok (zone_a ∷ zone_b ∷ [])) class).0 ≡ none)
      × ((resolve_with simple_conditions
            (ok (zone_a ∷ zone_b ∷ []))
            class).1.status.zones_ready.status
          ≡ condition_true)
      × (availability_zone_ids (resolve_with simple_conditions (ok (zone_a ∷ zone_b ∷ [])) class).1
          ≡ requested (zone_a ∷ zone_b ∷ []) class))
    ⊎ ((¬ All (Known (zone_a ∷ zone_b ∷ [])) (requested (zone_a ∷ zone_b ∷ []) class))
        × ((resolve_with simple_conditions (ok (zone_a ∷ zone_b ∷ [])) class).0 ≡ some plain)
        × ((resolve_with simple_conditions
              (ok (zone_a ∷ zone_b ∷ []))
              class).1.status.zones_ready.status
            ≡ condition_false)
        × (availability_zone_ids
              (resolve_with simple_conditions (ok (zone_a ∷ zone_b ∷ [])) class).1
            ≡ []))
resolve_with_lem_example = resolve_with_lem simple_conditions zone_a (zone_b ∷ []) class

validate_lem_example : Verdict simple_conditions class
validate_lem_example = validate_lem simple_conditions class

abbrev kube : Kube
kube = record { list_claims = ok []; patch = λ c. none }

abbrev deleted_class : StackitNodeClass
deleted_class = record class { deletion_timestamp = some 9 }

finalizer_released_example :
    (((reconcile kube deleted_class).1 ≡ some (remove_finalizer deleted_class))
      ↔ (kube.list_claims ≡ ok []))
    × (contains_finalizer (remove_finalizer deleted_class).finalizers ≡ false)
    × ((reconcile kube deleted_class ≡ (requeue_after requeue_while_in_use, none))
        ↔ ((n : NodeClaim) × (ns : List NodeClaim) × (kube.list_claims ≡ ok (n ∷ ns))))
finalizer_released_example = finalizer_released kube deleted_class 9 refl
