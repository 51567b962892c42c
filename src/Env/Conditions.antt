-- ===== src/Env/Conditions.antt =====
-- github.com/awslabs/operatorpkg/status: the condition set of an object, whose root condition is
-- computed anew whenever a condition that it depends on is set.
use karpenter_provider_stack.Prelude.{ℕ, ◌≡◌, ◌↔◌, refl}
use karpenter_provider_stack.Apis.NodeClass.{
  Condition, ConditionStatus, condition_true, condition_false, condition_unknown,
}

-- The root condition, from the object's generation and the two conditions that it depends on.
pub record Conditions : Type 0 where
  pub root : ℕ → Condition → Condition → Condition

-- The documented behaviour that proofs rely on: the root is set for the object's generation; and
-- once both conditions are of that generation, it is true exactly if both are.
pub record IsConditions (k : Conditions) : Type 0 where
  pub root_generation : (g : ℕ) (a b : Condition) → (k.root g a b).observed_generation ≡ g
  pub root_true :
      (g : ℕ) (a b : Condition)
      → a.observed_generation ≡ g
      → b.observed_generation ≡ g
      → ((k.root g a b).status ≡ condition_true)
        ↔ ((a.status ≡ condition_true) × (b.status ≡ condition_true))

-- A condition set that behaves so.
abbrev both : ConditionStatus → ConditionStatus → ConditionStatus
both condition_true b = b
both condition_false b = condition_false
both condition_unknown condition_false = condition_false
both condition_unknown condition_true = condition_unknown
both condition_unknown condition_unknown = condition_unknown

abbrev pub simple_conditions : Conditions
simple_conditions = record {
  root = λ g a b. record { status = both a.status b.status; observed_generation = g };
}

both_true :
    (a b : ConditionStatus)
    → (both a b ≡ condition_true) ↔ ((a ≡ condition_true) × (b ≡ condition_true))
both_true condition_true b = ((λ h. (refl, h)), λ h. h.1)
both_true condition_false b = ((λ h. cc), λ h. cc)
both_true condition_unknown condition_true = ((λ h. cc), λ h. cc)
both_true condition_unknown condition_false = ((λ h. cc), λ h. cc)
both_true condition_unknown condition_unknown = ((λ h. cc), λ h. cc)

pub simple_conditions-IsConditions : IsConditions simple_conditions
simple_conditions-IsConditions = record {
  root_generation = λ g a b. refl;
  root_true = λ g a b h k. both_true a.status b.status;
}
