-- ===== src/InstanceType/Discovered.antt =====
-- pkg/providers/instancetype/instancetype.go: the memory that real nodes report.
use karpenter_provider_stack.Prelude.{
  ℕ, ◌≡◌, min, refl, subst, ap, false, Option, none, some, ◌∷◌, ◌++◌, Text, text_eq, text_eq_sound,
  lookup, ltb, if◌then◌else◌, arith, Bool-cases, inl, inr,
}
use karpenter_provider_stack.Env.GoCache.{GoCache, IsGoCache, History, set_default}
use karpenter_provider_stack.Apis.LabelKeys.{label_instance_type}
use karpenter_provider_stack.Apis.NodeClass.{StackitNodeClass, boot_volume_size_gb}
use karpenter_provider_stack.Apis.Core.{Node, Quantity}
use karpenter_provider_stack.Cache.{discovered_capacity_ttl}

-- `%d` of fmt is a parameter.
unfoldable pub discovered_capacity_cache_key : (ℕ → Text) → Text → StackitNodeClass → Text
discovered_capacity_cache_key format name c = name ++ (b'-' ∷ format (boot_volume_size_gb c))

module _ (lib : GoCache Quantity) (format : ℕ → Text) where
  abbrev pub record_memory :
      ℕ → Text → Quantity → Option Quantity → History Quantity → History Quantity
  record_memory now key actual none h = set_default now key actual ∷ h
  record_memory now key actual (some cached) h =
      if ltb cached actual then h else set_default now key actual ∷ h

  abbrev pub record_node :
      ℕ → Node → StackitNodeClass → Option Text → History Quantity → History Quantity
  record_node now node c none h = h
  record_node now node c (some name) h =
      let key = discovered_capacity_cache_key format name c in
      record_memory now key node.memory_capacity (lib.get h now key) h

  -- UpdateInstanceTypeCapacityFromNode.
  unfoldable pub update_capacity : ℕ → Node → StackitNodeClass → History Quantity → History Quantity
  update_capacity now node c h = record_node now node c (lookup label_instance_type node.labels) h

  module _ (spec : IsGoCache discovered_capacity_ttl lib) where
    open spec use {get-set_self, get-set_ne}

    abbrev pub smallest : Option Quantity → Quantity → Quantity
    smallest none actual = actual
    smallest (some cached) actual = min cached actual

    record_memory_self :
        (now : ℕ) (key : Text) (actual : Quantity) (cached : Option Quantity) (h : History Quantity)
        → lib.get h now key ≡ cached
        → lib.get (record_memory now key actual cached h) now key ≡ some (smallest cached actual)
    record_memory_self now key actual none h e =
        get-set_self h now now key actual (omega arith) (omega arith)
    record_memory_self now key actual (some c) h e = elim (Bool-cases (ltb c actual)) [
      | inl less ↦ let m : min c actual ≡ c = ground (arith, less) in rw less (rw m e)
      | inr more ↦
          let m : min c actual ≡ actual = ground (arith, more) in
          rw more (rw m (get-set_self h now now key actual (omega arith) (omega arith)))
    ]

    record_memory_other :
        (now : ℕ) (key other : Text) (actual : Quantity) (cached : Option Quantity)
        (h : History Quantity)
        → text_eq key other ≡ false
        → lib.get (record_memory now key actual cached h) now other ≡ lib.get h now other
    record_memory_other now key other actual none h n = get-set_ne h now now key other actual n
    record_memory_other now key other actual (some c) h n = elim (Bool-cases (ltb c actual)) [
      | inl less ↦ rw less
      | inr more ↦ rw more (get-set_ne h now now key other actual n)
    ]

    -- The smallest memory seen wins: after a node's report, what is cached for its instance type and
    -- boot volume size is the lesser of the report and of what was cached, and nothing else changes.
    pub update_capacity_lem :
        (now : ℕ) (node : Node) (c : StackitNodeClass) (name : Text) (h : History Quantity)
        (k : Text)
        → lookup label_instance_type node.labels ≡ some name
        → let key = discovered_capacity_cache_key format name c in
          lib.get (update_capacity now node c h) now k ≡ (
            if text_eq key k
            then some (smallest (lib.get h now key) node.memory_capacity)
            else lib.get h now k)
    update_capacity_lem now node c name h k n =
        let key = discovered_capacity_cache_key format name c in
        let e : update_capacity now node c h
            ≡ record_memory now key node.memory_capacity (lib.get h now key) h =
          unfold update_capacity in ap (λ r. record_node now node c r h) n in
        elim (Bool-cases (text_eq key k)) [
          | inl same ↦
              let k_is = text_eq_sound key k same in
              rw (e, same)
                (subst
                  (λ j.
                    lib.get (record_memory now key node.memory_capacity (lib.get h now key) h) now j
                    ≡ some (smallest (lib.get h now key) node.memory_capacity))
                  k_is (record_memory_self now key node.memory_capacity (lib.get h now key) h refl))
          | inr other ↦
              rw (e, other)
                (record_memory_other now key k node.memory_capacity (lib.get h now key) h other)
        ]
