-- ===== src/InstanceType/Catalog/Resolved.antt =====
-- What is resolved from a catalog has exactly its names.
use karpenter_provider_stack.Prelude.{
  ℕ, ◌≡◌, refl, ap, sym, subst, ◌∙◌, text_eq_refl, true, inl, inr, Bool-cases, Option, none, some,
  none-ne-some, List, [], ◌∷◌, Text, text_eq, text_eq_sound, Map, lookup, All, In, here, there,
}
use karpenter_provider_stack.Errors.{Err, Result, ok, err}
use karpenter_provider_stack.Apis.NodeClass.{StackitNodeClass}
use karpenter_provider_stack.Apis.Core.{InstanceType, MachineType}
use karpenter_provider_stack.InstanceType.Discovered.{discovered_capacity_cache_key}
use karpenter_provider_stack.InstanceType.Resolve.{resolve}
use karpenter_provider_stack.InstanceType.Catalog.Names.{InCatalog, resolve_name}
use karpenter_provider_stack.InstanceType.Catalog.{
  DefaultProvider, State, get_type, got, get_found, keep_ok, collect, resolve_all, set_memory,
}

-- Each machine type stands under its name.
abbrev pub Keyed : Map MachineType → Type 0
Keyed ms = (name : Text) (m : MachineType) → lookup name ms ≡ some m → m.name ≡ name

abbrev pub AllIn : Map MachineType → List InstanceType → Type 0
AllIn ms its = All (λ (it : InstanceType). InCatalog ms it.name) its

abbrev pub Has : Text → List InstanceType → Type 0
Has name its = (it : InstanceType) × In it its × (it.name ≡ name)

abbrev pub Covers : Map MachineType → List InstanceType → Type 0
Covers ms its = (name : Text) → InCatalog ms name → Has name its

module _ (p : DefaultProvider) where
  set_memory_name : (q : Option ℕ) (it : InstanceType) → (set_memory q it).name ≡ it.name
  set_memory_name none it = refl
  set_memory_name (some q) it = refl

  got_name :
      (now : ℕ) (s : State) (c : StackitNodeClass) (r : Option InstanceType) (it : InstanceType)
      → got p now s c r ≡ some (ok it)
      → (raw : InstanceType) × (r ≡ some raw) × (it.name ≡ raw.name)
  got_name now s c none it h = absurd (none-ne-some (ok it) h)
  got_name now s c (some raw) it h =
      let q =
        p.discovered_capacity.get s.discovered_capacity_cache now
          (discovered_capacity_cache_key p.go.format raw.name c) in
      let same : set_memory q raw ≡ it = cc h in
      (raw, refl, ap (λ (x : InstanceType). x.name) (sym same) ∙ set_memory_name q raw)

  pub found_name :
      (now : ℕ) (s : State) (c : StackitNodeClass) (r : Option MachineType) (it : InstanceType)
      → get_found p now s c r ≡ some (ok it)
      → (m : MachineType) × (r ≡ some m) × (it.name ≡ m.name)
  found_name now s c none it h = cc
  found_name now s c (some m) it h =
      let (raw, e, n) = got_name now s c (resolve p.go p.share p.region m c) it h in
      (m, refl, n ∙ resolve_name p.go p.share p.region m c raw e)

  -- What get gives is in the catalog.
  get_type-InCatalog :
      (now : ℕ) (s : State) (c : StackitNodeClass) (name : Text) (it : InstanceType)
      → Keyed s.machine_types
      → get_type p now s c name ≡ some (ok it)
      → InCatalog s.machine_types it.name
  unfolding get_type
  get_type-InCatalog now s c name it v h =
      let (m, e, n) = found_name now s c (lookup name s.machine_types) it h in
      subst (InCatalog s.machine_types) (sym (n ∙ v name m e)) (m, e)

  collected :
      (ms : Map MachineType) (it : InstanceType) (rest : Option (List InstanceType))
      (its : List InstanceType)
      → InCatalog ms it.name
      → ((its' : List InstanceType) → rest ≡ some its' → AllIn ms its')
      → collect it rest ≡ some its
      → AllIn ms its
  collected ms it none its a b h = absurd (none-ne-some its h)
  collected ms it (some its') its a b h =
      let same : it ∷ its' ≡ its = cc h in
      subst (λ xs. All (λ (x : InstanceType). InCatalog ms x.name) xs) same (a, b its' refl)

  kept :
      (ms : Map MachineType) (r : Option (Result Err InstanceType))
      (rest : Option (List InstanceType)) (its : List InstanceType)
      → ((it : InstanceType) → r ≡ some (ok it) → InCatalog ms it.name)
      → ((its' : List InstanceType) → rest ≡ some its' → AllIn ms its')
      → keep_ok r rest ≡ some its
      → AllIn ms its
  kept ms none rest its a b h = absurd (none-ne-some its h)
  kept ms (some (err e)) rest its a b h = b its h
  kept ms (some (ok it)) rest its a b h = collected ms it rest its (a it refl) b h

  resolve_all-InCatalog :
      (now : ℕ) (s : State) (c : StackitNodeClass) (ms : Map MachineType) (its : List InstanceType)
      → Keyed s.machine_types
      → resolve_all p now s c ms ≡ some its
      → AllIn s.machine_types its
  unfolding resolve_all
  resolve_all-InCatalog now s c [] its v h = subst (AllIn s.machine_types) (some_inj h) tt
    where
      some_inj : {a b : List InstanceType} → some a ≡ some b → a ≡ b
      some_inj e = cc
  resolve_all-InCatalog now s c ((name, m) ∷ ms) its v h =
      kept s.machine_types (get_type p now s c name) (resolve_all p now s c ms) its
        (λ it e. get_type-InCatalog now s c name it v e)
        (λ its' e. resolve_all-InCatalog now s c ms its' v e) h

-- An entry's key is in its map, if perhaps with a later entry's value.
In-InCatalog : (ms : Map MachineType) (k : Text) (m : MachineType) → In (k, m) ms → InCatalog ms k
unfolding lookup
In-InCatalog [] k m i = elim i [ ]
In-InCatalog ((j, x) ∷ ms) k m (here e) =
    let key : j ≡ k = ap (λ (q : Text × MachineType). q.0) e in
    let same : text_eq j k ≡ true = rw key (text_eq_refl k) in (x, rw same refl)
In-InCatalog ((j, x) ∷ ms) k m (there t) =
    let ih = In-InCatalog ms k m t in
    elim (Bool-cases (text_eq j k)) [
      | inl same ↦ (x, rw same refl)
      | inr other ↦ (ih.0, rw other (ih.1))
    ]

module _ (p : DefaultProvider) (now : ℕ) (s : State) (c : StackitNodeClass) where
  got_ok : (r : Option InstanceType) (e : Err) → ¬ (got p now s c r ≡ some (err e))
  got_ok none e h = none-ne-some (err e) h
  got_ok (some it) e h = cc

  -- What is in the catalog is found.
  get_type_found :
      (name : Text) (e : Err)
      → InCatalog s.machine_types name
      → ¬ (get_type p now s c name ≡ some (err e))
  unfolding get_type
  get_type_found name e (m, l) h = got_ok (resolve p.go p.share p.region m c) e (rw l at h)

  collected_inv :
      (it : InstanceType) (rest : Option (List InstanceType)) (its : List InstanceType)
      → collect it rest ≡ some its
      → (its' : List InstanceType) × (rest ≡ some its') × (it ∷ its' ≡ its)
  collected_inv it none its h = absurd (none-ne-some its h)
  collected_inv it (some its') its h = (its', refl, cc h)

  -- The type of a machine type in the catalog is kept, before those of the rest.
  kept_inv :
      (name : Text) (r : Option (Result Err InstanceType)) (rest : Option (List InstanceType))
      (its : List InstanceType)
      → ((e : Err) → ¬ (r ≡ some (err e)))
      → keep_ok r rest ≡ some its
      → (it : InstanceType) × (its' : List InstanceType) × (r ≡ some (ok it))
        × (rest ≡ some its')
        × (it ∷ its' ≡ its)
  kept_inv name none rest its n h = absurd (none-ne-some its h)
  kept_inv name (some (err e)) rest its n h = absurd (n e refl)
  kept_inv name (some (ok it)) rest its n h =
      let (its', a, b) = collected_inv it rest its h in (it, its', refl, a, b)

  get_type_name :
      (name : Text) (it : InstanceType)
      → Keyed s.machine_types
      → get_type p now s c name ≡ some (ok it)
      → it.name ≡ name
  unfolding get_type
  get_type_name name it keyed h =
      let (m, e, n) = found_name p now s c (lookup name s.machine_types) it h in n ∙ keyed name m e

  -- In a catalog that is kept by names: if the machine types that are left are all in it, a listing
  -- made of them has an instance type of each name among them.
  resolve_all_complete :
      (ms : Map MachineType) (its : List InstanceType) (name : Text)
      → Keyed s.machine_types
      → ((k : Text) (m : MachineType) → In (k, m) ms → InCatalog s.machine_types k)
      → resolve_all p now s c ms ≡ some its
      → InCatalog ms name
      → Has name its
  unfolding resolve_all lookup
  resolve_all_complete [] its name keyed all h i = absurd (none-ne-some i.0 i.1)
  resolve_all_complete ((k, m) ∷ ms) its name keyed all h i =
      let (it, its', r, q, e) =
        kept_inv k (get_type p now s c k) (resolve_all p now s c ms) its
          (λ e. get_type_found k e (all k m (here refl))) h in
      elim (Bool-cases (text_eq k name)) [
        | inl same ↦
            subst (Has name) e
              (it, here refl, get_type_name k it keyed r ∙ text_eq_sound k name same)
        | inr other ↦
            (let (x, j, n) =
                resolve_all_complete ms its' name keyed (λ k' m' mem. all k' m' (there mem)) q
                  (i.0, rw other at (i.1)) in
              subst (Has name) e (x, there j, n))
      ]

  -- In a catalog that is kept by names, what is resolved from all of it has exactly its names.
  pub resolve_all_exact :
      (its : List InstanceType)
      → Keyed s.machine_types
      → resolve_all p now s c s.machine_types ≡ some its
      → AllIn s.machine_types its × Covers s.machine_types its
  resolve_all_exact its keyed h = (
    resolve_all-InCatalog p now s c s.machine_types its keyed h,
    λ name i.
        resolve_all_complete s.machine_types its name keyed
          (λ k m. In-InCatalog s.machine_types k m) h i,
  )
