-- ===== src/InstanceType/Catalog/Names.antt =====
-- The names of the catalog, of a listing that makes it, and of what is resolved from it.
use karpenter_provider_stack.Prelude.{
  ◌≡◌, refl, sym, subst, ◌∙◌, Bool, true, false, Option, none, some, List, [], ◌∷◌, map, Text,
  text_eq, text_eq_refl, text_eq_sound, Map, lookup, lookup-assign, last_entry, In, here, there,
  arith, none-ne-some, if◌then◌else◌,
}
use karpenter_provider_stack.Prelude.Binary.{Binary}
use karpenter_provider_stack.Env.Go.{Go}
use karpenter_provider_stack.Apis.NodeClass.{StackitNodeClass}
use karpenter_provider_stack.Apis.Core.{InstanceType, MachineType}
use karpenter_provider_stack.InstanceType.Resolve.{new_instance_type, resolve}
use karpenter_provider_stack.InstanceType.Catalog.{by_name}

abbrev pub InCatalog : Map MachineType → Text → Type 0
InCatalog ms name = (m : MachineType) × (lookup name ms ≡ some m)

abbrev pub Named : Text → List MachineType → Type 0
Named name v = (m : MachineType) × In m v × (m.name ≡ name)

abbrev entries : List MachineType → Map MachineType
entries ms = map (λ (m : MachineType). (m.name, m)) ms

-- The head's entry counts if no later one has its name.
abbrev pick : MachineType → Text → Option MachineType → Option MachineType
pick x name rest = elim rest as (λ _. Option MachineType) [
  | none ↦ (if text_eq x.name name then some x else none)
  | some w ↦ some w
]

pick_head :
    (x : MachineType) (name : Text) (v : List MachineType) (m : MachineType) (b : Bool)
    → text_eq x.name name ≡ b
    → (if b then some x else none) ≡ some m
    → In m (x ∷ v) × (m.name ≡ name)
pick_head x name v m true e k =
    let same : x ≡ m = cc in
    (here same, subst (λ (y : MachineType). y.name ≡ name) same (text_eq_sound x.name name e))
pick_head x name v m false e k = absurd (none-ne-some m k)

pick_sound :
    (x : MachineType) (name : Text) (v : List MachineType) (rest : Option MachineType)
    → ((m : MachineType) → rest ≡ some m → In m v × (m.name ≡ name))
    → (m : MachineType) → pick x name rest ≡ some m
    → In m (x ∷ v) × (m.name ≡ name)
pick_sound x name v none ih m h = pick_head x name v m (text_eq x.name name) refl h
pick_sound x name v (some w) ih m h = let (i, n) = ih m h in (there i, n)

last_entry-entries :
    (name : Text) (v : List MachineType) (m : MachineType)
    → last_entry name (entries v) ≡ some m
    → In m v × (m.name ≡ name)
last_entry-entries name [] m h = absurd (none-ne-some m h)
last_entry-entries name (x ∷ v) m h =
    pick_sound x name v (last_entry name (entries v)) (last_entry-entries name v) m h

pick_here :
    (x : MachineType) (name : Text) (rest : Option MachineType)
    → text_eq x.name name ≡ true
    → (m : MachineType) × (pick x name rest ≡ some m)
pick_here x name none e = (x, rw e)
pick_here x name (some w) e = (w, refl)

pick_there :
    (x : MachineType) (name : Text) (rest : Option MachineType)
    → (m : MachineType) × (rest ≡ some m)
    → (m : MachineType) × (pick x name rest ≡ some m)
pick_there x name none (m, e) = absurd (none-ne-some m e)
pick_there x name (some w) h = (w, refl)

entries-last_entry :
    (v : List MachineType) (m : MachineType)
    → In m v
    → (m' : MachineType) × (last_entry m.name (entries v) ≡ some m')
entries-last_entry (x ∷ v) m (here e) =
    pick_here x m.name (last_entry m.name (entries v))
      (subst (λ (y : MachineType). text_eq x.name y.name ≡ true) e (text_eq_refl x.name))
entries-last_entry (x ∷ v) m (there i) =
    pick_there x m.name (last_entry m.name (entries v)) (entries-last_entry v m i)
entries-last_entry [] m i = elim i [ ]

lookup-by_name :
    (name : Text) (v : List MachineType) → lookup name (by_name v) ≡ last_entry name (entries v)
unfolding lookup
lookup-by_name name v = lookup-assign name [] (entries v) ∙ or_none (last_entry name (entries v))
  where
    or_none :
        (r : Option MachineType)
        → elim r as (λ _. Option MachineType) [ none ↦ none | some w ↦ some w ] ≡ r
    or_none none = refl
    or_none (some w) = refl

-- The catalog that a listing makes has its names, and no other.
pub by_name_sound : (name : Text) (v : List MachineType) → InCatalog (by_name v) name → Named name v
by_name_sound name v (m, h) =
    let (i, n) = last_entry-entries name v m (sym (lookup-by_name name v) ∙ h) in (m, i, n)

pub by_name_complete :
    (name : Text) (v : List MachineType) → Named name v → InCatalog (by_name v) name
by_name_complete name v (m, i, n) =
    let (m', h) = entries-last_entry v m i in
    subst (λ k. InCatalog (by_name v) k) n (m', lookup-by_name m.name v ∙ h)

-- A resolved instance type has its machine type's name.
pub resolve_name :
    (go : Go) (share : Binary) (region : Text) (m : MachineType) (c : StackitNodeClass)
    (it : InstanceType)
    → resolve go share region m c ≡ some it
    → it.name ≡ m.name
unfolding resolve new_instance_type
resolve_name go share region m c it h = ground arith

pub by_name_keyed :
    (v : List MachineType) (name : Text) (m : MachineType)
    → lookup name (by_name v) ≡ some m
    → m.name ≡ name
by_name_keyed v name m h = (last_entry-entries name v m (sym (lookup-by_name name v) ∙ h)).1
