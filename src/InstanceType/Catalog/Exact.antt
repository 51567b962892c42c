-- ===== src/InstanceType/Catalog/Exact.antt =====
-- What List and Get serve, from the cache or afresh.
use karpenter_provider_stack.Prelude.{
  ℕ, ◌≡◌, ◌↔◌, ◌⊎◌, inl, inr, refl, sym, subst, ap, ◌∙◌, true, Bool-cases, Option, none, some, List,
  [], ◌∷◌, Text, text_eq, text_eq_sound, text_eq_refl, In, here, there, All-In, find, none-ne-some,
}
use karpenter_provider_stack.Errors.{ok, err, client, plain}
use karpenter_provider_stack.Env.GoCache.{IsGoCache}
use karpenter_provider_stack.Apis.NodeClass.{StackitNodeClass, availability_zone_ids}
use karpenter_provider_stack.Apis.Core.{InstanceType}
use karpenter_provider_stack.Cache.{instance_types_and_offerings_ttl}
use karpenter_provider_stack.Cache.Unavailable.{UnavailableOfferings}
use karpenter_provider_stack.Offering
use karpenter_provider_stack.Offering.{inject_offerings, create_offerings}
use karpenter_provider_stack.InstanceType.Catalog.{
  DefaultProvider, State, list, get, named, or_missing,
}
use karpenter_provider_stack.InstanceType.Catalog.Names.{InCatalog}
use karpenter_provider_stack.InstanceType.Catalog.Resolved.{AllIn, Has}
use karpenter_provider_stack.InstanceType.Catalog.Coherence.{
  IsChangeMonitor, Reach, list_types-Listed,
}
use karpenter_provider_stack.InstanceType.Catalog.Served.{
  Reach-IsCoherent, Refused, Served, list_result,
}

-- Offerings are injected without a change of the names.
module _ (o : Offering.DefaultProvider) (u : UnavailableOfferings) (now : ℕ) (region : Text)
    (zones : List Text) (name : Text) where
  Has-inject_offerings :
      (its : List InstanceType) (s : Offering.State)
      → Has name its
      → Has name (inject_offerings o u now region its zones s).0
  unfolding inject_offerings
  Has-inject_offerings [] s (it, i, n) = elim i [ ]
  Has-inject_offerings (x ∷ its) s (it, here e, n) =
      let made = create_offerings o u now region x zones s in
      (record x { offerings = made.0 }, here refl, ap (λ (y : InstanceType). y.name) e ∙ n)
  Has-inject_offerings (x ∷ its) s (it, there i, n) =
      let made = create_offerings o u now region x zones s in
      let (y, j, m) = Has-inject_offerings its made.1 (it, i, n) in (y, there j, m)

  inject_offerings-Has :
      (its : List InstanceType) (s : Offering.State)
      → Has name (inject_offerings o u now region its zones s).0
      → Has name its
  unfolding inject_offerings
  inject_offerings-Has [] s (it, i, n) = elim i [ ]
  inject_offerings-Has (x ∷ its) s (it, here e, n) =
      (x, here refl, ap (λ (y : InstanceType). y.name) e ∙ n)
  inject_offerings-Has (x ∷ its) s (it, there i, n) =
      let made = create_offerings o u now region x zones s in
      let (y, j, m) = inject_offerings-Has its made.1 (it, i, n) in (y, there j, m)

-- What find_named looks for is there exactly if it has the name.
found :
    (name : Text) (its : List InstanceType) (it : InstanceType)
    → find (λ (x : InstanceType). text_eq x.name name) its ≡ some it
    → In it its × (it.name ≡ name)
unfolding find
found name [] it h = absurd (none-ne-some it h)
found name (x ∷ its) it h = elim (Bool-cases (text_eq x.name name)) [
  | inl same ↦
      (let e : x ≡ it = cc (rw same at h) in
        (here e, subst (λ (y : InstanceType). y.name ≡ name) e (text_eq_sound x.name name same)))
  | inr other ↦ (let (i, n) = found name its it (rw other at h) in (there i, n))
]

find-Has :
    (name : Text) (its : List InstanceType)
    → Has name its
    → (it : InstanceType) × (find (λ (x : InstanceType). text_eq x.name name) its ≡ some it)
unfolding find
find-Has name [] (it, i, n) = elim i [ ]
find-Has name (x ∷ its) (it, here e, n) =
    let same : text_eq x.name name ≡ true =
      rw (ap (λ (y : InstanceType). y.name) e ∙ n) (text_eq_refl name) in
    (x, rw same refl)
find-Has name (x ∷ its) (it, there i, n) =
    let (y, h) = find-Has name its (it, i, n) in
    elim (Bool-cases (text_eq x.name name)) [
      | inl same ↦ (x, rw same refl)
      | inr other ↦ (y, rw other h)
    ]

-- What Get gives, from what List gave.
module _ (p : DefaultProvider) (now : ℕ) (o : Option Offering.DefaultProvider)
    (u : UnavailableOfferings) (c : StackitNodeClass) (name : Text) (s s' : State)
    (its : List InstanceType) where
  abbrev pub Got : Type 0
  Got = (it : InstanceType) × (get p now o u c name s ≡ some (ok it, s')) × (it.name ≡ name)

  abbrev Found : Option InstanceType → Type 0
  Found r = find (λ (x : InstanceType). text_eq x.name name) its ≡ r

  get_found :
      (it : InstanceType)
      → list p now o u c s ≡ some (ok its, s')
      → Found (some it)
      → get p now o u c name s ≡ some (ok it, s')
  unfolding get
  get_found it h f = ap (named p now name) h ∙ ap (λ r. some (or_missing p now r, s')) f

  get_missing :
      list p now o u c s ≡ some (ok its, s')
      → Found none
      → get p now o u c name s ≡ some (err (client plain), s')
  unfolding get
  get_missing h f = ap (named p now name) h ∙ ap (λ r. some (or_missing p now r, s')) f

  get_iff : list p now o u c s ≡ some (ok its, s') → Got ↔ Has name its
  get_iff h = (
    (λ got. by_found (find (λ (x : InstanceType). text_eq x.name name) its) refl got),
    λ has. let (it, f) = find-Has name its has in (it, get_found it h f, (found name its it f).1),
  )
    where
      by_found : (r : Option InstanceType) → Found r → Got → Has name its
      by_found (some x) f got = let (i, n) = found name its x f in (x, i, n)
      by_found none f (it, g, n) =
          let e : some (err (client plain), s') ≡ some (ok it, s') = sym (get_missing h f) ∙ g in
          cc e

Has-InCatalog :
    (s : State) (name : Text) (its : List InstanceType)
    → AllIn s.machine_types its
    → Has name its
    → InCatalog s.machine_types name
Has-InCatalog s name its all (it, i, n) =
    subst (InCatalog s.machine_types) n
      (All-In (λ (x : InstanceType). InCatalog s.machine_types x.name) i all)

module _ (p : DefaultProvider) (monitor : IsChangeMonitor p)
    (spec : IsGoCache instance_types_and_offerings_ttl p.instance_types) where
  Served-Exact :
      (now : ℕ) (o : Option Offering.DefaultProvider) (u : UnavailableOfferings)
      (c : StackitNodeClass) (s s' : State) (its : List InstanceType) (name : Text)
      → Reach p s
      → Refused p now u c s s' (ok its) ⊎ Served p now o u c s s' (ok its)
      → Has name its ↔ InCatalog s.machine_types name
  Served-Exact now o u c s s' its name reach (inl (e, same)) = cc e
  Served-Exact now none u c s s' its name reach (inr h) = absurd h
  Served-Exact now (some o) u c s s' its name reach (inr (raw, s1, e, full, er, es)) =
      let (listed, same) =
        list_types-Listed p spec now c s s1 raw (Reach-IsCoherent p monitor spec reach) e in
      let injected : its
          ≡ (inject_offerings o u now p.region raw (availability_zone_ids c) s1.offering).0 =
        cc er in
      (
        (λ has. Has-InCatalog s name raw listed.0 (
            inject_offerings-Has o u now p.region (availability_zone_ids c) name raw s1.offering
              (subst (Has name) injected has))),
        λ known. subst (Has name) (sym injected) (
            Has-inject_offerings o u now p.region (availability_zone_ids c) name raw s1.offering
              (listed.1 name known)),
      )

  -- With a cache and a change monitor that behave as documented, and whatever listings, cleanups,
  -- refreshes, reports of nodes and resets came before, in any order: a listing that succeeds, from
  -- the cache or afresh, has an instance type of a name exactly if the current catalog has a machine
  -- type of that name, and exactly then Get finds one of it.
  pub list_exact :
      {s : State} (now : ℕ) (o : Option Offering.DefaultProvider) (u : UnavailableOfferings)
      (c : StackitNodeClass) (its : List InstanceType) (s' : State) (name : Text)
      → Reach p s
      → list p now o u c s ≡ some (ok its, s')
      → (Has name its ↔ InCatalog s.machine_types name)
        × (Got p now o u c name s s' its ↔ InCatalog s.machine_types name)
  list_exact {s} now o u c its s' name reach h =
      let (sound, complete) =
        Served-Exact now o u c s s' its name reach (list_result p now u c s s' (ok its) o h) in
      let (got, has) = get_iff p now o u c name s s' its h in
      ((sound, complete), ((λ g. sound (got g)), λ known. has (complete known)))
