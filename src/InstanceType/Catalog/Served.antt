-- ===== src/InstanceType/Catalog/Served.antt =====
-- Every state that the provider can reach is coherent.
use karpenter_provider_stack.Prelude.{
  ◌≡◌, ◌⊎◌, inl, inr, refl, sym, subst, ◌∙◌, Bool, true, false, Option, none, some, List, [], ◌∷◌,
  Text, Map, lookup, All-map, here, ℕ, if◌then◌else◌, none-ne-some,
}
use karpenter_provider_stack.Errors.{ClientError, Err, client, plain, Result, ok, err}
use karpenter_provider_stack.Env.GoCache.{IsGoCache, Held, flush}
use karpenter_provider_stack.Apis.NodeClass.{StackitNodeClass, availability_zone_ids}
use karpenter_provider_stack.Apis.Core.{InstanceType, MachineType}
use karpenter_provider_stack.Cache.{instance_types_and_offerings_ttl}
use karpenter_provider_stack.Cache.Unavailable.{UnavailableOfferings}
use karpenter_provider_stack.Offering
use karpenter_provider_stack.Offering.{inject_offerings}
use karpenter_provider_stack.InstanceType.Catalog.{
  DefaultProvider, State, new_state, by_name, updated, reset, list, list_guarded, inject,
  list_types,
}
use karpenter_provider_stack.InstanceType.Catalog.Names.{
  InCatalog, Named, by_name_sound, by_name_complete, by_name_keyed,
}
use karpenter_provider_stack.InstanceType.Catalog.Coherence.{
  IsChangeMonitor, SameAsLast, LastNames, IsCoherent, Exact, Listed, list_types-Listed, Step,
  listed, evicted, refreshed, observed, reset_all, Reach, start, next,
}

pub new_state-IsCoherent : IsCoherent new_state
unfolding new_state lookup
new_state-IsCoherent = record {
  keyed = λ name m h. absurd (none-ne-some m h);
  last_shown = λ name h. absurd (none-ne-some h.0 h.1);
  synced = inl refl;
  uncached = λ key its e h. absurd h;
  cached = λ key its h. absurd h;
}

cons_ne : (e : Text × MachineType) (ms : Map MachineType) → ¬ (e ∷ ms ≡ [])
cons_ne e ms h = cc

LastNames-SameAsLast :
    (name : Text) (shown : List (List MachineType)) (v : List MachineType)
    → LastNames name shown
    → SameAsLast shown v
    → Named name v
LastNames-SameAsLast name [] v h k = absurd h
LastNames-SameAsLast name (last ∷ older) v (m, i, n) k = (m, (k m).0 i, n)

SameAsLast-LastNames :
    (name : Text) (shown : List (List MachineType)) (v : List MachineType)
    → Named name v
    → SameAsLast shown v
    → LastNames name shown
SameAsLast-LastNames name [] v h k = absurd k
SameAsLast-LastNames name (last ∷ older) v (m, i, n) k = (m, (k m).1 i, n)

-- List fails and leaves the state, or it serves what list_types gives of a catalog that is not
-- empty, with the offerings injected.
abbrev pub Served :
    DefaultProvider
    → ℕ
    → Option Offering.DefaultProvider
    → UnavailableOfferings
    → StackitNodeClass
    → State
    → State
    → Result Err (List InstanceType)
    → Type 0
Served p now none u c s s' r = ⊥
Served p now (some o) u c s s' r =
    (its : List InstanceType) × (s1 : State) × (list_types p now c s ≡ some (its, s1))
    × (¬ (s.machine_types ≡ []))
    × (r ≡ ok (inject_offerings o u now p.region its (availability_zone_ids c) s1.offering).0)
    × (s' ≡ record s1 {
      offering = (inject_offerings o u now p.region its (availability_zone_ids c) s1.offering).1;
    })

module _ (p : DefaultProvider) (now : ℕ) (u : UnavailableOfferings) (c : StackitNodeClass)
    (s s' : State) (r : Result Err (List InstanceType)) where
  abbrev pub Refused : Type 0
  Refused = (r ≡ err (client plain)) × (s' ≡ s)

  pub list_result :
      (o : Option Offering.DefaultProvider)
      → list p now o u c s ≡ some (r, s')
      → Refused ⊎ Served p now o u c s s' r
  unfolding list
  list_result none h = inl (cc h, cc h)
  list_result (some o) h = guarded s.machine_types (availability_zone_ids c) refl refl h
    where
      injected :
          (zones : List Text) (l : Option (List InstanceType × State))
          → availability_zone_ids c ≡ zones
          → list_types p now c s ≡ l
          → ¬ (s.machine_types ≡ [])
          → inject p now o u zones l ≡ some (r, s')
          → Refused ⊎ Served p now (some o) u c s s' r
      injected zones none z e full k = absurd (none-ne-some (r, s') k)
      injected zones (some (its, s1)) z e full k = inr (its, s1, e, full, rw z (cc k), rw z (cc k))

      guarded :
          (ms : Map MachineType) (zones : List Text)
          → s.machine_types ≡ ms
          → availability_zone_ids c ≡ zones
          → list_guarded p now o u ms zones c s ≡ some (r, s')
          → Refused ⊎ Served p now (some o) u c s s' r
      guarded [] zones e z k = inl (cc k, cc k)
      guarded (m ∷ ms) [] e z k = inl (cc k, cc k)
      guarded ((n, m) ∷ ms) (z ∷ zs) e ez k =
          injected (z ∷ zs) (list_types p now c s) ez refl (λ f. cons_ne (n, m) ms (sym e ∙ f)) k

module _ (p : DefaultProvider) (monitor : IsChangeMonitor p)
    (spec : IsGoCache instance_types_and_offerings_ttl p.instance_types) where
  module _ (s : State) (m : MachineType) (ms : List MachineType) (v : IsCoherent s)
      (e : p.has_changed s.shown (m ∷ ms) ≡ false) where
    names_kept : (name : Text) → InCatalog s.machine_types name → InCatalog (by_name (m ∷ ms)) name
    names_kept name old = by_name_complete name (m ∷ ms) (
        LastNames-SameAsLast name s.shown (m ∷ ms) (v.last_shown name old)
          (monitor s.shown (m ∷ ms) e))

    names_old :
        ((name : Text) → LastNames name s.shown → InCatalog s.machine_types name)
        → (name : Text) → InCatalog (by_name (m ∷ ms)) name
        → InCatalog s.machine_types name
    names_old synced name h = synced name (
        SameAsLast-LastNames name s.shown (m ∷ ms) (by_name_sound name (m ∷ ms) h)
          (monitor s.shown (m ∷ ms) e))

    kept_cache :
        (key : Text) (its : List InstanceType)
        → Held key its s.instance_types_cache
        → Exact (by_name (m ∷ ms)) its
    kept_cache key its h =
        let (sound, complete) = v.cached key its h in
        (
          All-map
              (λ (it : InstanceType) (old : InCatalog s.machine_types it.name).
                names_kept it.name old)
              its sound,
          elim v.synced [
            | inl empty ↦ absurd (v.uncached key its empty h)
            | inr synced ↦ λ name i. complete name (names_old synced name i)
          ],
        )

  -- A refresh keeps what the cache holds exact: either the cache is flushed, or the new catalog has
  -- the names of the old one.
  refreshed_cache :
      (s : State) (m : MachineType) (ms : List MachineType) (b : Bool)
      → IsCoherent s
      → p.has_changed s.shown (m ∷ ms) ≡ b
      → (key : Text) (its : List InstanceType)
      → Held key its (if b then flush ∷ s.instance_types_cache else s.instance_types_cache)
      → Exact (by_name (m ∷ ms)) its
  refreshed_cache s m ms true v e key its h = absurd h
  refreshed_cache s m ms false v e key its h = kept_cache s m ms v e key its h

  not_empty : (m : MachineType) (ms : List MachineType) → ¬ (by_name (m ∷ ms) ≡ [])
  unfolding lookup
  not_empty m ms e =
      let (x, h) = by_name_complete m.name (m ∷ ms) (m, here refl, refl) in
      none-ne-some x (subst (λ l. lookup m.name l ≡ some x) e h)

  updated-IsCoherent :
      (answer : Result ClientError (List MachineType)) (s : State)
      → IsCoherent s
      → IsCoherent (updated p answer s).1
  unfolding updated
  updated-IsCoherent (err e) s v = v
  updated-IsCoherent (ok []) s v = v
  updated-IsCoherent (ok (m ∷ ms)) s v = record {
    keyed = by_name_keyed (m ∷ ms);
    last_shown = λ name h. by_name_sound name (m ∷ ms) h;
    synced = inr (λ name h. by_name_complete name (m ∷ ms) h);
    uncached = λ key its e h. not_empty m ms e;
    cached =
        λ key its h. (refreshed_cache s m ms (p.has_changed s.shown (m ∷ ms)) v refl key its h);
  }

  stored-IsCoherent :
      (c : StackitNodeClass) (s s' : State) (its : List InstanceType)
      → ¬ (s.machine_types ≡ [])
      → IsCoherent s
      → Listed p c s its s'
      → IsCoherent s'
  stored-IsCoherent c s s' its full v (a, inl same) = subst IsCoherent (sym same) v
  stored-IsCoherent c s s' its full v (a, inr (now, same)) = subst IsCoherent (sym same) (record {
    keyed = v.keyed;
    last_shown = v.last_shown;
    synced = v.synced;
    uncached = λ key its' e h. full e;
    cached = λ key its' h. elim h [
      | inl (e, e') ↦ subst (Exact s.machine_types) e' a
      | inr (ne, old) ↦ v.cached key its' old
    ];
  })

  -- What List does to the state, beyond the offerings.
  with_offerings :
      (s : State) (o : Offering.State) → IsCoherent s → IsCoherent (record s { offering = o })
  with_offerings s o v = record {
    keyed = v.keyed;
    last_shown = v.last_shown;
    synced = v.synced;
    uncached = v.uncached;
    cached = v.cached;
  }

  Served-IsCoherent :
      (now : ℕ) (o : Option Offering.DefaultProvider) (u : UnavailableOfferings)
      (c : StackitNodeClass) (s s' : State) (r : Result Err (List InstanceType))
      → IsCoherent s
      → Served p now o u c s s' r
      → IsCoherent s'
  Served-IsCoherent now none u c s s' r v h = absurd h
  Served-IsCoherent now (some o) u c s s' r v (its, s1, e, full, er, es) =
      subst IsCoherent (sym es) (
        with_offerings s1 _
          (stored-IsCoherent c s s1 its full v (list_types-Listed p spec now c s s1 its v e)))

  list-IsCoherent :
      (now : ℕ) (o : Option Offering.DefaultProvider) (u : UnavailableOfferings)
      (c : StackitNodeClass) (s s' : State) (r : Result Err (List InstanceType))
      → IsCoherent s
      → list p now o u c s ≡ some (r, s')
      → IsCoherent s'
  list-IsCoherent now o u c s s' r v h = elim (list_result p now u c s s' r o h) [
    | inl (e, same) ↦ subst IsCoherent (sym same) v
    | inr served ↦ Served-IsCoherent now o u c s s' r v served
  ]

  reset-IsCoherent : (s : State) → IsCoherent (reset p s)
  unfolding reset lookup
  reset-IsCoherent s = record {
    keyed = λ name m h. absurd (none-ne-some m h);
    last_shown = λ name h. absurd (none-ne-some h.0 h.1);
    synced = inl refl;
    uncached = λ key its e h. absurd h;
    cached = λ key its h. absurd h;
  }

  Step-IsCoherent : {s s' : State} → IsCoherent s → Step p s s' → IsCoherent s'
  Step-IsCoherent {s} {s'} v (listed now o u c r h) = list-IsCoherent now o u c s s' r v h
  Step-IsCoherent {s} v (evicted now e) = subst IsCoherent (sym e) (record {
    keyed = v.keyed;
    last_shown = v.last_shown;
    synced = v.synced;
    uncached = v.uncached;
    cached = v.cached;
  })
  Step-IsCoherent {s} v (refreshed answer e) =
      subst IsCoherent (sym e) (updated-IsCoherent answer s v)
  Step-IsCoherent {s} v (observed now node c e) = subst IsCoherent (sym e) (record {
    keyed = v.keyed;
    last_shown = v.last_shown;
    synced = v.synced;
    uncached = v.uncached;
    cached = v.cached;
  })
  Step-IsCoherent {s} v (reset_all e) = subst IsCoherent (sym e) (reset-IsCoherent s)

  -- Every state that the provider can reach is coherent.
  pub Reach-IsCoherent : {s : State} → Reach p s → IsCoherent s
  Reach-IsCoherent start = new_state-IsCoherent
  Reach-IsCoherent (next r st) = Step-IsCoherent (Reach-IsCoherent r) st
