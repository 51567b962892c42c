-- ===== src/Offering/Withdrawn.antt =====
-- Offerings in a zone that is unavailable for a machine type, from the next pass over the instance
-- types on.
use karpenter_provider_stack.Prelude.{
  ℕ, ◌≡◌, ◌≢◌, ◌⊎◌, inl, inr, refl, sym, ap, subst, ◌∙◌, Bool, true, false, Bool-cases, not, Option,
  none, some, List, [], ◌∷◌, map, Text, str, text_eq, text_eq_refl, text_eq_sound, In, here, there,
  ◌==◌, arith,
}
use mathlib.Core.List.{append_cancel_right}
use karpenter_provider_stack.Prelude.Float.{Float64}
use karpenter_provider_stack.Env.GoCache.{IsGoCache}
use karpenter_provider_stack.Env.Karpenter.{Karpenter, IsKarpenter}
use karpenter_provider_stack.Apis.LabelKeys.{
  label_topology_zone, label_topology_region, label_capacity_type,
}
use karpenter_provider_stack.Apis.Core.{Requirements, Offering, InstanceType}
use karpenter_provider_stack.Cache.{instance_types_and_offerings_ttl}
use karpenter_provider_stack.Cache.Unavailable.{
  UnavailableOfferings, seq_num, seq_at, is_unavailable,
}
use karpenter_provider_stack.Cache.Unavailable.Marks.{seq_at-insert}
use karpenter_provider_stack.Utils.Zone.{sanitize_zone}
use karpenter_provider_stack.Offering.{
  State, DefaultProvider, cache_key, served, build, rebuild, zone_offering, create_offerings,
  inject_offerings,
}

-- A key names its machine type.
cache_key_name :
    (p : DefaultProvider) (region : Text) (a b : InstanceType) (zones : List Text)
    → cache_key p region a zones ≡ cache_key p region b zones
    → a.name ≡ b.name
unfolding cache_key
cache_key_name p region a b zones h = append_cancel_right a.name b.name _ h

cache_key_cong :
    (p : DefaultProvider) (region : Text) (a b : InstanceType) (zones : List Text)
    → a.name ≡ b.name
    → cache_key p region a zones ≡ cache_key p region b zones
unfolding cache_key
cache_key_cong p region a b zones h = rw h refl

distinct_keys :
    (text_eq label_topology_region label_topology_zone ≡ false)
    × (text_eq label_capacity_type label_topology_zone ≡ false)
unfolding str text_eq
distinct_keys = (refl, refl)

module _ (k : Karpenter) (offering_compatible : Offering → Requirements → Bool)
    (karpenter : IsKarpenter k offering_compatible) (p : DefaultProvider)
    (spec : IsGoCache instance_types_and_offerings_ttl p.offerings) (u : UnavailableOfferings)
    (now : ℕ) (region name z : Text) (zones : List Text)
    (out : is_unavailable p.unavailable u now name z ≡ true) where
  open spec use {get-set_self, get-set_ne}

  -- No offering of the list is available in the zone.
  abbrev pub Withdrawn : List Offering → Type 0
  Withdrawn os =
      (x : Offering)
      → In x os
      → x.available ≡ true
      → k.any_value x.requirements label_topology_zone ≢ z

  zone_offering-zone :
      (n : Text) (price : Float64) (zone : Text)
      → k.any_value (zone_offering p u now region n price zone).requirements label_topology_zone
        ≡ sanitize_zone zone
  unfolding zone_offering
  zone_offering-zone n price zone =
      let (a, b) = distinct_keys in
      karpenter.any_value_single _ _ (sanitize_zone zone) refl (a, (b, tt))

  zone_offering-out :
      (price : Float64) (zone : Text)
      → (zone_offering p u now region name price zone).available ≡ true
      → k.any_value (zone_offering p u now region name price zone).requirements label_topology_zone
        ≢ z
  zone_offering-out price zone a h =
      not_out (sanitize_zone zone) (sym (zone_offering-zone name price zone) ∙ h)
        (unfold zone_offering in a)
    where
      not_out : (s : Text) → s ≡ z → ¬ (not (is_unavailable p.unavailable u now name s) ≡ true)
      not_out s e =
          subst (λ (y : Text). ¬ (not (is_unavailable p.unavailable u now name y) ≡ true)) (sym e)
            (rw out (λ f. cc f))

  offerings-Withdrawn :
      (price : Float64) (zs : List Text)
      → Withdrawn (map (zone_offering p u now region name price) zs)
  offerings-Withdrawn price [] x i a = elim i [ ]
  offerings-Withdrawn price (zone ∷ zs) x (here e) a =
      subst
        (λ (y : Offering). y.available ≡ true → k.any_value y.requirements label_topology_zone ≢ z)
        e (zone_offering-out price zone) a
  offerings-Withdrawn price (zone ∷ zs) x (there i) a = offerings-Withdrawn price zs x i a

  build-Withdrawn : (it : InstanceType) → it.name ≡ name → Withdrawn (build p u now region it zones)
  unfolding build
  build-Withdrawn it e =
      subst
        (λ n. Withdrawn (elim (p.price n) as (λ _. List Offering) [
          | none ↦ []
          | some price ↦ map (zone_offering p u now region n price) zones
        ]))
        (sym e) (priced (p.price name))
    where
      priced :
          (r : Option Float64)
          → Withdrawn (elim r as (λ _. List Offering) [
            | none ↦ []
            | some price ↦ map (zone_offering p u now region name price) zones
          ])
      priced none = λ x i a. elim i [ ]
      priced (some price) = offerings-Withdrawn price zones

  -- What the offerings' state may hold of the machine type: offerings that are out of date, or are
  -- withdrawn.
  abbrev pub Outdated : State → Type 0
  Outdated s = seq_at s.last_seq_num name ≢ seq_num u name

  abbrev pub Ready : State → Type 0
  Ready s =
      Outdated s
      ⊎ ((it : InstanceType) (os : List Offering)
          → it.name ≡ name
          → p.offerings.get s.cache now (cache_key p region it zones) ≡ some os
          → Withdrawn os)

  -- What a turn leaves: withdrawn offerings, if it is about the machine type.
  abbrev Turned : InstanceType → List Offering × State → Type 0
  Turned it r = (it.name ≡ name → Withdrawn r.0) × Ready r.1

  apart :
      (it it' : InstanceType)
      → text_eq it.name name ≡ false
      → it'.name ≡ name
      → text_eq (cache_key p region it zones) (cache_key p region it' zones) ≡ false
  apart it it' other e =
      elim (Bool-cases (text_eq (cache_key p region it zones) (cache_key p region it' zones))) [
        | inl same ↦
            let n : it.name ≡ name =
              cache_key_name p region it it' zones (text_eq_sound _ _ same) ∙ e in
            cc (rw n at other, text_eq_refl name)
        | inr differ ↦ differ
      ]

  rebuild-Ready :
      (it : InstanceType) (s : State) → Ready s → Ready (rebuild p u now region it zones s).1
  unfolding rebuild
  rebuild-Ready it s ready = elim (Bool-cases (text_eq it.name name)) [
    | inl same ↦ inr (λ it' os e h.
        let n = text_eq_sound it.name name same in
        let k' : cache_key p region it zones ≡ cache_key p region it' zones =
          cache_key_cong p region it it' zones (n ∙ sym e) in
        let kept : some (build p u now region it zones) ≡ some os =
          sym (
            get-set_self s.cache now now (cache_key p region it zones)
              (build p u now region it zones) (omega arith) (omega arith))
          ∙ ap (λ key. p.offerings.get (rebuild p u now region it zones s).1.cache now key) k'
          ∙ h in
        subst Withdrawn (cc kept) (build-Withdrawn it n))
    | inr other ↦ elim ready [
      | inl o ↦ inl (λ e. o (
          sym (rw (seq_at-insert it.name name (seq_num u it.name) s.last_seq_num, other) refl) ∙ e))
      | inr f ↦ inr (λ it' os e h. f it' os e (
          sym (
            get-set_ne s.cache now now (cache_key p region it zones) (cache_key p region it' zones)
              (build p u now region it zones) (apart it it' other e))
          ∙ h))
    ]
  ]

  rebuild-Turned :
      (it : InstanceType) (s : State) → Ready s → Turned it (rebuild p u now region it zones s)
  rebuild-Turned it s ready =
      ((λ e. unfold rebuild in build-Withdrawn it e), rebuild-Ready it s ready)

  create_offerings-Turned :
      (it : InstanceType) (s : State)
      → Ready s
      → Turned it (create_offerings p u now region it zones s)
  unfolding create_offerings
  create_offerings-Turned it s ready =
      by_cache (p.offerings.get s.cache now (cache_key p region it zones)) refl
        (seq_at s.last_seq_num it.name == seq_num u it.name) refl
    where
      by_cache :
          (r : Option (List Offering))
          → p.offerings.get s.cache now (cache_key p region it zones) ≡ r
          → (same : Bool) → (seq_at s.last_seq_num it.name == seq_num u it.name) ≡ same
          → Turned it (served r same (rebuild p u now region it zones s) s)
      by_cache none e same q = rebuild-Turned it s ready
      by_cache (some os) e false q = rebuild-Turned it s ready
      by_cache (some os) e true q = (
        (λ n. elim ready [
          | inl o ↦
              absurd (o (subst (λ m. seq_at s.last_seq_num m ≡ seq_num u m) n (ground (arith, q))))
          | inr f ↦ f it os n e
        ]),
        ready,
      )

  -- If the machine type is out of rotation in the zone, and the offerings' state holds none of it
  -- that are up to date and yet not withdrawn: no instance type of that name that a pass over the
  -- instance types gives has an available offering in the zone.
  pub inject_offerings-Withdrawn :
      (its : List InstanceType) (s : State) (it : InstanceType)
      → Ready s
      → In it (inject_offerings p u now region its zones s).0
      → it.name ≡ name
      → Withdrawn it.offerings
  unfolding inject_offerings
  inject_offerings-Withdrawn [] s it ready i e = elim i [ ]
  inject_offerings-Withdrawn (x ∷ its) s it ready (here h) e =
      subst (λ (y : InstanceType). y.name ≡ name → Withdrawn y.offerings) h
        (create_offerings-Turned x s ready).0 e
  inject_offerings-Withdrawn (x ∷ its) s it ready (there i) e =
      inject_offerings-Withdrawn its (create_offerings p u now region x zones s).1 it
        (create_offerings-Turned x s ready).1 i e
