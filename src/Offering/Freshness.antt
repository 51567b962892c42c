-- ===== src/Offering/Freshness.antt =====
-- When the served offerings reflect the current availability, and when they do not.
use karpenter_provider_stack.Prelude.{
  ℕ, ◌+◌, ◌≤◌, ◌<◌, ◌≡◌, ◌≢◌, ◌⊎◌, inl, inr, refl, sym, ap, subst, Bool, Bool-cases, true, false,
  In, here, there, [], ◌∷◌, text_eq_sound, Option, none, some, List, Text, text_eq, text_eq_refl,
  ◌==◌, ==_iff, arith,
}
use karpenter_provider_stack.Env.GoCache.{IsGoCache}
use karpenter_provider_stack.Apis.Core.{Offering, InstanceType}
use karpenter_provider_stack.Cache.{instance_types_and_offerings_ttl}
use karpenter_provider_stack.Cache.Unavailable.{UnavailableOfferings, seq_num, seq_at}
use karpenter_provider_stack.Cache.Unavailable.Marks.{seq_at-insert}
use karpenter_provider_stack.Offering.{
  State, DefaultProvider, cache_key, served, build, rebuild, create_offerings, inject_offerings,
}

not_same : (a b : ℕ) → a ≢ b → (a == b) ≡ false
not_same a b h = ground arith

served_moved :
    (cached : Option (List Offering)) (fresh : List Offering × State) (s : State)
    → served cached false fresh s ≡ fresh
served_moved none fresh s = refl
served_moved (some c) fresh s = refl

module _ (p : DefaultProvider) (spec : IsGoCache instance_types_and_offerings_ttl p.offerings)
    (region : Text) where
  open spec use {get-set_self, get-set_ne}

  -- Whenever the sequence number of the machine type has moved since its offerings were last built,
  -- they are built from the current availability and prices.
  pub create_offerings_moved :
      (u : UnavailableOfferings) (now : ℕ) (it : InstanceType) (zones : List Text) (s : State)
      → seq_at s.last_seq_num it.name ≢ seq_num u it.name
      → create_offerings p u now region it zones s ≡ rebuild p u now region it zones s
  unfolding create_offerings
  create_offerings_moved u now it zones s h =
      rw (not_same (seq_at s.last_seq_num it.name) (seq_num u it.name) h) (served_moved _ _ s)

  -- Offerings just built are served again, unchanged, while their time to live lasts and the
  -- sequence number stays.
  pub create_offerings_cached :
      (u u' : UnavailableOfferings) (now t : ℕ) (it : InstanceType) (zones : List Text) (s : State)
      → now ≤ t
      → t < now + instance_types_and_offerings_ttl
      → seq_num u' it.name ≡ seq_num u it.name
      → let built = rebuild p u now region it zones s in
        create_offerings p u' t region it zones built.1 ≡ built
  unfolding create_offerings rebuild
  create_offerings_cached u u' now t it zones s h l e =
      let seq = seq_num u it.name in
      rw (
        get-set_self s.cache now t (cache_key p region it zones) (build p u now region it zones) h
            l,
        seq_at-insert it.name it.name seq s.last_seq_num,
        text_eq_refl it.name,
        (==_iff seq (seq_num u' it.name)).1 (sym e),
      )

  -- The sequence number is kept for the machine type, and the offerings for the machine type and
  -- the zones. So after availability has moved, building the offerings for one list of zones makes
  -- the next call for another list, if it has another key and its old offerings are still cached,
  -- serve those, where without the first call it would have built them anew.
  pub create_offerings_stale :
      (u : UnavailableOfferings) (now : ℕ) (it : InstanceType) (zones zones' : List Text)
      (old : List Offering) (s : State)
      → seq_at s.last_seq_num it.name ≢ seq_num u it.name
      → text_eq (cache_key p region it zones) (cache_key p region it zones') ≡ false
      → p.offerings.get s.cache now (cache_key p region it zones') ≡ some old
      → let s' = (create_offerings p u now region it zones s).1 in
        ((create_offerings p u now region it zones' s).0 ≡ build p u now region it zones')
        × ((create_offerings p u now region it zones' s').0 ≡ old)
  create_offerings_stale u now it zones zones' old s h ne e = (
    rw (create_offerings_moved u now it zones' s h) (unfold rebuild in refl),
    rw (create_offerings_moved u now it zones s h) (stale e),
  )
    where
      stale :
          p.offerings.get s.cache now (cache_key p region it zones') ≡ some old
          → (create_offerings p u now region it zones' (rebuild p u now region it zones s).1).0
            ≡ old
      stale e =
          let seq = seq_num u it.name in
          unfold create_offerings rebuild in
          rw (
            get-set_ne s.cache now now (cache_key p region it zones) (cache_key p region it zones')
                (build p u now region it zones) ne,
            e,
            seq_at-insert it.name it.name seq s.last_seq_num,
            text_eq_refl it.name,
            (==_iff seq seq).1 refl,
          )

-- What a pass leaves of the sequence numbers.
module _ (p : DefaultProvider) (u : UnavailableOfferings) (now : ℕ) (region : Text)
    (zones : List Text) where
  -- The machine type's offerings were last built for its sequence number.
  abbrev pub Current : Text → State → Type 0
  Current name s = seq_at s.last_seq_num name ≡ seq_num u name

  rebuild-Current :
      (it : InstanceType) (s : State) (name : Text)
      → (text_eq it.name name ≡ true) ⊎ Current name s
      → Current name (rebuild p u now region it zones s).1
  unfolding rebuild
  rebuild-Current it s name h = elim (Bool-cases (text_eq it.name name)) [
    | inl same ↦
        rw (seq_at-insert it.name name (seq_num u it.name) s.last_seq_num, same)
          (ap (seq_num u) (text_eq_sound it.name name same))
    | inr other ↦
        rw (seq_at-insert it.name name (seq_num u it.name) s.last_seq_num, other)
          (elim h [ inl same ↦ cc | inr current ↦ current ])
  ]

  create_offerings-Current :
      (it : InstanceType) (s : State) (name : Text)
      → (text_eq it.name name ≡ true) ⊎ Current name s
      → Current name (create_offerings p u now region it zones s).1
  unfolding create_offerings
  create_offerings-Current it s name h =
      by_cache (p.offerings.get s.cache now (cache_key p region it zones))
        (seq_at s.last_seq_num it.name == seq_num u it.name) refl
    where
      by_cache :
          (r : Option (List Offering)) (same : Bool)
          → (seq_at s.last_seq_num it.name == seq_num u it.name) ≡ same
          → Current name (served r same (rebuild p u now region it zones s) s).1
      by_cache none same q = rebuild-Current it s name h
      by_cache (some os) false q = rebuild-Current it s name h
      by_cache (some os) true q = elim h [
        | inl same ↦ subst (λ n. Current n s) (text_eq_sound it.name name same) (ground (arith, q))
        | inr current ↦ current
      ]

  inject_offerings_keeps :
      (its : List InstanceType) (s : State) (name : Text)
      → Current name s
      → Current name (inject_offerings p u now region its zones s).1
  unfolding inject_offerings
  inject_offerings_keeps [] s name h = h
  inject_offerings_keeps (it ∷ its) s name h =
      inject_offerings_keeps its (create_offerings p u now region it zones s).1 name
        (create_offerings-Current it s name (inr h))

  -- After a pass over the instance types, the offerings of each of them are for its sequence number.
  pub inject_offerings-Current :
      (its : List InstanceType) (s : State) (it : InstanceType)
      → In it (inject_offerings p u now region its zones s).0
      → Current it.name (inject_offerings p u now region its zones s).1
  unfolding inject_offerings
  inject_offerings-Current [] s it i = elim i [ ]
  inject_offerings-Current (x ∷ its) s it (here e) =
      subst
        (λ (y : InstanceType). Current y.name (inject_offerings p u now region (x ∷ its) zones s).1)
        e
        (inject_offerings_keeps its (create_offerings p u now region x zones s).1 x.name
          (create_offerings-Current x s x.name (inl (text_eq_refl x.name))))
  inject_offerings-Current (x ∷ its) s it (there i) =
      inject_offerings-Current its (create_offerings p u now region x zones s).1 it i
