-- ===== src/Cache/Unavailable/Keys.antt =====
-- The keys of the offering cache, and the callbacks of its evictions.
use karpenter_provider_stack.Prelude.{
  ℕ, ◌≡◌, inl, inr, refl, true, false, ◌==◌, Bool-cases, some, List, [], ◌∷◌, Text, text_eq,
  text_eq_sound, text_eq_refl, has_byte, has_byte-append, cut_byte, All, arith,
}
use karpenter_provider_stack.Cache.Unavailable.{
  UnavailableOfferings, key, evict_each, evict_zones, on_offering_evicted, bump_seq, bump_zone_seq,
}
use karpenter_provider_stack.Cache.Unavailable.Marks.{keys_differ}
use karpenter_provider_stack.Cache.Unavailable.Spec.{NoColon, same_pair}

-- The keys of two pairs are the same text exactly if the pairs are the same.
pub text_eq-key :
    (mt z mt' z' : Text)
    → NoColon mt
    → NoColon mt'
    → text_eq (key mt z) (key mt' z') ≡ same_pair mt z mt' z'
text_eq-key mt z mt' z' h h' = elim (Bool-cases (same_pair mt z mt' z')) [
  | inl same ↦ rw same (equal same)
  | inr other ↦ rw other (keys_differ mt z mt' z' h h' (differ other))
]
  where
    equal : same_pair mt z mt' z' ≡ true → text_eq (key mt z) (key mt' z') ≡ true
    equal e =
        let a : text_eq mt mt' ≡ true = ground arith in
        let b : text_eq z z' ≡ true = ground arith in
        rw (text_eq_sound mt mt' a, text_eq_sound z z' b) (text_eq_refl (key mt' z'))

    differ : same_pair mt z mt' z' ≡ false → ¬ ((mt ≡ mt') × (z ≡ z'))
    differ e p =
        let a : text_eq mt mt' ≡ true = rw (p.0) (text_eq_refl mt') in
        let b : text_eq z z' ≡ true = rw (p.1) (text_eq_refl z') in ground arith

pub has_byte-key : (mt z : Text) → has_byte b':' (key mt z) ≡ true
unfolding key has_byte
has_byte-key mt z = ground (arith, has_byte-append b':' mt (b':' ∷ z))

-- A key with a colon does not make the callback panic, which leaves the caches alone.
pub cut_byte-found :
    (c : ℕ) (s : Text) → has_byte c s ≡ true → (p : Text × Text) × (cut_byte c s ≡ some p)
unfolding cut_byte has_byte
cut_byte-found c [] h = cc
cut_byte-found c (x ∷ s) h = elim (Bool-cases (x == c)) [
  | inl same ↦ (([], s), ground arith)
  | inr other ↦ (let (p, e) = cut_byte-found c s (ground arith) in ((x ∷ p.0, p.1), ground arith))
]

abbrev pub SameCaches : UnavailableOfferings → UnavailableOfferings → Type 0
SameCaches u u' = (u'.offering_cache ≡ u.offering_cache) × (u'.zone_cache ≡ u.zone_cache)

pub on_offering_evicted-SameCaches :
    (k : Text) (u : UnavailableOfferings)
    → has_byte b':' k ≡ true
    → (u' : UnavailableOfferings) × (on_offering_evicted k u ≡ some u') × SameCaches u u'
unfolding on_offering_evicted bump_seq
on_offering_evicted-SameCaches k u h =
    let (p, e) = cut_byte-found b':' k h in
    (bump_seq p.0 u, rw (on_offering_evicted, e) refl, (refl, refl))

pub evict_each-SameCaches :
    (ks : List Text) (u : UnavailableOfferings)
    → All (λ k. has_byte b':' k ≡ true) ks
    → (u' : UnavailableOfferings) × (evict_each ks u ≡ some u') × SameCaches u u'
unfolding evict_each
evict_each-SameCaches [] u h = (u, refl, (refl, refl))
evict_each-SameCaches (k ∷ ks) u h =
    let (u1, e1, (o1, z1)) = on_offering_evicted-SameCaches k u h.0 in
    let (u2, e2, (o2, z2)) = evict_each-SameCaches ks u1 h.1 in
    (u2, rw (evict_each, e1) e2, (rw o2 o1, rw z2 z1))

pub evict_zones-SameCaches :
    (zs : List Text) (u : UnavailableOfferings) → SameCaches u (evict_zones zs u)
unfolding bump_zone_seq
evict_zones-SameCaches [] u = (refl, refl)
evict_zones-SameCaches (z ∷ zs) u = evict_zones-SameCaches zs (bump_zone_seq u)
