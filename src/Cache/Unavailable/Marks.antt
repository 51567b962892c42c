-- ===== src/Cache/Unavailable/Marks.antt =====
-- What marking an offering or a zone does to availability and to the sequence numbers.
use karpenter_provider_stack.Prelude.{
  ℕ, ◌+◌, ◌%◌, ◌≤◌, ◌<◌, ◌≡◌, ◌≢◌, true, false, some, Text, text_eq, text_eq_refl, text_eq_sound,
  ◌⊎◌, inl, inr, ◌∷◌, Map, insert, lookup-insert, cut_byte, cut_byte-append, has_byte, arith,
  if◌then◌else◌, ap, Bool-cases,
}
use karpenter_provider_stack.Env.GoCache.{GoCache, IsGoCache, set_default}
use karpenter_provider_stack.Cache.{unavailable_offerings_ttl}
use karpenter_provider_stack.Cache.Unavailable.{
  UnavailableOfferings, key, seq_at, u64, bump_seq, bump_zone_seq, on_offering_evicted, seq_num,
  mark_unavailable, mark_zone_unavailable, is_unavailable,
}

-- Keys of different pairs differ, if machine type names have no colon.
key_injective :
    (mt z mt' z' : Text)
    → has_byte b':' mt ≡ false
    → has_byte b':' mt' ≡ false
    → key mt z ≡ key mt' z'
    → (mt ≡ mt') × (z ≡ z')
unfolding key
key_injective mt z mt' z' h h' e =
    ground
      (arith, cut_byte-append b':' mt z h, cut_byte-append b':' mt' z' h', ap (cut_byte b':') e)

pub keys_differ :
    (mt z mt' z' : Text)
    → has_byte b':' mt ≡ false
    → has_byte b':' mt' ≡ false
    → ¬ ((mt ≡ mt') × (z ≡ z'))
    → text_eq (key mt z) (key mt' z') ≡ false
keys_differ mt z mt' z' h h' ne = elim (Bool-cases (text_eq (key mt z) (key mt' z'))) [
  | inl same ↦ absurd (ne (key_injective mt z mt' z' h h' (text_eq_sound _ _ same)))
  | inr other ↦ other
]

add_mod : (a z : ℕ) → ((a + 1) % u64 + z) % u64 ≡ ((a + z) % u64 + 1) % u64
add_mod a z = omega arith

pub seq_at-insert :
    (k j : Text) (n : ℕ) (m : Map ℕ)
    → seq_at (insert k n m) j ≡ (if text_eq k j then n else seq_at m j)
unfolding seq_at
seq_at-insert k j n m = ground (arith, lookup-insert k j n m)

seq_at_same : (k j : Text) (m : Map ℕ) → text_eq k j ≡ true → seq_at m k ≡ seq_at m j
seq_at_same k j m h = ap (seq_at m) (text_eq_sound k j h)

seq_num-bump_seq :
    (u : UnavailableOfferings) (mt j : Text)
    → seq_num (bump_seq mt u) j ≡ (if text_eq mt j then (seq_num u j + 1) % u64 else seq_num u j)
unfolding seq_num bump_seq
seq_num-bump_seq u mt j =
    let m = u.offering_cache_seq_num in
    ground (
      arith,
      seq_at-insert mt j ((seq_at m mt + 1) % u64) m,
      seq_at_same mt j m,
      add_mod (seq_at m j) u.zone_cache_seq_num,
    )

seq_num-mark_unavailable :
    (u : UnavailableOfferings) (now : ℕ) (mt z j : Text)
    → seq_num (mark_unavailable now mt z u) j
      ≡ (if text_eq mt j then (seq_num u j + 1) % u64 else seq_num u j)
unfolding mark_unavailable seq_num
seq_num-mark_unavailable u now mt z j =
    unfold seq_num in
    seq_num-bump_seq
      (record u { offering_cache = set_default now (key mt z) tt ∷ u.offering_cache }) mt j

seq_num-mark_zone_unavailable :
    (u : UnavailableOfferings) (now : ℕ) (z j : Text)
    → seq_num (mark_zone_unavailable now z u) j ≡ (seq_num u j + 1) % u64
unfolding mark_zone_unavailable seq_num bump_zone_seq
seq_num-mark_zone_unavailable u now z j = omega arith

-- A sequence number that is stepped is another one.
step_differs : (n : ℕ) → n < u64 → (n + 1) % u64 ≢ n
step_differs n h e = omega arith

seq_num-lt : (u : UnavailableOfferings) (j : Text) → seq_num u j < u64
unfolding seq_num
seq_num-lt u j = omega arith

module _ (lib : GoCache (Unit {0})) (spec : IsGoCache unavailable_offerings_ttl lib) where
  open spec use {get-set_self, get-set_ne}

  -- From the moment an offering is marked until its time to live is over, it is unavailable; the
  -- sequence number of its machine type, and of no other, moves to another value.
  pub mark_unavailable_lem :
      (u : UnavailableOfferings) (now t : ℕ) (mt z j : Text)
      → now ≤ t
      → t < now + unavailable_offerings_ttl
      → let u' = mark_unavailable now mt z u in
        (is_unavailable lib u' t mt z ≡ true)
        × (seq_num u' mt ≢ seq_num u mt)
        × ((text_eq mt j ≡ true) ⊎ (seq_num u' j ≡ seq_num u j))
  mark_unavailable_lem u now t mt z j h l = (
    unfold is_unavailable mark_unavailable bump_seq in
        rw (get-set_self u.offering_cache now t (key mt z) tt h l),
    λ e.
        step_differs (seq_num u mt) (seq_num-lt u mt)
          (ground (arith, seq_num-mark_unavailable u now mt z mt, text_eq_refl mt)),
    elim (Bool-cases (text_eq mt j)) [
      | inl same ↦ inl same
      | inr other ↦ inr (ground (arith, seq_num-mark_unavailable u now mt z j))
    ],
  )

  -- For machine types without a colon in their names: marking one pair of machine type and zone
  -- leaves the availability of every other pair as it was.
  pub mark_unavailable_other :
      (u : UnavailableOfferings) (now t : ℕ) (mt z mt' z' : Text)
      → has_byte b':' mt ≡ false
      → has_byte b':' mt' ≡ false
      → ¬ ((mt ≡ mt') × (z ≡ z'))
      → is_unavailable lib (mark_unavailable now mt z u) t mt' z' ≡ is_unavailable lib u t mt' z'
  unfolding is_unavailable mark_unavailable bump_seq
  mark_unavailable_other u now t mt z mt' z' h h' ne = rw (
      get-set_ne u.offering_cache now t (key mt z) (key mt' z') tt
        (keys_differ mt z mt' z' h h' ne))

  -- Marking a zone makes every machine type unavailable in it, moves every sequence number, and
  -- leaves the other zones as they were.
  pub mark_zone_unavailable_lem :
      (u : UnavailableOfferings) (now t : ℕ) (z mt z' : Text)
      → now ≤ t
      → t < now + unavailable_offerings_ttl
      → let u' = mark_zone_unavailable now z u in
        (is_unavailable lib u' t mt z ≡ true)
        × (seq_num u' mt ≢ seq_num u mt)
        × ((text_eq z z' ≡ true) ⊎ (is_unavailable lib u' t mt z' ≡ is_unavailable lib u t mt z'))
  mark_zone_unavailable_lem u now t z mt z' h l = (
    unfold is_unavailable mark_zone_unavailable bump_zone_seq in
        ground (arith, get-set_self u.zone_cache now t z tt h l),
    λ e.
        step_differs (seq_num u mt) (seq_num-lt u mt)
          (ground (arith, seq_num-mark_zone_unavailable u now z mt)),
    elim (Bool-cases (text_eq z z')) [
      | inl same ↦ inl same
      | inr other ↦ inr (
          unfold is_unavailable mark_zone_unavailable bump_zone_seq in
          rw (get-set_ne u.zone_cache now t z z' tt other))
    ],
  )

-- When an entry that a mark made is evicted, for a machine type without a colon in its name, the
-- callback steps the sequence number of that machine type and does not panic.
pub on_offering_evicted_lem :
    (u : UnavailableOfferings) (mt z : Text)
    → has_byte b':' mt ≡ false
    → (u' : UnavailableOfferings) × (on_offering_evicted (key mt z) u ≡ some u')
      × (seq_num u' mt ≡ (seq_num u mt + 1) % u64)
on_offering_evicted_lem u mt z h = (
  bump_seq mt u,
  unfold on_offering_evicted key in ground (arith, cut_byte-append b':' mt z h),
  ground (arith, seq_num-bump_seq u mt mt, text_eq_refl mt),
)
