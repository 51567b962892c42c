-- ===== src/Env/GoCache.antt =====
-- github.com/patrickmn/go-cache: a map with a default time to live. A cache is the history of the
-- operations on it, newest first; what the library answers is a function of that history.
use karpenter_provider_stack.Prelude.{
  ℕ, ◌+◌, ◌≤◌, ◌<◌, ◌≡◌, ◌⊎◌, inl, inr, refl, Bool, Bool-cases, none-ne-some, true, false, Option,
  none, some, List, [], ◌∷◌, Text, text_eq, text_eq_refl, ltb, All, if◌then◌else◌, arith,
}

-- `evict now` is a run of the cleanup, which drops the entries that have expired.
pub data CacheOp (V : Type 0) : Type 0 where
  set_default : ℕ → Text → V → CacheOp V
  delete : Text → CacheOp V
  flush : CacheOp V
  evict : ℕ → CacheOp V

abbrev pub History : Type 0 → Type 0
History V = List (CacheOp V)

-- `get ops now k`; `holds ops k` tells whether a Delete of `k` finds an entry, so that OnEvicted is
-- called; `expired ops now` are the keys that a cleanup evicts.
pub record GoCache (V : Type 0) : Type 0 where
  pub get : History V → ℕ → Text → Option V
  pub holds : History V → Text → Bool
  pub expired : History V → ℕ → List Text

-- The entry that a key has, if none expires: set under the key, and neither deleted nor flushed since.
abbrev pub Held : {V : Type 0} → Text → V → History V → Type 0
Held k v [] = ⊥
Held k v (set_default now j w ∷ ops) =
    ((text_eq j k ≡ true) × (w ≡ v)) ⊎ ((text_eq j k ≡ false) × Held k v ops)
Held k v (delete j ∷ ops) = (text_eq j k ≡ false) × Held k v ops
Held k v (flush ∷ ops) = ⊥
Held k v (evict now ∷ ops) = Held k v ops

-- The documented behaviour that proofs rely on, for a cache whose default time to live is `ttl`.
pub record IsGoCache {V : Type 0} (ttl : ℕ) (c : GoCache V) : Type 0 where
  pub get-set_self :
      (ops : History V) (now t : ℕ) (k : Text) (v : V)
      → now ≤ t
      → t < now + ttl
      → c.get (set_default now k v ∷ ops) t k ≡ some v
  pub get-set_expired :
      (ops : History V) (now t : ℕ) (k : Text) (v : V)
      → now + ttl < t
      → c.get (set_default now k v ∷ ops) t k ≡ none
  pub get_sound :
      (ops : History V) (t : ℕ) (k : Text) (v : V) → c.get ops t k ≡ some v → Held k v ops
  pub expired_sound :
      (ops : History V) (now : ℕ) → All (λ (k : Text). (v : V) × Held k v ops) (c.expired ops now)
  pub get-set_ne :
      (ops : History V) (now t : ℕ) (k j : Text) (v : V)
      → text_eq k j ≡ false
      → c.get (set_default now k v ∷ ops) t j ≡ c.get ops t j
  pub get-delete_self : (ops : History V) (t : ℕ) (k : Text) → c.get (delete k ∷ ops) t k ≡ none
  pub get-delete_ne :
      (ops : History V) (t : ℕ) (k j : Text)
      → text_eq k j ≡ false
      → c.get (delete k ∷ ops) t j ≡ c.get ops t j
  pub get-flush : (ops : History V) (t : ℕ) (k : Text) → c.get (flush ∷ ops) t k ≡ none
  pub get-evict :
      (ops : History V) (now t : ℕ) (k : Text)
      → now ≤ t
      → c.get (evict now ∷ ops) t k ≡ c.get ops t k

-- A cache that behaves so: it looks for the newest operation on the key.
abbrev simple_get : {V : Type 0} → ℕ → History V → ℕ → Text → Option V
simple_get ttl [] t k = none
simple_get ttl (set_default now j v ∷ ops) t k =
    let older = simple_get ttl ops t k in
    if text_eq j k then (if ltb t (now + ttl) then some v else none) else older
simple_get ttl (delete j ∷ ops) t k =
    let older = simple_get ttl ops t k in if text_eq j k then none else older
simple_get ttl (flush ∷ ops) t k = none
simple_get ttl (evict now ∷ ops) t k = simple_get ttl ops t k

abbrev pub simple_cache : {V : Type 0} → ℕ → GoCache V
simple_cache ttl = record {
  get = simple_get ttl;
  holds = λ ops k. elim (simple_get ttl ops 0 k) [ none ↦ false | some v ↦ true ];
  expired = λ ops now. [];
}

lt→ltb : (a b : ℕ) → a < b → ltb a b ≡ true
lt→ltb a b h = ground arith

simple_get_sound :
    {V : Type 0} (ttl : ℕ) (ops : History V) (t : ℕ) (k : Text) (v : V)
    → simple_get ttl ops t k ≡ some v
    → Held k v ops
simple_get_sound ttl [] t k v h = cc
simple_get_sound ttl (set_default now j w ∷ ops) t k v h = elim (Bool-cases (text_eq j k)) [
  | inl same ↦ inl (same, in_time (ltb t (now + ttl)) (rw same at h))
  | inr other ↦ inr (other, simple_get_sound ttl ops t k v (rw other at h))
]
  where
    in_time : (b : Bool) → (if b then some w else none) ≡ some v → w ≡ v
    in_time true e = cc
    in_time false e = cc
simple_get_sound ttl (delete j ∷ ops) t k v h = elim (Bool-cases (text_eq j k)) [
  | inl same ↦ absurd (none-ne-some v (rw same at h))
  | inr other ↦ (other, simple_get_sound ttl ops t k v (rw other at h))
]
simple_get_sound ttl (flush ∷ ops) t k v h = none-ne-some v h
simple_get_sound ttl (evict now ∷ ops) t k v h = simple_get_sound ttl ops t k v h

gt→ltb : (a b : ℕ) → b < a → ltb a b ≡ false
gt→ltb a b h = ground arith

pub simple_cache-IsGoCache : {V : Type 0} (ttl : ℕ) → IsGoCache ttl (simple_cache {V = V} ttl)
simple_cache-IsGoCache ttl = record {
  get-set_self = λ ops now t k v h l. rw (text_eq_refl k, lt→ltb t (now + ttl) l);
  get-set_expired = λ ops now t k v l. rw (text_eq_refl k, gt→ltb t (now + ttl) l);
  get_sound = λ ops t k v h. simple_get_sound ttl ops t k v h;
  expired_sound = λ ops now. tt;
  get-set_ne = λ ops now t k j v h. rw h;
  get-delete_self = λ ops t k. rw (text_eq_refl k);
  get-delete_ne = λ ops t k j h. rw h;
  get-flush = λ ops t k. refl;
  get-evict = λ ops now t k h. refl;
}
