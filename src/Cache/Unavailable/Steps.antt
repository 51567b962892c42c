-- ===== src/Cache/Unavailable/Steps.antt =====
-- Each event keeps what the two caches promise, and does not panic.
use karpenter_provider_stack.Prelude.{
  ℕ, ◌+◌, ◌≤◌, ◌≢◌, ◌≡◌, inl, inr, refl, subst, Bool, true, false, Bool-cases, Option, none, some,
  List, ◌∷◌, Text, text_eq, text_eq_sound, has_byte, All-map, ltb, arith, if◌then◌else◌,
}
use karpenter_provider_stack.Env.GoCache.{
  GoCache, IsGoCache, History, Held, set_default, delete, evict,
}
use karpenter_provider_stack.Cache.{unavailable_offerings_ttl}
use karpenter_provider_stack.Cache.Unavailable.{
  UnavailableOfferings, key, mark_unavailable, mark_zone_unavailable, delete_offering,
  flush_offerings, clean_offerings, clean_zones, evict_zones, bump_seq, bump_zone_seq, is_found,
}
use karpenter_provider_stack.Cache.Unavailable.Keys.{
  text_eq-key, has_byte-key, SameCaches, on_offering_evicted-SameCaches, evict_each-SameCaches,
  evict_zones-SameCaches,
}
use karpenter_provider_stack.Cache.Unavailable.Spec.{
  Event, marked, zone_marked, deleted, flushed, cleaned, zones_cleaned, clock, NoColon, InOrder,
  same_pair, marked_at, zone_marked_at, live, NotExpiring,
}

-- What the cache answers for a key that was last set at a time.
abbrev pub entry : Option ℕ → ℕ → Option (Unit {0})
entry none t = none
entry (some n) t = if ltb t (n + unavailable_offerings_ttl) then some tt else none

pub is_found-entry : (o : Option ℕ) (t : ℕ) → is_found (entry o t) ≡ live o t
is_found-entry none t = refl
is_found-entry (some n) t = ground arith

module _ (lib : GoCache (Unit {0})) where
  -- What the code does on an event; `none` is a panic.
  unfoldable pub on_event : Event → UnavailableOfferings → Option UnavailableOfferings
  on_event (marked now mt z) u = some (mark_unavailable now mt z u)
  on_event (zone_marked now z) u = some (mark_zone_unavailable now z u)
  on_event (deleted mt z) u = delete_offering lib mt z u
  on_event flushed u = some (flush_offerings u)
  on_event (cleaned now) u = clean_offerings lib now u
  on_event (zones_cleaned now) u = some (clean_zones lib now u)

  -- The caches answer as the specification says, from the newest event on.
  pub record Implements (es : List Event) (u : UnavailableOfferings) : Type 0 where
    pub offerings :
        (t : ℕ) (mt z : Text)
        → clock es ≤ t
        → NoColon mt
        → NotExpiring (marked_at es mt z) t
        → lib.get u.offering_cache t (key mt z) ≡ entry (marked_at es mt z) t
    pub zones :
        (t : ℕ) (z : Text)
        → clock es ≤ t
        → NotExpiring (zone_marked_at es z) t
        → lib.get u.zone_cache t z ≡ entry (zone_marked_at es z) t
    pub keyed : (k : Text) (v : Unit {0}) → Held k v u.offering_cache → has_byte b':' k ≡ true

  module _ (spec : IsGoCache unavailable_offerings_ttl lib) where
    fresh :
        (ops : History (Unit {0})) (now t : ℕ) (k : Text) (b : Bool)
        → ltb t (now + unavailable_offerings_ttl) ≡ b
        → now ≤ t
        → t ≢ now + unavailable_offerings_ttl
        → lib.get (set_default now k tt ∷ ops) t k ≡ (if b then some tt else none)
    fresh ops now t k true e le ne = spec.get-set_self ops now t k tt le (ground arith)
    fresh ops now t k false e le ne = spec.get-set_expired ops now t k tt (ground arith)

    get-set :
        (ops : History (Unit {0})) (now t : ℕ) (k j : Text) (o : Option ℕ) (b : Bool)
        → text_eq k j ≡ b
        → now ≤ t
        → (NotExpiring o t → lib.get ops t j ≡ entry o t)
        → NotExpiring (if b then some now else o) t
        → lib.get (set_default now k tt ∷ ops) t j ≡ entry (if b then some now else o) t
    get-set ops now t k j o true e le old off =
        rw (← text_eq_sound k j e) (fresh ops now t k _ refl le off)
    get-set ops now t k j o false e le old off = rw (spec.get-set_ne ops now t k j tt e) (old off)

    -- A step that leaves the answers and the held keys as they were.
    keep :
        (es : List Event) (u u' : UnavailableOfferings)
        → Implements es u
        → SameCaches u u'
        → Implements es u'
    keep es u u' v (o, z) = record {
      offerings = λ t mt z' le nc off. rw o (v.offerings t mt z' le nc off);
      zones = λ t z' le off. rw z (v.zones t z' le off);
      keyed = λ k x h. v.keyed k x (subst (Held k x) o h);
    }

    marked-Implements :
        (es : List Event) (u : UnavailableOfferings) (now : ℕ) (mt z : Text)
        → clock es ≤ now
        → NoColon mt
        → Implements es u
        → Implements (marked now mt z ∷ es) (mark_unavailable now mt z u)
    unfolding mark_unavailable bump_seq
    marked-Implements es u now mt z le nc v = record {
      offerings = λ t mt' z' le' nc' off.
          get-set u.offering_cache now t (key mt z) (key mt' z') (marked_at es mt' z')
            (same_pair mt z mt' z') (text_eq-key mt z mt' z' nc nc') le'
            (v.offerings t mt' z' (omega arith) nc') off;
      zones = λ t z' le' off. v.zones t z' (omega arith) off;
      keyed = λ k x h. elim h [
        | inl (same, e) ↦
            subst (λ s. has_byte b':' s ≡ true) (text_eq_sound _ k same) (has_byte-key mt z)
        | inr (ne, old) ↦ v.keyed k x old
      ];
    }

    zone_marked-Implements :
        (es : List Event) (u : UnavailableOfferings) (now : ℕ) (z : Text)
        → clock es ≤ now
        → Implements es u
        → Implements (zone_marked now z ∷ es) (mark_zone_unavailable now z u)
    unfolding mark_zone_unavailable bump_zone_seq
    zone_marked-Implements es u now z le v = record {
      offerings = λ t mt z' le' nc off. v.offerings t mt z' (omega arith) nc off;
      zones = λ t z' le' off.
          get-set u.zone_cache now t z z' (zone_marked_at es z') (text_eq z z') refl le'
            (v.zones t z' (omega arith)) off;
      keyed = v.keyed;
    }

    get-deleted :
        (ops : History (Unit {0})) (t : ℕ) (k j : Text) (o : Option ℕ) (b : Bool)
        → text_eq k j ≡ b
        → (NotExpiring o t → lib.get ops t j ≡ entry o t)
        → NotExpiring (if b then none else o) t
        → lib.get (delete k ∷ ops) t j ≡ entry (if b then none else o) t
    get-deleted ops t k j o true e old off =
        rw (← text_eq_sound k j e) (spec.get-delete_self ops t k)
    get-deleted ops t k j o false e old off = rw (spec.get-delete_ne ops t k j e) (old off)

    -- Deletion, before the callback.
    deleted-Implements :
        (es : List Event) (u : UnavailableOfferings) (mt z : Text)
        → NoColon mt
        → Implements es u
        → Implements
            (deleted mt z ∷ es)
            (record u { offering_cache = delete (key mt z) ∷ u.offering_cache })
    deleted-Implements es u mt z nc v = record {
      offerings = λ t mt' z' le' nc' off.
          get-deleted u.offering_cache t (key mt z) (key mt' z') (marked_at es mt' z')
            (same_pair mt z mt' z') (text_eq-key mt z mt' z' nc nc') (v.offerings t mt' z' le' nc')
            off;
      zones = v.zones;
      keyed = λ k x h. v.keyed k x h.1;
    }

    flushed-Implements :
        (es : List Event) (u : UnavailableOfferings)
        → Implements es u
        → Implements (flushed ∷ es) (flush_offerings u)
    unfolding flush_offerings
    flushed-Implements es u v = record {
      offerings = λ t mt z le nc off. spec.get-flush u.offering_cache t (key mt z);
      zones = λ t z le off. spec.get-flush u.zone_cache t z;
      keyed = λ k x h. absurd h;
    }

    -- A clean-up, before the callbacks.
    cleaned-Implements :
        (es : List Event) (u : UnavailableOfferings) (now : ℕ)
        → clock es ≤ now
        → Implements es u
        → Implements (cleaned now ∷ es) (record u { offering_cache = evict now ∷ u.offering_cache })
    cleaned-Implements es u now le v = record {
      offerings = λ t mt z le' nc off.
          rw (spec.get-evict u.offering_cache now t (key mt z) le')
            (v.offerings t mt z (omega arith) nc off);
      zones = λ t z le' off. v.zones t z (omega arith) off;
      keyed = λ k x h. v.keyed k x h;
    }

    zones_cleaned-Implements :
        (es : List Event) (u : UnavailableOfferings) (now : ℕ)
        → clock es ≤ now
        → Implements es u
        → Implements (zones_cleaned now ∷ es) (record u { zone_cache = evict now ∷ u.zone_cache })
    zones_cleaned-Implements es u now le v = record {
      offerings = λ t mt z le' nc off. v.offerings t mt z (omega arith) nc off;
      zones = λ t z le' off.
          rw (spec.get-evict u.zone_cache now t z le') (v.zones t z (omega arith) off);
      keyed = λ k x h. v.keyed k x h;
    }

    -- An event in order does not panic, and keeps the caches' promise.
    pub on_event-Implements :
        (e : Event) (es : List Event) (u : UnavailableOfferings)
        → InOrder (e ∷ es)
        → Implements es u
        → (u' : UnavailableOfferings) × (on_event e u ≡ some u') × Implements (e ∷ es) u'
    unfolding on_event delete_offering clean_offerings clean_zones
    on_event-Implements (marked now mt z) es u i v =
        (mark_unavailable now mt z u, refl, marked-Implements es u now mt z i.0 i.1 v)
    on_event-Implements (zone_marked now z) es u i v =
        (mark_zone_unavailable now z u, refl, zone_marked-Implements es u now z i.0 v)
    on_event-Implements (deleted mt z) es u i v =
        let u1 = record u { offering_cache = delete (key mt z) ∷ u.offering_cache } in
        let v1 = deleted-Implements es u mt z i.0 v in
        let (u2, e2, same) = on_offering_evicted-SameCaches (key mt z) u1 (has_byte-key mt z) in
        elim (Bool-cases (lib.holds u.offering_cache (key mt z))) [
          | inl h ↦ (u2, rw h e2, keep (deleted mt z ∷ es) u1 u2 v1 same)
          | inr h ↦ (u1, rw h refl, v1)
        ]
    on_event-Implements flushed es u i v = (flush_offerings u, refl, flushed-Implements es u v)
    on_event-Implements (cleaned now) es u i v =
        let u1 = record u { offering_cache = evict now ∷ u.offering_cache } in
        let keys = lib.expired u.offering_cache now in
        let colons =
          All-map (λ (k : Text) (h : (x : Unit {0}) × Held k x u.offering_cache). v.keyed k h.0 h.1)
            keys (spec.expired_sound u.offering_cache now) in
        let (u2, e2, same) = evict_each-SameCaches keys u1 colons in
        (u2, e2, keep (cleaned now ∷ es) u1 u2 (cleaned-Implements es u now i.0 v) same)
    on_event-Implements (zones_cleaned now) es u i v =
        let u1 = record u { zone_cache = evict now ∷ u.zone_cache } in
        (
          evict_zones (lib.expired u.zone_cache now) u1,
          refl,
          keep (zones_cleaned now ∷ es) u1 (evict_zones (lib.expired u.zone_cache now) u1)
              (zones_cleaned-Implements es u now i.0 v)
              (evict_zones-SameCaches (lib.expired u.zone_cache now) u1),
        )
