-- ===== src/Cache/Unavailable/Refinement.antt =====
-- The two caches implement the specification, whatever happens to them, and never panic.
use karpenter_provider_stack.Prelude.{ℕ, ◌≤◌, ◌≡◌, refl, Option, none, some, List, [], ◌∷◌, Text}
use karpenter_provider_stack.Env.GoCache.{GoCache, IsGoCache}
use karpenter_provider_stack.Cache.{unavailable_offerings_ttl}
use karpenter_provider_stack.Cache.Unavailable.{
  UnavailableOfferings, key, new_unavailable_offerings, is_unavailable,
}
use karpenter_provider_stack.Cache.Unavailable.Spec.{
  Event, marked, zone_marked, deleted, flushed, cleaned, zones_cleaned, clock, NoColon, InOrder,
  marked_at, zone_marked_at, NotExpiring, unavailable,
}
use karpenter_provider_stack.Cache.Unavailable.Steps.{
  is_found-entry, on_event, Implements, on_event-Implements,
}

module _ (lib : GoCache (Unit {0})) where
  abbrev then_on : Event → Option UnavailableOfferings → Option UnavailableOfferings
  then_on e none = none
  then_on e (some u) = on_event lib e u

  -- The code on all events, from NewUnavailableOfferings.
  unfoldable pub run : List Event → Option UnavailableOfferings
  run [] = some new_unavailable_offerings
  run (e ∷ es) = then_on e (run es)

  module _ (spec : IsGoCache unavailable_offerings_ttl lib) where
    empty-Implements : Implements lib [] new_unavailable_offerings
    unfolding new_unavailable_offerings
    empty-Implements = record {
      offerings = λ t mt z le nc off. nothing_held t (key mt z) _ refl;
      zones = λ t z le off. nothing_held t z _ refl;
      keyed = λ k x h. absurd h;
    }
      where
        nothing_held : (t : ℕ) (k : Text) (r : Option (Unit {0})) → lib.get [] t k ≡ r → r ≡ none
        nothing_held t k none e = refl
        nothing_held t k (some x) e = absurd (spec.get_sound [] t k x e)

    older : (e : Event) (es : List Event) → InOrder (e ∷ es) → InOrder es
    older (marked now mt z) es i = i.2
    older (zone_marked now z) es i = i.1
    older (deleted mt z) es i = i.1
    older flushed es i = i
    older (cleaned now) es i = i.1
    older (zones_cleaned now) es i = i.1

    run-Implements :
        (es : List Event)
        → InOrder es
        → (u : UnavailableOfferings) × (run es ≡ some u) × Implements lib es u
    unfolding run
    run-Implements [] i = (new_unavailable_offerings, refl, empty-Implements)
    run-Implements (e ∷ es) i =
        let (u, r, v) = run-Implements es (older e es i) in
        let (u', r', v') = on_event-Implements lib spec e es u i v in (u', rw r r', v')

    -- With a cache library that behaves as documented, after any events in the order of their times, for machine types without a colon in their
    -- names: no eviction has panicked, and at any later time, except the very instant at which a
    -- mark expires, a pair of machine type and zone is unavailable exactly if the pair or the zone
    -- has a mark that is younger than the time to live and was not deleted or flushed since.
    pub run_refines :
        (es : List Event) (t : ℕ) (mt z : Text)
        → InOrder es
        → clock es ≤ t
        → NoColon mt
        → NotExpiring (marked_at es mt z) t
        → NotExpiring (zone_marked_at es z) t
        → (u : UnavailableOfferings) × (run es ≡ some u)
          × (is_unavailable lib u t mt z ≡ unavailable es t mt z)
    run_refines es t mt z i le nc off zone_off =
        let (u, r, v) = run-Implements es i in
        (
          u,
          r,
          unfold is_unavailable in
              rw
                (
                  v.offerings t mt z le nc off,
                  v.zones t z le zone_off,
                  is_found-entry (marked_at es mt z) t,
                  is_found-entry (zone_marked_at es z) t,
                )
                refl,
        )
