-- ===== src/Cache/Unavailable/Spec.antt =====
-- What UnavailableOfferings promises, as a client sees it: a history of marks and of their removal
-- decides what is unavailable. No keys, caches or sequence numbers.
use karpenter_provider_stack.Prelude.{
  ℕ, ◌+◌, ◌≤◌, ◌≢◌, ◌≡◌, Bool, false, ◌&&◌, ◌||◌, Option, none, some, List, [], ◌∷◌, Text, text_eq,
  has_byte, ltb, if◌then◌else◌,
}
use karpenter_provider_stack.Cache.{unavailable_offerings_ttl}

-- What happens to the offerings: a pair of machine type and zone is marked or deleted, a zone is
-- marked, all is flushed, and the periodic clean-ups of the two caches run.
pub data Event : Type 0 where
  marked : ℕ → Text → Text → Event
  zone_marked : ℕ → Text → Event
  deleted : Text → Text → Event
  flushed : Event
  cleaned : ℕ → Event
  zones_cleaned : ℕ → Event

-- The time of the newest event that has one; the newest event is the first.
abbrev pub clock : List Event → ℕ
clock [] = 0
clock (marked now mt z ∷ es) = now
clock (zone_marked now z ∷ es) = now
clock (deleted mt z ∷ es) = clock es
clock (flushed ∷ es) = clock es
clock (cleaned now ∷ es) = now
clock (zones_cleaned now ∷ es) = now

abbrev pub NoColon : Text → Type 0
NoColon mt = has_byte b':' mt ≡ false

-- Time does not run backwards, and no machine type's name has a colon.
abbrev pub InOrder : List Event → Type 0
InOrder [] = Unit
InOrder (marked now mt z ∷ es) = (clock es ≤ now) × NoColon mt × InOrder es
InOrder (zone_marked now z ∷ es) = (clock es ≤ now) × InOrder es
InOrder (deleted mt z ∷ es) = NoColon mt × InOrder es
InOrder (flushed ∷ es) = InOrder es
InOrder (cleaned now ∷ es) = (clock es ≤ now) × InOrder es
InOrder (zones_cleaned now ∷ es) = (clock es ≤ now) × InOrder es

abbrev pub same_pair : Text → Text → Text → Text → Bool
same_pair mt z mt' z' = text_eq mt mt' && text_eq z z'

-- When a pair was last marked, unless it was deleted or flushed since.
abbrev pub marked_at : List Event → Text → Text → Option ℕ
marked_at [] mt z = none
marked_at (marked now mt' z' ∷ es) mt z =
    let older = marked_at es mt z in if same_pair mt' z' mt z then some now else older
marked_at (zone_marked now z' ∷ es) mt z = marked_at es mt z
marked_at (deleted mt' z' ∷ es) mt z =
    let older = marked_at es mt z in if same_pair mt' z' mt z then none else older
marked_at (flushed ∷ es) mt z = none
marked_at (cleaned now ∷ es) mt z = marked_at es mt z
marked_at (zones_cleaned now ∷ es) mt z = marked_at es mt z

-- When a zone was last marked, unless all was flushed since.
abbrev pub zone_marked_at : List Event → Text → Option ℕ
zone_marked_at [] z = none
zone_marked_at (marked now mt z' ∷ es) z = zone_marked_at es z
zone_marked_at (zone_marked now z' ∷ es) z =
    let older = zone_marked_at es z in if text_eq z' z then some now else older
zone_marked_at (deleted mt z' ∷ es) z = zone_marked_at es z
zone_marked_at (flushed ∷ es) z = none
zone_marked_at (cleaned now ∷ es) z = zone_marked_at es z
zone_marked_at (zones_cleaned now ∷ es) z = zone_marked_at es z

-- A mark counts for the time to live.
abbrev pub live : Option ℕ → ℕ → Bool
live none t = false
live (some n) t = ltb t (n + unavailable_offerings_ttl)

-- Not the very instant at which a mark expires, at which the library may answer either way.
abbrev pub NotExpiring : Option ℕ → ℕ → Type 0
NotExpiring none t = Unit
NotExpiring (some n) t = t ≢ n + unavailable_offerings_ttl

-- The abstract view: what is unavailable after the events.
abbrev pub unavailable : List Event → ℕ → Text → Text → Bool
unavailable es t mt z = live (marked_at es mt z) t || live (zone_marked_at es z) t
