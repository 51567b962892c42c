-- ===== src/Utils/Zone.antt =====
-- SanitizeZone (pkg/utils/utils.go).
use karpenter_provider_stack.Prelude.{
  ℕ, zero, suc, ◌≤◌, ◌⊎◌, inl, inr, Bool-cases, ◌≡◌, refl, Bool, true, false, not, ◌||◌, ◌&&◌, [],
  ◌∷◌, Text, str, text_eq, leb, ltb, ltb→lt, ltb→le, le→ltb, ◌==◌, if◌then◌else◌, arith, length,
  take, All, length-take,
}

-- `[-a-zA-Z0-9_.]`
unfoldable pub zone_byte : ℕ → Bool
zone_byte c =
    c == b'-'
    || (leb b'a' c && leb c b'z')
    || (leb b'A' c && leb c b'Z')
    || (leb b'0' c && leb c b'9')
    || c == b'_'
    || c == b'.'

-- zoneSanitizeRegex.ReplaceAllString(zone, "-"): a maximal run of other bytes becomes one dash. The
-- flag says that the byte before was in such a run.
unfoldable pub replace_runs : Bool → Text → Text
replace_runs in_run [] = []
replace_runs in_run (c ∷ s) =
    let rest = replace_runs (not (zone_byte c)) s in
    if zone_byte c then c ∷ rest else if in_run then rest else b'-' ∷ rest

-- The cutset "-_." of strings.Trim.
unfoldable pub trimmed_byte : ℕ → Bool
trimmed_byte c = c == b'-' || c == b'_' || c == b'.'

unfoldable pub trim_left : (ℕ → Bool) → Text → Text
trim_left p [] = []
trim_left p (c ∷ s) = if p c then trim_left p s else c ∷ s

unfoldable pub trim_right : (ℕ → Bool) → Text → Text
trim_right p [] = []
trim_right p (c ∷ s) = let rest = trim_right p s in if p c && text_eq rest [] then [] else c ∷ rest

unfoldable pub sanitize_zone : Text → Text
sanitize_zone zone =
    let sanitized = trim_right trimmed_byte (trim_left trimmed_byte (replace_runs false zone)) in
    if ltb 63 (length sanitized) then take 63 sanitized else sanitized

sanitize_zone_test : sanitize_zone (str "__eu01 / zone-1.") ≡ str "eu01-zone-1"
unfolding sanitize_zone replace_runs trim_left trim_right trimmed_byte zone_byte str text_eq
sanitize_zone_test = refl

abbrev pub ZoneBytes : Text → Type 0
ZoneBytes = All (λ c. zone_byte c ≡ true)

-- The first byte is not one that is trimmed.
abbrev pub StartsWell : Text → Type 0
StartsWell [] = Unit
StartsWell (c ∷ s) = trimmed_byte c ≡ false

-- The last byte is not one that is trimmed.
abbrev pub EndsWell : Text → Type 0
EndsWell [] = Unit
EndsWell (c ∷ []) = trimmed_byte c ≡ false
EndsWell (c ∷ d ∷ s) = EndsWell (d ∷ s)

replace_runs-ZoneBytes : (b : Bool) (s : Text) → ZoneBytes (replace_runs b s)
unfolding replace_runs zone_byte
replace_runs-ZoneBytes b [] = tt
replace_runs-ZoneBytes b (c ∷ s) = ground (arith, replace_runs-ZoneBytes (not (zone_byte c)) s)

trim_left-ZoneBytes : (s : Text) → ZoneBytes s → ZoneBytes (trim_left trimmed_byte s)
unfolding trim_left
trim_left-ZoneBytes [] h = tt
trim_left-ZoneBytes (c ∷ s) h = ground (arith, trim_left-ZoneBytes s)

trim_right-ZoneBytes : (s : Text) → ZoneBytes s → ZoneBytes (trim_right trimmed_byte s)
unfolding trim_right
trim_right-ZoneBytes [] h = tt
trim_right-ZoneBytes (c ∷ s) h = ground (arith, trim_right-ZoneBytes s)

take-ZoneBytes : (n : ℕ) (s : Text) → ZoneBytes s → ZoneBytes (take n s)
take-ZoneBytes zero s h = tt
take-ZoneBytes (suc n) [] h = tt
take-ZoneBytes (suc n) (c ∷ s) h = (h.0, take-ZoneBytes n s h.1)

trim_left-StartsWell : (s : Text) → StartsWell (trim_left trimmed_byte s)
unfolding trim_left
trim_left-StartsWell [] = tt
trim_left-StartsWell (c ∷ s) = ground (arith, trim_left-StartsWell s)

trim_right-StartsWell : (s : Text) → StartsWell s → StartsWell (trim_right trimmed_byte s)
unfolding trim_right
trim_right-StartsWell [] h = tt
trim_right-StartsWell (c ∷ s) h = ground arith

EndsWell-cons :
    (c : ℕ) (r : Text)
    → EndsWell r
    → EndsWell (if trimmed_byte c && text_eq r [] then [] else c ∷ r)
unfolding text_eq
EndsWell-cons c [] h = ground arith
EndsWell-cons c (d ∷ r) h = ground arith

trim_right-EndsWell : (s : Text) → EndsWell (trim_right trimmed_byte s)
unfolding trim_right
trim_right-EndsWell [] = tt
trim_right-EndsWell (c ∷ s) = EndsWell-cons c (trim_right trimmed_byte s) (trim_right-EndsWell s)

take-StartsWell : (n : ℕ) (s : Text) → StartsWell s → StartsWell (take n s)
take-StartsWell zero s h = tt
take-StartsWell (suc n) [] h = tt
take-StartsWell (suc n) (c ∷ s) h = h

replace_runs_id : (b : Bool) (s : Text) → ZoneBytes s → replace_runs b s ≡ s
unfolding replace_runs
replace_runs_id b [] h = refl
replace_runs_id b (c ∷ s) h = ground (arith, replace_runs_id (not (zone_byte c)) s)

trim_left_id : (s : Text) → StartsWell s → trim_left trimmed_byte s ≡ s
unfolding trim_left
trim_left_id [] h = refl
trim_left_id (c ∷ s) h = ground arith

trim_right_id : (s : Text) → EndsWell s → trim_right trimmed_byte s ≡ s
unfolding trim_right text_eq
trim_right_id [] h = refl
trim_right_id (c ∷ []) h = ground arith
trim_right_id (c ∷ d ∷ s) h = ground (arith, trim_right_id (d ∷ s))

-- What the sanitizer leaves before it caps the length.
trimmed : Text → Text
trimmed zone = trim_right trimmed_byte (trim_left trimmed_byte (replace_runs false zone))

trimmed_lem :
    (zone : Text) → ZoneBytes (trimmed zone) × StartsWell (trimmed zone) × EndsWell (trimmed zone)
unfolding trimmed
trimmed_lem zone =
    let s : Text = trim_left trimmed_byte (replace_runs false zone) in
    (
      trim_right-ZoneBytes s (trim_left-ZoneBytes _ (replace_runs-ZoneBytes false zone)),
      trim_right-StartsWell s (trim_left-StartsWell (replace_runs false zone)),
      trim_right-EndsWell s,
    )

cap_lem :
    (s : Text)
    → ZoneBytes s
    → StartsWell s
    → EndsWell s
    → let r = if ltb 63 (length s) then take 63 s else s in
      ZoneBytes r × StartsWell r × (length r ≤ 63) × (EndsWell r ⊎ (length r ≡ 63))
cap_lem s z b e = elim (Bool-cases (ltb 63 (length s))) [
  | inl long ↦ rw long (
    take-ZoneBytes 63 s z,
    take-StartsWell 63 s b,
    omega (arith, length-take 63 s),
    inr (omega (arith, ltb→lt 63 (length s) long, length-take 63 s)),
  )
  | inr short ↦ rw short (z, b, ltb→le 63 (length s) short, inl e)
]

-- Whatever the zone id, the sanitized form has only the bytes [-a-zA-Z0-9_.], does not begin with
-- one of "-_.", is at most 63 bytes long, and does not end in one of "-_." unless it was cut at 63.
pub sanitize_zone_lem :
    (zone : Text)
    → ZoneBytes (sanitize_zone zone)
      × StartsWell (sanitize_zone zone)
      × (length (sanitize_zone zone) ≤ 63)
      × (EndsWell (sanitize_zone zone) ⊎ (length (sanitize_zone zone) ≡ 63))
unfolding sanitize_zone trimmed
sanitize_zone_lem zone = let h = trimmed_lem zone in cap_lem (trimmed zone) h.0 h.1 h.2

-- A zone id with only those bytes, that neither begins nor ends in one of "-_." and has at most 63
-- bytes, is left as it is.
pub sanitize_zone_id :
    (zone : Text)
    → ZoneBytes zone
    → StartsWell zone
    → EndsWell zone
    → length zone ≤ 63
    → sanitize_zone zone ≡ zone
unfolding sanitize_zone
sanitize_zone_id zone z b e h = rw (
  replace_runs_id false zone z,
  trim_left_id zone b,
  trim_right_id zone e,
  le→ltb 63 (length zone) h,
)
