-- ===== src/Utils/Labels/Validate.antt =====
-- ValidateLabels against an independent description of a valid label.
use mathlib.Core.List.Permᴰ
use karpenter_provider_stack.Prelude.{
  ℕ, ◌≤◌, ◌<◌, ◌≡◌, ◌≢◌, ◌↔◌, refl, true, false, ◌&&◌, none, List, [], ◌∷◌, Text, text_eq, Map,
  keys, arith, All, All-map, all, leb, has_byte, length, ltb, ltb→le, le→ltb, &&_elim,
}
use karpenter_provider_stack.Apis.LabelKeys.{is_reserved}
use karpenter_provider_stack.Utils.Labels.Sort.{sorted_keys-permᴰ, All-permᴰ}
use karpenter_provider_stack.Utils.Labels.{
  at, sorted_keys, matches_label_key, matches_label_value, label_problem, problems_of,
  validate_labels,
}

-- A byte of a key: printable, no space, and neither ',' nor '='.
abbrev pub KeyByte : ℕ → Type 0
KeyByte c = (0x21 ≤ c) × (c ≤ 0x7E) × (c ≢ b',') × (c ≢ b'=')

-- A byte of a value: printable, and not ','.
abbrev pub ValueByte : ℕ → Type 0
ValueByte c = (0x20 ≤ c) × (c ≤ 0x7E) × (c ≢ b',')

pub record IsValidLabel (key value : Text) : Type 0 where
  pub key_not_empty : 0 < length key
  pub key_length : length key ≤ 255
  pub key_bytes : All KeyByte key
  pub value_length : length value ≤ 255
  pub value_bytes : All ValueByte value
  pub not_reserved : is_reserved key ≡ false

key_bytes_sound :
    (s : Text)
    → all (λ c. leb 0x21 c && leb c 0x7E) s ≡ true
    → has_byte b',' s ≡ false
    → has_byte b'=' s ≡ false
    → All KeyByte s
unfolding has_byte
key_bytes_sound [] h k l = tt
key_bytes_sound (c ∷ s) h k l = ground (arith, key_bytes_sound s)

key_bytes_complete :
    (s : Text)
    → All KeyByte s
    → (all (λ c. leb 0x21 c && leb c 0x7E) s ≡ true)
      × (has_byte b',' s ≡ false)
      × (has_byte b'=' s ≡ false)
unfolding has_byte
key_bytes_complete [] h = (refl, refl, refl)
key_bytes_complete (c ∷ s) h = ground (arith, key_bytes_complete s h.1)

value_bytes_sound :
    (s : Text)
    → all (λ c. leb 0x20 c && leb c 0x7E) s ≡ true
    → has_byte b',' s ≡ false
    → All ValueByte s
unfolding has_byte
value_bytes_sound [] h k = tt
value_bytes_sound (c ∷ s) h k = ground (arith, value_bytes_sound s)

value_bytes_complete :
    (s : Text)
    → All ValueByte s
    → (all (λ c. leb 0x20 c && leb c 0x7E) s ≡ true) × (has_byte b',' s ≡ false)
unfolding has_byte
value_bytes_complete [] h = (refl, refl)
value_bytes_complete (c ∷ s) h = ground (arith, value_bytes_complete s h.1)

-- The tests of the switch, all passed.
pub record Passes (key value : Text) : Type 0 where
  key_not_empty : text_eq key [] ≡ false
  key_length : ltb 255 (length key) ≡ false
  key_charset : matches_label_key key ≡ true
  pub key_comma : has_byte b',' key ≡ false
  pub key_equals : has_byte b'=' key ≡ false
  value_length : ltb 255 (length value) ≡ false
  value_charset : matches_label_value value ≡ true
  pub value_comma : has_byte b',' value ≡ false

label_problem-Passes : (key value : Text) → label_problem key value ≡ none → Passes key value
unfolding label_problem
label_problem-Passes key value h = ground arith

Passes-label_problem : (key value : Text) → Passes key value → label_problem key value ≡ none
unfolding label_problem
Passes-label_problem key value h = rw (
  h.key_not_empty, h.key_length, h.key_charset, h.key_comma, h.key_equals, h.value_length,
  h.value_charset, h.value_comma,
)

not_empty : (s : Text) → text_eq s [] ≡ false → 0 < length s
unfolding text_eq
not_empty [] h = cc
not_empty (c ∷ s) h = omega arith

empty_test : (s : Text) → 0 < length s → text_eq s [] ≡ false
unfolding text_eq
empty_test [] h = absurd (omega arith)
empty_test (c ∷ s) h = refl

Passes-IsValidLabel :
    (key value : Text) → Passes key value → is_reserved key ≡ false → IsValidLabel key value
unfolding matches_label_key matches_label_value
Passes-IsValidLabel key value h r = record {
  key_not_empty = not_empty key h.key_not_empty;
  key_length = ltb→le 255 (length key) h.key_length;
  key_bytes = key_bytes_sound key (&&_elim _ _ h.key_charset).1 h.key_comma h.key_equals;
  value_length = ltb→le 255 (length value) h.value_length;
  value_bytes = value_bytes_sound value h.value_charset h.value_comma;
  not_reserved = r;
}

IsValidLabel-Passes : (key value : Text) → IsValidLabel key value → Passes key value
unfolding matches_label_key matches_label_value
IsValidLabel-Passes key value v =
    let k = key_bytes_complete key v.key_bytes in
    let w = value_bytes_complete value v.value_bytes in
    let e = empty_test key v.key_not_empty in
    record {
      key_not_empty = e;
      key_length = le→ltb 255 (length key) v.key_length;
      key_charset = rw (e, k.0) refl;
      key_comma = k.1;
      key_equals = k.2;
      value_length = le→ltb 255 (length value) v.value_length;
      value_charset = w.0;
      value_comma = w.1;
    }

problems_of-AllValid :
    (m : Map Text) (ks : List Text) → problems_of m ks ≡ [] → All (λ k. IsValidLabel k (at m k)) ks
unfolding problems_of
problems_of-AllValid m [] h = tt
problems_of-AllValid m (k ∷ ks) h =
    let q : (label_problem k (at m k) ≡ none) × (is_reserved k ≡ false) × (problems_of m ks ≡ []) =
      ground arith in
    (
      Passes-IsValidLabel k (at m k) (label_problem-Passes k (at m k) q.0) q.1,
      problems_of-AllValid m ks q.2,
    )

AllValid-problems_of :
    (m : Map Text) (ks : List Text) → All (λ k. IsValidLabel k (at m k)) ks → problems_of m ks ≡ []
unfolding problems_of
AllValid-problems_of m [] h = refl
AllValid-problems_of m (k ∷ ks) h = rw (
  Passes-label_problem k (at m k) (IsValidLabel-Passes k (at m k) h.0),
  h.0.not_reserved,
  AllValid-problems_of m ks h.1,
)

-- Labels pass validation exactly if each of them, at its key in the map, is a valid label.
pub validate_labels_iff :
    (m : Map Text) → (validate_labels m ≡ none) ↔ All (λ k. IsValidLabel k (at m k)) (keys m)
unfolding validate_labels
validate_labels_iff m = (
  λ h. All-permᴰ _ (sorted_keys-permᴰ m) (problems_of-AllValid m (sorted_keys m) (ground arith)),
  λ h. rw (
    AllValid-problems_of m (sorted_keys m) (All-permᴰ _ (Permᴰ.symm (sorted_keys-permᴰ m)) h),
    validate_labels,
  ),
)

-- What a receiver of the labels needs, at each sorted key.
pub validate_labels-Passes :
    (m : Map Text) → validate_labels m ≡ none → All (λ k. Passes k (at m k)) (sorted_keys m)
validate_labels-Passes m h =
    All-map (λ k v. IsValidLabel-Passes k (at m k) v) (sorted_keys m)
      (All-permᴰ _ (Permᴰ.symm (sorted_keys-permᴰ m)) ((validate_labels_iff m).0 h))
