-- ===== src/Utils/Labels/Selector.antt =====
-- LabelSelector: independent of the map's order, and readable by the other side.
use mathlib.Core.List.{Perm}
use karpenter_provider_stack.Prelude.{
  ◌≡◌, ◌≢◌, refl, ap, ◌∙◌, fun_ext, false, Option, none, some, List, [], ◌∷◌, ◌++◌, map, Text, str,
  Map, keys, lookup, All, join, split_byte, cut_byte, has_byte, split_byte-join, cut_byte-append,
  has_byte-append,
}
use karpenter_provider_stack.Utils.Labels.{
  at, label_part, label_selector, sorted_keys, validate_labels,
}
use karpenter_provider_stack.Utils.Labels.Sort.{sorted_keys-perm}
use karpenter_provider_stack.Utils.Labels.Validate.{Passes, validate_labels-Passes}

-- Two maps with the same entries, visited in different orders, give the same selector.
pub label_selector-perm :
    (m m' : Map Text)
    → Perm (keys m) (keys m')
    → ((k : Text) → lookup k m ≡ lookup k m')
    → label_selector m ≡ label_selector m'
unfolding label_selector label_part
label_selector-perm m m' p same = rw (sorted_keys-perm m m' p) (
    ap
      (λ (f : Text → Option Text). join (str ",") (
        map (λ k. k ++ (str "=" ++ (elim (f k) as (λ _. Text) [ none ↦ [] | some v ↦ v ])))
          (sorted_keys m')))
      (fun_ext same))

-- How a receiver reads a selector: pieces between commas, each cut at its first '='.
unfoldable pub read_selector : Text → List (Option (Text × Text))
read_selector selector = map (cut_byte b'=') (split_byte b',' selector)

parts_free :
    (m : Map Text) (ks : List Text)
    → All (λ k. Passes k (at m k)) ks
    → All (λ s. has_byte b',' s ≡ false) (map (label_part m) ks)
unfolding label_part str has_byte
parts_free m [] h = tt
parts_free m (k ∷ ks) h = (
  rw (has_byte-append b',' k (b'=' ∷ at m k), h.0.key_comma) h.0.value_comma,
  parts_free m ks h.1,
)

parts_cut :
    (m : Map Text) (ks : List Text)
    → All (λ k. Passes k (at m k)) ks
    → map (cut_byte b'=') (map (label_part m) ks) ≡ map (λ k. some (k, at m k)) ks
unfolding label_part str
parts_cut m [] h = refl
parts_cut m (k ∷ ks) h = rw (cut_byte-append b'=' k (at m k) h.0.key_equals, parts_cut m ks h.1)

read_join :
    (m : Map Text) (ks : List Text)
    → ks ≢ []
    → All (λ k. Passes k (at m k)) ks
    → read_selector (join (str ",") (map (label_part m) ks)) ≡ map (λ k. some (k, at m k)) ks
unfolding read_selector str
read_join m [] ne h = absurd (ne refl)
read_join m (k ∷ ks) ne h =
    ap (map (cut_byte b'=')) (split_byte-join b',' _ _ (parts_free m (k ∷ ks) h))
    ∙ parts_cut m (k ∷ ks) h

-- The selector of labels that pass validation, at least one, reads back as those labels: each
-- sorted key with its value, and nothing else.
pub read_selector-label_selector :
    (m : Map Text)
    → validate_labels m ≡ none
    → sorted_keys m ≢ []
    → read_selector (label_selector m) ≡ map (λ k. some (k, at m k)) (sorted_keys m)
unfolding label_selector
read_selector-label_selector m valid ne =
    read_join m (sorted_keys m) ne (validate_labels-Passes m valid)
