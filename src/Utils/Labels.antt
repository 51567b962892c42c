-- ===== src/Utils/Labels.antt =====
-- Labels of servers (pkg/utils/utils.go). The children prove what sorting, selectors, validation
-- and the managed labels do.
pub mod Sort
pub mod Selector
pub mod Validate
pub mod Managed
use karpenter_provider_stack.Prelude.{
  ℕ, Bool, true, false, not, ◌&&◌, ◌||◌, Option, none, some, List, [], ◌∷◌, ◌++◌, Text, str,
  text_eq, text_lt, has_byte, join, Map, lookup, insert, assign, keys, length, all, leb, ltb,
  if◌then◌else◌, map,
}
use mathlib.Core.List.{reverse}
use karpenter_provider_stack.Errors.{ClientError, plain}
use karpenter_provider_stack.Apis.LabelKeys.{
  label_key_managed_by, label_key_node_pool, label_key_node_claim, label_key_node_class,
  is_reserved,
}
use karpenter_provider_stack.Apis.NodeClass.{StackitNodeClass}
use karpenter_provider_stack.Apis.Core.{NodeClaim, LabelValue, string_value, other_value}

-- One pass of the inner loop of sortedKeys: `key` moves down past the larger keys. The sorted part
-- is a list from its last key to its first.
unfoldable pub sink : Text → List Text → List Text
sink key [] = key ∷ []
sink key (p ∷ ps) = if text_lt key p then p ∷ sink key ps else key ∷ p ∷ ps

-- The outer loop, over the keys that are not yet in the sorted part.
unfoldable pub sort_loop : List Text → List Text → List Text
unfolding sink
sort_loop sorted [] = sorted
sort_loop sorted (key ∷ rest) = sort_loop (sink key sorted) rest

unfoldable pub sorted_keys {ℓ} : {V : Type ℓ} → Map V → List Text
unfolding sort_loop
sorted_keys m = reverse (sort_loop [] (keys m))

-- `labels[key]`, the empty string if there is none.
abbrev pub at : Map Text → Text → Text
at m k = elim (lookup k m) [ none ↦ [] | some v ↦ v ]

unfoldable pub label_part : Map Text → Text → Text
label_part labels key = key ++ (str "=" ++ at labels key)

unfoldable pub label_selector : Map Text → Text
label_selector labels = join (str ",") (map (label_part labels) (sorted_keys labels))

-- labelKeyRegex and labelValueRegex.
unfoldable pub matches_label_key : Text → Bool
matches_label_key s = not (text_eq s []) && all (λ c. leb 0x21 c && leb c 0x7E) s

unfoldable pub matches_label_value : Text → Bool
matches_label_value s = all (λ c. leb 0x20 c && leb c 0x7E) s

pub data LabelProblem : Type 0 where
  empty_key long_key key_charset key_delimiter long_value value_charset value_delimiter
        managed_key :
      Text → LabelProblem

-- The switch of the loop body.
unfoldable pub label_problem : Text → Text → Option LabelProblem
label_problem key value =
    if text_eq key []
    then some (empty_key key)
    else if ltb 255 (length key)
    then some (long_key key)
    else if not (matches_label_key key)
    then some (key_charset key)
    else if has_byte b',' key || has_byte b'=' key
    then some (key_delimiter key)
    else if ltb 255 (length value)
    then some (long_value key)
    else if not (matches_label_value value)
    then some (value_charset key)
    else if has_byte b',' value
    then some (value_delimiter key)
    else none

abbrev pub opt_cons {ℓ} : {A : Type ℓ} → Option A → List A → List A
opt_cons none xs = xs
opt_cons (some x) xs = x ∷ xs

unfoldable pub problems_of : Map Text → List Text → List LabelProblem
problems_of labels [] = []
problems_of labels (key ∷ rest) =
    opt_cons (label_problem key (at labels key)) (
      opt_cons (if is_reserved key then some (managed_key key) else none) (problems_of labels rest))

unfoldable pub validate_labels : Map Text → Option ClientError
validate_labels labels = elim (problems_of labels (sorted_keys labels)) [
  | [] ↦ none
  | _ ∷ _ ↦ some plain
]

-- The map `managed` of ManagedLabels; the last argument is the claim's node pool label.
unfoldable pub managed_entries : Text → Text → Text → Option Text → Map Text
managed_entries cluster_name class_name claim_name node_pool =
    let managed : Map Text =
      (label_key_managed_by, cluster_name)
      ∷ (label_key_node_class, class_name)
      ∷ (label_key_node_claim, claim_name)
      ∷ [] in
    elim node_pool [ none ↦ managed | some pool ↦ insert label_key_node_pool pool managed ]

unfoldable pub managed_labels : StackitNodeClass → NodeClaim → Text → Map Text
managed_labels node_class node_claim cluster_name = assign node_class.spec.labels (
    managed_entries cluster_name node_class.name node_claim.name
      (lookup label_key_node_pool node_claim.labels))

unfoldable pub labels_to_api : Map Text → Map LabelValue
labels_to_api [] = []
labels_to_api ((k, v) ∷ m) = (k, string_value v) ∷ labels_to_api m

unfoldable pub labels_from_api : Map LabelValue → Map Text
labels_from_api [] = []
labels_from_api ((k, string_value v) ∷ m) = (k, v) ∷ labels_from_api m
labels_from_api ((k, other_value) ∷ m) = labels_from_api m
