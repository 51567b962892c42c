-- ===== src/Examples/Labels.antt =====
-- The theorems on labels, zones and ids, at concrete labels, zones and ids.
use karpenter_provider_stack.Prelude.{
  ◌≤◌, ◌≡◌, ◌≢◌, ◌↔◌, ◌⊎◌, refl, true, false, none, some, List, [], ◌∷◌, map, Text, Map, All, keys,
  lookup, length, text_eq, text_lt, has_byte, ap, Bool, str,
}
use karpenter_provider_stack.Errors.{ok}
use karpenter_provider_stack.Apis.LabelKeys.{label_key_node_pool, is_reserved, managed_label_keys}
use karpenter_provider_stack.Apis.Core.{NodeClaim}
use karpenter_provider_stack.Utils.ProviderId.{
  parse_instance_id, provider_id, IsInstanceId, parse_instance_id_iff,
}
use karpenter_provider_stack.Utils.Zone.{
  sanitize_zone, ZoneBytes, StartsWell, EndsWell, sanitize_zone_lem,
}
use karpenter_provider_stack.Utils.Labels.{
  at, validate_labels, problems_of, label_problem, matches_label_key, matches_label_value,
  label_selector, sorted_keys,
}
use karpenter_provider_stack.Utils.Labels.Validate.{IsValidLabel, validate_labels_iff}
use karpenter_provider_stack.Utils.Labels.Selector.{read_selector, read_selector-label_selector}
use karpenter_provider_stack.Examples.Data.{team, web, zone_a, server_id, claim}

abbrev is_nil : List Text → Bool
is_nil [] = true
is_nil (x ∷ xs) = false

false-true : ¬ (false ≡ true)
false-true e = cc

abbrev two_labels : Map Text
two_labels = (web, zone_a) ∷ (team, web) ∷ []

validate_labels_iff_example :
    (validate_labels two_labels ≡ none)
    ↔ All (λ k. IsValidLabel k (at two_labels k)) (keys two_labels)
validate_labels_iff_example = validate_labels_iff two_labels

two_labels_valid : validate_labels two_labels ≡ none
unfolding validate_labels problems_of sorted_keys text_lt label_problem text_eq matches_label_key
    has_byte lookup matches_label_value is_reserved managed_label_keys str
two_labels_valid = refl

two_labels_some : sorted_keys two_labels ≢ []
unfolding sorted_keys text_lt
two_labels_some h = false-true (ap is_nil h)

read_selector-label_selector_example :
    read_selector (label_selector two_labels)
    ≡ map (λ k. some (k, at two_labels k)) (sorted_keys two_labels)
read_selector-label_selector_example =
    read_selector-label_selector two_labels two_labels_valid two_labels_some

abbrev pooled : NodeClaim
pooled = record claim { labels = (label_key_node_pool, web) ∷ [] }

sanitize_zone_lem_example :
    ZoneBytes (sanitize_zone (b'#' ∷ zone_a))
    × StartsWell (sanitize_zone (b'#' ∷ zone_a))
    × (length (sanitize_zone (b'#' ∷ zone_a)) ≤ 63)
    × (EndsWell (sanitize_zone (b'#' ∷ zone_a)) ⊎ (length (sanitize_zone (b'#' ∷ zone_a)) ≡ 63))
sanitize_zone_lem_example = sanitize_zone_lem (b'#' ∷ zone_a)

parse_instance_id_iff_example :
    (parse_instance_id (provider_id server_id) ≡ ok server_id)
    ↔ ((provider_id server_id ≡ provider_id server_id) × IsInstanceId server_id)
parse_instance_id_iff_example = parse_instance_id_iff (provider_id server_id) server_id
