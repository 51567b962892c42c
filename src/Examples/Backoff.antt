-- ===== src/Examples/Backoff.antt =====
-- A launch refused for lack of capacity in one of two zones, and the next launch.
use karpenter_provider_stack.Prelude.{
  ◌≡◌, inl, inr, refl, true, false, List, [], ◌∷◌, Text, str, contains, to_lower, text_eq, lookup,
  insert, arith,
}
use karpenter_provider_stack.Prelude.Float.{ltf}
use karpenter_provider_stack.Errors.{ClientError, Result, Err, wrapped, open_api, ok, err}
use karpenter_provider_stack.Env.GoCache.{simple_cache-IsGoCache}
use karpenter_provider_stack.Env.Sdk.{CreateServerPayload}
use karpenter_provider_stack.Apis.Core.{InstanceType}
use karpenter_provider_stack.Cache.{unavailable_offerings_ttl, instance_types_and_offerings_ttl}
use karpenter_provider_stack.Stackit.Classify.{
  is_unauthorized, is_insufficient_capacity, as_api_error, says_no_capacity,
}
use karpenter_provider_stack.Stackit.Client.{Client, client_create_server}
use karpenter_provider_stack.Instance.Payload.{create_payload, networking, server_name}
use karpenter_provider_stack.Instance.Payload.Laws.{AsksFor, create_payload_lem}
use karpenter_provider_stack.Instance.Select.{
  cheapest_offering, cheapest_loop, consider, best_of, improve, resources_fit, fits,
}
use karpenter_provider_stack.Instance.Provider
use karpenter_provider_stack.Instance.Provider.{create}
use karpenter_provider_stack.Instance.Retry.{retry_elsewhere}
use karpenter_provider_stack.Offering
use karpenter_provider_stack.Offering.{inject_offerings, zone_offering, build, cache_key}
use karpenter_provider_stack.Cache.Unavailable.{
  is_unavailable, seq_num, seq_at, mark_unavailable, bump_seq, key,
}
use karpenter_provider_stack.Utils.Zone.{
  sanitize_zone, replace_runs, trim_left, trim_right, zone_byte, trimmed_byte,
}
use karpenter_provider_stack.Examples.Data.{
  class, claim, instance_type, zone_a, zone_b, client, sdk, karpenter, all_compatible,
  karpenter-IsKarpenter, provider, state, offerings,
}

abbrev full : ClientError
full = open_api 409 (str "quota exceeded") []

abbrev full_client : Client
full_client = record client { api = record sdk { on_create_server = λ payload calls. err full } }

abbrev full_provider : Provider.DefaultProvider
full_provider = record provider { api = full_client }

abbrev zones : List Text
zones = zone_a ∷ zone_b ∷ []

abbrev no_offerings : Offering.State
no_offerings = record { cache = []; last_seq_num = [] }

abbrev listing : List InstanceType × Offering.State
listing =
    inject_offerings offerings state.unavailable_offerings 4 (b'r' ∷ []) (instance_type ∷ []) zones
      no_offerings

abbrev chosen_of : Result Err (InstanceType × Text) → InstanceType
chosen_of (err e) = instance_type
chosen_of (ok (it, zone)) = it

abbrev first : InstanceType
first = chosen_of (cheapest_offering karpenter listing.0 claim)

first_chosen : cheapest_offering karpenter listing.0 claim ≡ ok (first, zone_b)
unfolding cheapest_offering cheapest_loop consider best_of improve resources_fit fits
    inject_offerings zone_offering sanitize_zone replace_runs trim_left trim_right zone_byte
    trimmed_byte is_unavailable str text_eq Offering.rebuild ltf
first_chosen = refl

payload_given :
    (p : CreateServerPayload) × (create_payload class claim first zone_b [] ≡ ok p)
    × AsksFor class claim first zone_b [] p
unfolding text_eq
payload_given = elim (create_payload_lem class claim first zone_b []) [
  | inl (b, given) ↦ given
  | inr (unbuildable, failed) ↦ absurd (unbuildable (inl (refl, refl), omega arith))
]

refused :
    (payload : CreateServerPayload)
    → (client_create_server full_client payload []).0 ≡ err (wrapped full)
unfolding client_create_server
refused payload = refl

full_says : is_insufficient_capacity (wrapped full) ≡ true
unfolding is_insufficient_capacity as_api_error says_no_capacity contains to_lower str
full_says = refl

full_authorized : is_unauthorized (wrapped full) ≡ false
unfolding is_unauthorized as_api_error
full_authorized = refl

abbrev after : Provider.State
after = (create full_provider 5 class claim [] listing.0 state).1

abbrev relisting : List InstanceType
relisting =
    (inject_offerings offerings after.unavailable_offerings 6 (b'r' ∷ []) (instance_type ∷ []) zones
      listing.1).0

abbrev second : InstanceType
second = chosen_of (cheapest_offering karpenter relisting claim)

second_chosen : cheapest_offering karpenter relisting claim ≡ ok (second, zone_a)
unfolding cheapest_offering cheapest_loop consider best_of improve resources_fit fits
    inject_offerings zone_offering sanitize_zone replace_runs trim_left trim_right zone_byte
    trimmed_byte is_unavailable str text_eq Offering.rebuild ltf create cache_key seq_at lookup
    insert seq_num Provider.launch create_payload networking server_name Provider.launched
    client_create_server is_unauthorized as_api_error is_insufficient_capacity says_no_capacity
    contains to_lower bump_seq key mark_unavailable Provider.record_launch_failure build
    Offering.create_offerings
second_chosen = refl

retry_elsewhere_example : ¬ ((second.name ≡ first.name) × (zone_a ≡ zone_b))
retry_elsewhere_example =
    retry_elsewhere full_provider offerings all_compatible karpenter-IsKarpenter
      (simple_cache-IsGoCache instance_types_and_offerings_ttl)
      (simple_cache-IsGoCache unavailable_offerings_ttl) (b'r' ∷ []) (instance_type ∷ [])
      (instance_type ∷ []) zones zones no_offerings 4 5 6 class claim claim [] state first second
      zone_b zone_a payload_given.0 (wrapped full) first_chosen payload_given.1
      (refused payload_given.0) full_says full_authorized (omega arith) (omega arith) second_chosen
