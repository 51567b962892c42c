-- ===== src/Examples/Servers.antt =====
-- The theorems on instances, at one server and one machine type.
use karpenter_provider_stack.Prelude.{
  ◌≡◌, ◌↔◌, ◌⊎◌, refl, subst, true, false, ◌&&◌, ◌||◌, some, [], ◌∷◌, Text, str, contains, to_lower,
  All, In, here, there, if◌then◌else◌, arith,
}
use karpenter_provider_stack.Prelude.Float.{ltf, is_nan}
use karpenter_provider_stack.Errors.{
  ClientError, Err, plain, open_api, node_claim_not_found, insufficient_capacity,
  is_node_claim_not_found, ok, err,
}
use karpenter_provider_stack.Errors
use karpenter_provider_stack.Env.GoCache.{simple_cache-IsGoCache}
use karpenter_provider_stack.Env.Sdk.{CreateServerPayload, get_server}
use karpenter_provider_stack.Env.Sdk.{delete_server as delete_request}
use karpenter_provider_stack.Apis.LabelKeys.{label_topology_zone}
use karpenter_provider_stack.Apis.Core.{InstanceType, NodeClaim, Offering}
use karpenter_provider_stack.Cache.{default_ttl}
use karpenter_provider_stack.Stackit.Classify.{
  ApiError, as_api_error, is_insufficient_capacity, is_unauthorized, is_not_found, says_no_capacity,
}
use karpenter_provider_stack.Stackit.Client.{call, client_get_server, client_delete_server}
use karpenter_provider_stack.Instance.{new_instance}
use karpenter_provider_stack.Instance.Select.{cheapest_offering, resources_fit}
use karpenter_provider_stack.Instance.Select.Cheapest.{IsFeasible, Priced, cheapest_offering_lem}
use karpenter_provider_stack.Instance.Payload.{create_payload}
use karpenter_provider_stack.Instance.Select.Fits.{IsCovered, resources_fit_iff}
use karpenter_provider_stack.Instance.Payload.Laws.{AsksFor, IsBuildable, create_payload_lem}
use karpenter_provider_stack.Instance.Provider.{
  record_launch_failure, launched, fetched, fetch, get, delete_server,
}
use karpenter_provider_stack.Instance.Lifecycle.{
  record_launch_failure_forbidden, deletable, failed_not_found, delete_server_lem, get-launched,
  fetched_not_found,
}
use karpenter_provider_stack.Examples.Data.{
  class, claim, instance_type, server, server_id, small, zone_a, not_found, client, karpenter,
  all_compatible, karpenter-IsKarpenter, provider, state,
}

priced : All Priced (instance_type ∷ [])
priced = ((λ o m. one o m), tt)
  where
    one : Priced instance_type
    one o (here e) = subst (λ (y : Offering). is_nan y.price ≡ false) e refl
    one o (there m) = elim m [ ]

cheapest_offering_lem_example :
    ((cheapest_offering karpenter (instance_type ∷ []) claim
        ≡ err (insufficient_capacity (Errors.client plain)))
      × All
          (λ it.
            (o : Offering) → ¬ IsFeasible karpenter all_compatible claim.requirements claim it o)
          (instance_type ∷ []))
    ⊎ ((it : InstanceType) × (o : Offering) × (cheapest_offering karpenter
            (instance_type ∷ [])
            claim
          ≡ ok (it, karpenter.any_value o.requirements label_topology_zone))
        × In it (instance_type ∷ [])
        × IsFeasible karpenter all_compatible claim.requirements claim it o
        × All
            (λ it'.
              (o' : Offering)
              → IsFeasible karpenter all_compatible claim.requirements claim it' o'
              → ltf o'.price o.price ≡ false)
            (instance_type ∷ []))
cheapest_offering_lem_example =
    cheapest_offering_lem karpenter all_compatible karpenter-IsKarpenter (instance_type ∷ []) claim
      priced

-- A claim that asks for less than there is.
abbrev modest : NodeClaim
modest = record claim { requests = (b'c' ∷ [], 1000) ∷ [] }

abbrev roomy : InstanceType
roomy = record instance_type { capacity = (b'c' ∷ [], 2000) ∷ [] }

resources_fit_iff_example :
    (resources_fit karpenter roomy modest ≡ true)
    ↔ All (IsCovered (karpenter.allocatable roomy)) modest.requests
resources_fit_iff_example = resources_fit_iff karpenter roomy modest

create_payload_lem_example :
    (IsBuildable class claim
      × ((p : CreateServerPayload) × (create_payload class claim instance_type zone_a [] ≡ ok p)
          × AsksFor class claim instance_type zone_a [] p))
    ⊎ ((¬ (IsBuildable class claim))
        × ((e : ClientError) × (create_payload class claim instance_type zone_a [] ≡ err e)))
create_payload_lem_example = create_payload_lem class claim instance_type zone_a []

delete_server_lem_example :
    (e : Err) × ((delete_server provider 5 server_id state).0 ≡ some e)
    × (is_node_claim_not_found e ≡ (
        failed_not_found (client_get_server client server_id []).0
        || deletable (client_get_server client server_id []).0
          && failed_not_found
              (client_delete_server client server_id (call client (get_server server_id) ∷ [])).0))
    × ((delete_server provider 5 server_id state).1.calls ≡ (
        if deletable (client_get_server client server_id []).0
        then call client (delete_request server_id) ∷ call client (get_server server_id) ∷ []
        else call client (get_server server_id) ∷ []))
delete_server_lem_example = delete_server_lem provider 5 server_id state

abbrev quota : Text
quota = str "quota exceeded"

abbrev forbidden : ApiError
forbidden = record { status_code = 403; body = quota; error_message = [] }

forbidden_error : as_api_error (open_api 403 quota []) ≡ some forbidden
unfolding as_api_error
forbidden_error = refl

forbidden_says : says_no_capacity forbidden ≡ true
unfolding says_no_capacity contains to_lower str
forbidden_says = refl

record_launch_failure_forbidden_example :
    (is_insufficient_capacity (open_api 403 quota []) ≡ true)
    × (record_launch_failure 5 (open_api 403 quota []) small zone_a state ≡ state)
record_launch_failure_forbidden_example =
    record_launch_failure_forbidden 5 (open_api 403 quota []) forbidden small zone_a state
      forbidden_error refl forbidden_says

full_says : is_insufficient_capacity (open_api 409 quota []) ≡ true
unfolding is_insufficient_capacity as_api_error says_no_capacity contains to_lower str
full_says = refl

full_authorized : is_unauthorized (open_api 409 quota []) ≡ false
unfolding is_unauthorized as_api_error
full_authorized = refl

get-launched_example :
    let r = launched provider 5 instance_type zone_a (ok server) state in
    (r.0 ≡ ok (new_instance server)) × (get provider 30 false server_id r.1 ≡ (r.0, r.1))
unfolding new_instance
get-launched_example =
    get-launched provider (simple_cache-IsGoCache default_ttl) 5 30 instance_type zone_a server
      state (omega arith) (omega arith)

gone : is_not_found not_found ≡ true
unfolding is_not_found as_api_error
gone = refl

fetched_not_found_example :
    ((fetched provider 5 server_id (err not_found) state).0
      ≡ err (node_claim_not_found (Errors.client not_found)))
    × (get provider 6 false server_id (fetched provider 5 server_id (err not_found) state).1
        ≡ fetch provider 6 server_id (fetched provider 5 server_id (err not_found) state).1)
fetched_not_found_example =
    fetched_not_found provider (simple_cache-IsGoCache default_ttl) 5 6 server_id not_found state
      gone
