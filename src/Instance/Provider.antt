-- ===== src/Instance/Provider.antt =====
-- DefaultProvider (pkg/providers/instance/instance.go). A method takes the time and the provider's
-- state, and gives its result and the new state.
use karpenter_provider_stack.Prelude.{
  ℕ, Bool, true, Option, none, some, List, [], ◌∷◌, Text, Map, if◌then◌else◌,
}
use karpenter_provider_stack.Errors.{
  Err, ClientError, plain, client, wrapped, node_claim_not_found, create_error, Result, ok, err,
}
use karpenter_provider_stack.Env.GoCache.{GoCache, History, set_default, delete}
use karpenter_provider_stack.Env.Sdk.{Call, CreateServerPayload}
use karpenter_provider_stack.Env.Karpenter.{Karpenter}
use karpenter_provider_stack.Apis.LabelKeys.{label_key_managed_by}
use karpenter_provider_stack.Apis.NodeClass.{StackitNodeClass}
use karpenter_provider_stack.Apis.Core.{NodeClaim, InstanceType, Server}
use karpenter_provider_stack.Cache.Unavailable.{
  UnavailableOfferings, mark_unavailable, mark_zone_unavailable,
}
use karpenter_provider_stack.Stackit.Classify.{
  is_not_found, is_conflict, is_unauthorized, is_retryable, is_insufficient_capacity,
}
use karpenter_provider_stack.Stackit.Client.{
  Client, client_create_server, client_get_server, client_delete_server, client_list_servers,
  client_update_server_labels,
}
use karpenter_provider_stack.Utils.Labels.{label_selector}
use karpenter_provider_stack.Instance.{Instance, new_instance, terminating}
use karpenter_provider_stack.Instance.Select.{cheapest_offering}
use karpenter_provider_stack.Instance.Payload.{create_payload}

pub record State : Type 0 where
  -- the requests made, newest first
  pub calls : List Call
  pub unavailable_offerings : UnavailableOfferings
  pub instance_cache : History Instance

pub record DefaultProvider : Type 0 where
  pub cluster_name : Text
  pub api : Client
  pub instances : GoCache Instance
  pub karpenter : Karpenter

abbrev pub Method : Type 0 → Type 0
Method A = State → Result Err A × State

-- The switch of recordLaunchFailure, without its log lines.
unfoldable pub record_launch_failure : ℕ → ClientError → Text → Text → State → State
record_launch_failure now e machine_type zone s =
    if is_unauthorized e
    then s
    else if is_insufficient_capacity e
    then record s {
      unavailable_offerings = mark_unavailable now machine_type zone s.unavailable_offerings;
    }
    else if is_retryable e
    then record s { unavailable_offerings = mark_zone_unavailable now zone s.unavailable_offerings }
    else s

-- instanceCache.SetDefault and Delete.
unfoldable pub remember : ℕ → Text → Instance → State → State
remember now id i s = record s { instance_cache = set_default now id i ∷ s.instance_cache }

unfoldable pub forget : Text → State → State
forget id s = record s { instance_cache = delete id ∷ s.instance_cache }

module _ (p : DefaultProvider) (now : ℕ) where
  -- What Create does with the server that the API returned, or with its error.
  unfoldable pub launched : InstanceType → Text → Result ClientError Server → Method Instance
  unfolding record_launch_failure remember
  launched instance_type zone (err e) s = (
    err (create_error (client (wrapped e))),
    record_launch_failure now e instance_type.name zone s,
  )
  launched instance_type zone (ok server) s =
      let i = new_instance server in (ok i, remember now i.id i s)

  unfoldable pub launch :
      InstanceType → Text → Result ClientError CreateServerPayload → Method Instance
  launch instance_type zone (err e) s = (err (create_error (client e)), s)
  launch instance_type zone (ok payload) s =
      let (answer, calls) = client_create_server p.api payload s.calls in
      launched instance_type zone answer (record s { calls = calls })

  abbrev pub launch_chosen :
      StackitNodeClass → NodeClaim → Map Text → Result Err (InstanceType × Text) → Method Instance
  launch_chosen node_class node_claim labels (err e) s = (err e, s)
  launch_chosen node_class node_claim labels (ok (instance_type, zone)) s =
      launch instance_type zone (create_payload node_class node_claim instance_type zone labels) s

  unfoldable pub create :
      StackitNodeClass → NodeClaim → Map Text → List InstanceType → Method Instance
  create node_class node_claim labels instance_types s =
      launch_chosen node_class node_claim labels
        (cheapest_offering p.karpenter instance_types node_claim) s

  -- Get, past the cache: what it does with the API's answer.
  unfoldable pub fetched : Text → Result ClientError Server → Method Instance
  fetched id (err e) s =
      if is_not_found e
      then (err (node_claim_not_found (client e)), forget id s)
      else (err (client (wrapped e)), s)
  fetched id (ok server) s = let i = new_instance server in (ok i, remember now id i s)

  unfoldable pub fetch : Text → Method Instance
  fetch id s =
      let (answer, calls) = client_get_server p.api id s.calls in
      fetched id answer (record s { calls = calls })

  abbrev pub got : Text → State → Option Instance → Result Err Instance × State
  got id s (some i) = (ok i, s)
  got id s none = fetch id s

  unfoldable pub get : Bool → Text → Method Instance
  get skip_cache id s =
      let found = got id s (p.instances.get s.instance_cache now id) in
      if skip_cache then fetch id s else found

  -- The loop of List, over the servers that are left.
  unfoldable pub remember_all : List Server → State → List Instance × State
  remember_all [] s = ([], s)
  remember_all (server ∷ servers) s =
      let i = new_instance server in
      let (rest, s') = remember_all servers (remember now i.id i s) in (i ∷ rest, s')

  unfoldable pub managed_by_selector : Text
  managed_by_selector = label_selector ((label_key_managed_by, p.cluster_name) ∷ [])

  abbrev pub listed : Result ClientError (List Server) → Method (List Instance)
  listed (err e) s = (err (client (wrapped e)), s)
  listed (ok servers) s = let (is, s') = remember_all servers s in (ok is, s')

  unfoldable pub list : Method (List Instance)
  list s =
      let (answer, calls) = client_list_servers p.api managed_by_selector s.calls in
      listed answer (record s { calls = calls })

  -- Delete returns an error on every path; `none` would be nil.
  unfoldable pub deleted : Text → Result ClientError (Unit {0}) → State → Option Err × State
  deleted id (err e) s =
      if is_not_found e
      then (some (node_claim_not_found (client e)), forget id s)
      else if is_conflict e
      then (some (client (wrapped e)), s)
      else (some (client (wrapped e)), s)
  deleted id (ok _) s = (some (client plain), forget id s)

  unfoldable pub delete_found : Text → Result Err Instance → State → Option Err × State
  delete_found id (err e) s = (some e, s)
  delete_found id (ok i) s =
      if terminating i
      then (some (client plain), s)
      else let (answer, calls) = client_delete_server p.api id s.calls in
        deleted id answer (record s { calls = calls })

  unfoldable pub delete_server : Text → State → Option Err × State
  delete_server id s = let (found, s') = get true id s in delete_found id found s'

  abbrev pub updated : Text → Result ClientError (Unit {0}) → State → Option Err × State
  updated id (err e) s =
      if is_not_found e
      then (some (node_claim_not_found (client (wrapped e))), s)
      else (some (client (wrapped e)), s)
  updated id (ok _) s = (none, forget id s)

  unfoldable pub update_labels : Text → Map Text → State → Option Err × State
  update_labels id labels s =
      let (answer, calls) = client_update_server_labels p.api id labels s.calls in
      updated id answer (record s { calls = calls })
