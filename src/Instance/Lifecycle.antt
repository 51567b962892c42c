-- ===== src/Instance/Lifecycle.antt =====
-- What Create, Get, Delete and their effects on the instance cache and the offerings promise.
use karpenter_provider_stack.Prelude.{
  ℕ, ◌+◌, ◌≤◌, ◌<◌, ◌≡◌, inl, inr, refl, Bool, true, false, not, ◌&&◌, ◌||◌, Option, some, ◌∷◌,
  Text, if◌then◌else◌, arith, Bool-cases,
}
use karpenter_provider_stack.Errors.{
  Err, ClientError, plain, client, wrapped, node_claim_not_found, Result, ok, err,
  is_node_claim_not_found,
}
use karpenter_provider_stack.Env.GoCache.{GoCache, IsGoCache}
use karpenter_provider_stack.Env.Sdk.{get_server}
use karpenter_provider_stack.Env.Sdk.{delete_server as delete_request}
use karpenter_provider_stack.Apis.Core.{Server, InstanceType}
use karpenter_provider_stack.Cache.{default_ttl, unavailable_offerings_ttl}
use karpenter_provider_stack.Cache.Unavailable.{is_unavailable}
use karpenter_provider_stack.Cache.Unavailable.Marks.{mark_unavailable_lem}
use karpenter_provider_stack.Stackit.Classify.{
  ApiError, as_api_error, is_not_found, is_unauthorized, is_insufficient_capacity, says_no_capacity,
}
use karpenter_provider_stack.Stackit.Client.{call, client_get_server, client_delete_server}
use karpenter_provider_stack.Instance.{new_instance, terminating}
use karpenter_provider_stack.Instance.Provider.{
  State, DefaultProvider, record_launch_failure, remember, forget, launched, fetched, fetch, get,
  deleted, delete_found, delete_server,
}

-- A refusal for lack of quota with status 403 counts as rejected credentials: it is a capacity error
-- by IsInsufficientCapacity, and yet no offering leaves rotation.
pub record_launch_failure_forbidden :
    (now : ℕ) (e : ClientError) (a : ApiError) (mt z : Text) (s : State)
    → as_api_error e ≡ some a
    → a.status_code ≡ 403
    → says_no_capacity a ≡ true
    → (is_insufficient_capacity e ≡ true) × (record_launch_failure now e mt z s ≡ s)
unfolding is_insufficient_capacity record_launch_failure is_unauthorized
record_launch_failure_forbidden now e a mt z s h c q = (ground arith, ground arith)

-- A launch that fails for lack of capacity, and not with status 401 or 403, takes its machine type
-- out of rotation in its zone for the time to live of unavailable offerings.
pub launched_capacity :
    (lib : GoCache (Unit {0}))
    → IsGoCache unavailable_offerings_ttl lib
    → (p : DefaultProvider) (now t : ℕ) (it : InstanceType) (z : Text) (e : ClientError) (s : State)
    → is_insufficient_capacity e ≡ true
    → is_unauthorized e ≡ false
    → now ≤ t
    → t < now + unavailable_offerings_ttl
    → is_unavailable lib (launched p now it z (err e) s).1.unavailable_offerings t it.name z ≡ true
unfolding launched
launched_capacity lib spec p now t it z e s c u h l =
    unfold record_launch_failure in
    rw (u, c) (mark_unavailable_lem lib spec s.unavailable_offerings now t it.name z it.name h l).0

-- Is a server there and not yet being deleted?
abbrev pub deletable : Result ClientError Server → Bool
deletable (err e) = false
deletable (ok server) = not (terminating (new_instance server))

abbrev pub failed_not_found {ℓ} : {A : Type ℓ} → Result ClientError A → Bool
failed_not_found (err e) = is_not_found e
failed_not_found (ok a) = false

module _ (p : DefaultProvider) (now : ℕ) (id : Text) where
  -- Delete, from the answer to its GetServer request.
  abbrev delete_with : Result ClientError Server → State → Option Err × State
  delete_with answer s =
      let (found, s') = fetched p now id answer s in delete_found p now id found s'

  deleted_lem :
      (r : Result ClientError (Unit {0})) (s : State)
      → (e : Err) × ((deleted p now id r s).0 ≡ some e)
        × (is_node_claim_not_found e ≡ failed_not_found r)
        × ((deleted p now id r s).1.calls ≡ s.calls)
  deleted_lem (ok _) s = (
    client plain,
    unfold deleted in refl,
    unfold is_node_claim_not_found in refl,
    unfold deleted forget in refl,
  )
  deleted_lem (err e) s = elim (Bool-cases (is_not_found e)) [
    | inl gone ↦ (
      node_claim_not_found (client e),
      unfold deleted in rw gone,
      unfold is_node_claim_not_found in rw gone,
      unfold deleted forget in rw gone,
    )
    | inr there ↦ (
      client (wrapped e),
      unfold deleted in ground (arith, there),
      unfold is_node_claim_not_found in rw there,
      unfold deleted forget in ground (arith, there),
    )
  ]

  abbrev delete_answer : State → Result ClientError (Unit {0})
  delete_answer s = (client_delete_server p.api id s.calls).0

  delete_with_lem :
      (answer : Result ClientError Server) (s : State)
      → (e : Err) × ((delete_with answer s).0 ≡ some e)
        × (is_node_claim_not_found e
            ≡ (failed_not_found answer || deletable answer && failed_not_found (delete_answer s)))
        × ((delete_with answer s).1.calls
            ≡ (if deletable answer then call p.api (delete_request id) ∷ s.calls else s.calls))
  delete_with_lem (err e) s = elim (Bool-cases (is_not_found e)) [
    | inl gone ↦ (
      node_claim_not_found (client e),
      unfold fetched delete_found in rw gone,
      unfold is_node_claim_not_found in rw gone,
      unfold fetched delete_found forget in rw gone,
    )
    | inr there ↦ (
      client (wrapped e),
      unfold fetched delete_found in rw there,
      unfold is_node_claim_not_found in rw there,
      unfold fetched delete_found in rw there,
    )
  ]
  delete_with_lem (ok server) s = elim (Bool-cases (terminating (new_instance server))) [
    | inl going ↦ (
      client plain,
      unfold fetched delete_found in rw going,
      unfold is_node_claim_not_found in rw going,
      unfold fetched delete_found remember in rw going,
    )
    | inr staying ↦
        let s' : State = record (remember now id (new_instance server) s) {
          calls = call p.api (delete_request id) ∷ s.calls;
        } in
        let d = deleted_lem (delete_answer s) s' in
        (
          d.0,
          unfold fetched delete_found remember client_delete_server in
              rw staying (unfold remember client_delete_server in d.1),
          rw staying d.2,
          unfold fetched delete_found remember client_delete_server in
              rw staying (unfold remember client_delete_server in d.3),
        )
  ]

  -- Deleting asks for the server afresh; it sends a delete request exactly if the server is there
  -- and not yet being deleted. Every path returns an error, and the
  -- error says that the claim is gone exactly if one of the two requests was answered by a 404.
  pub delete_server_lem :
      (s : State)
      → let answer = (client_get_server p.api id s.calls).0 in
        let calls = call p.api (get_server id) ∷ s.calls in
        (e : Err) × ((delete_server p now id s).0 ≡ some e)
        × (is_node_claim_not_found e ≡ (
            failed_not_found answer
            || deletable answer && failed_not_found (client_delete_server p.api id calls).0))
        × ((delete_server p now id s).1.calls
            ≡ (if deletable answer then call p.api (delete_request id) ∷ calls else calls))
  delete_server_lem s =
      unfold delete_server get fetch client_get_server in
      delete_with_lem (client_get_server p.api id s.calls).0
        (record s { calls = call p.api (get_server id) ∷ s.calls })

module _ (p : DefaultProvider) (spec : IsGoCache default_ttl p.instances) where
  open spec use {get-set_self, get-delete_self}

  -- A launch that the API answered with a server returns that server's instance. It is served from the
  -- cache for its time to live: Get then makes no request and gives the same result as the launch.
  pub get-launched :
      (now t : ℕ) (it : InstanceType) (z : Text) (server : Server) (s : State)
      → now ≤ t
      → t < now + default_ttl
      → let r = launched p now it z (ok server) s in
        (r.0 ≡ ok (new_instance server)) × (get p t false (new_instance server).id r.1 ≡ (r.0, r.1))
  unfolding launched get
  get-launched now t it z server s h l =
      unfold remember in
      (
        refl,
        rw (get-set_self s.instance_cache now t (new_instance server).id (new_instance server) h l),
      )

  fetched_gone :
      (now : ℕ) (id : Text) (e : ClientError) (s : State)
      → is_not_found e ≡ true
      → fetched p now id (err e) s ≡ (err (node_claim_not_found (client e)), forget id s)
  unfolding fetched
  fetched_gone now id e s h = rw h

  -- Once the API has answered 404 for a server, the answer is that the claim is gone, and no stale
  -- copy is served: the next Get asks the API, also where it may use the cache.
  pub fetched_not_found :
      (now t : ℕ) (id : Text) (e : ClientError) (s : State)
      → is_not_found e ≡ true
      → let s' = (fetched p now id (err e) s).1 in
        ((fetched p now id (err e) s).0 ≡ err (node_claim_not_found (client e)))
        × (get p t false id s' ≡ fetch p t id s')
  fetched_not_found now t id e s h =
      rw (fetched_gone now id e s h)
        (refl, unfold get forget in rw (get-delete_self s.instance_cache t id))
