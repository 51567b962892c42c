-- ===== src/Instance/Coherence.antt =====
-- The instance cache: whatever the provider has done, an entry is of the server that its key names.
use karpenter_provider_stack.Prelude.{
  ℕ, ◌≡◌, inl, inr, refl, sym, subst, Bool, true, false, Bool-cases, Option, none, some, List, [],
  Text, Map,
}
use karpenter_provider_stack.Errors.{Err, ClientError, Result, ok, err}
use karpenter_provider_stack.Env.GoCache.{IsGoCache}
use karpenter_provider_stack.Apis.NodeClass.{StackitNodeClass}
use karpenter_provider_stack.Apis.Core.{NodeClaim, Server, InstanceType}
use karpenter_provider_stack.Cache.{default_ttl}
use karpenter_provider_stack.Stackit.Classify.{is_not_found}
use karpenter_provider_stack.Stackit.Client.{client_update_server_labels, client_list_servers}
use karpenter_provider_stack.Instance.{Instance, new_instance}
use karpenter_provider_stack.Instance.Select.{cheapest_offering}
use karpenter_provider_stack.Instance.Payload.{create_payload}
use karpenter_provider_stack.Instance.Provider.{
  State, DefaultProvider, launch_chosen, create, fetched, fetch, got, get, list, delete_server,
  update_labels,
}
use karpenter_provider_stack.Instance.Keyed.{
  IsKeyed, AnswersById, launch-IsKeyed, listed-IsKeyed, updated-IsKeyed, get-IsKeyed,
  delete_server-IsKeyed,
}

-- What the provider may do, and what may happen beside it.
pub data Step (p : DefaultProvider) (s s' : State) : Type 0 where
  launches :
      (now : ℕ) (c : StackitNodeClass) (n : NodeClaim) (labels : Map Text) (its : List InstanceType)
      → s' ≡ (create p now c n labels its s).1
      → Step p s s'
  gets : (now : ℕ) (skip : Bool) (id : Text) → s' ≡ (get p now skip id s).1 → Step p s s'
  lists : (now : ℕ) → s' ≡ (list p now s).1 → Step p s s'
  deletes : (now : ℕ) (id : Text) → s' ≡ (delete_server p now id s).1 → Step p s s'
  relabels :
      (now : ℕ) (id : Text) (labels : Map Text)
      → s' ≡ (update_labels p now id labels s).1
      → Step p s s'
  elsewhere : s'.instance_cache ≡ s.instance_cache → Step p s s'

pub data Reach (p : DefaultProvider) : State → Type 0 where
  start : {s : State} → s.instance_cache ≡ [] → Reach p s
  next : {s s' : State} → Reach p s → Step p s s' → Reach p s'

module _ (p : DefaultProvider) (answers : AnswersById p.api)
    (spec : IsGoCache default_ttl p.instances) where
  create-IsKeyed :
      (now : ℕ) (c : StackitNodeClass) (n : NodeClaim) (labels : Map Text) (s : State)
      (r : Result Err (InstanceType × Text))
      → IsKeyed s.instance_cache
      → IsKeyed (launch_chosen p now c n labels r s).1.instance_cache
  create-IsKeyed now c n labels s (err e) v = v
  create-IsKeyed now c n labels s (ok (it, z)) v =
      launch-IsKeyed p now it z (create_payload c n it z labels) s v

  after : {s s' : State} → s' ≡ s → IsKeyed s.instance_cache → IsKeyed s'.instance_cache
  after e v = subst (λ (x : State). IsKeyed x.instance_cache) (sym e) v

  Step-IsKeyed : {s s' : State} → IsKeyed s.instance_cache → Step p s s' → IsKeyed s'.instance_cache
  unfolding create list update_labels
  Step-IsKeyed {s} v (launches now c n labels its e) =
      after e (create-IsKeyed now c n labels s (cheapest_offering p.karpenter its n) v)
  Step-IsKeyed {s} v (gets now skip id e) = after e (get-IsKeyed p now answers skip id s v)
  Step-IsKeyed {s} v (lists now e) =
      after e
        (listed-IsKeyed p now _ (record s { calls = (client_list_servers p.api _ s.calls).1 }) v)
  Step-IsKeyed {s} v (deletes now id e) = after e (delete_server-IsKeyed p now answers id s v)
  Step-IsKeyed {s} v (relabels now id labels e) = after e (
      updated-IsKeyed p now id _
        (record s { calls = (client_update_server_labels p.api id labels s.calls).1 }) v)
  Step-IsKeyed {s} v (elsewhere e) = subst IsKeyed (sym e) v

  Reach-IsKeyed : {s : State} → Reach p s → IsKeyed s.instance_cache
  Reach-IsKeyed (start e) = subst IsKeyed (sym e) (λ k i h. absurd h)
  Reach-IsKeyed (next r st) = Step-IsKeyed (Reach-IsKeyed r) st

  fetched-id :
      (now : ℕ) (id : Text) (s s' : State) (i : Instance) (r : Result ClientError Server)
      → ((server : Server) → r ≡ ok server → (new_instance server).id ≡ id)
      → fetched p now id r s ≡ (ok i, s')
      → i.id ≡ id
  unfolding fetched
  fetched-id now id s s' i (err e) a h = elim (Bool-cases (is_not_found e)) [
    | inl gone ↦ cc (rw (fetched, gone) at h)
    | inr there ↦ cc (rw (fetched, there) at h)
  ]
  fetched-id now id s s' i (ok server) a h =
      let same : new_instance server ≡ i = cc h in rw (← same) (a server refl)

  got-id :
      (now : ℕ) (id : Text) (s s' : State) (i : Instance) (r : Option Instance)
      → IsKeyed s.instance_cache
      → p.instances.get s.instance_cache now id ≡ r
      → got p now id s r ≡ (ok i, s')
      → i.id ≡ id
  unfolding fetch
  got-id now id s s' i none v e h = fetched-id now id _ s' i _ (answers id s.calls) h
  got-id now id s s' i (some j) v e h =
      let same : j ≡ i = cc h in v id i (spec.get_sound s.instance_cache now id i (rw (← same) e))

  -- With a cache that behaves as documented and an API that answers with the server asked for:
  -- whatever launches, reads, listings, deletions and changes of labels came before, in any order,
  -- and whether or not the cache may be used: an instance that Get gives is of the server that was
  -- asked for.
  pub get-id :
      {s : State} (now : ℕ) (skip : Bool) (id : Text) (i : Instance) (s' : State)
      → Reach p s
      → get p now skip id s ≡ (ok i, s')
      → i.id ≡ id
  unfolding get fetch
  get-id {s} now true id i s' r h = fetched-id now id _ s' i _ (answers id s.calls) h
  get-id {s} now false id i s' r h =
      got-id now id s s' i (p.instances.get s.instance_cache now id) (Reach-IsKeyed r) refl h
