-- ===== src/Instance/Keyed.antt =====
-- Each operation of the provider keeps the instance cache keyed by the servers' ids.
use karpenter_provider_stack.Prelude.{
  ℕ, ◌≡◌, inl, inr, refl, sym, subst, Bool, true, false, Bool-cases, Option, none, some, List, [],
  ◌∷◌, Text, text_eq_sound, arith,
}
use karpenter_provider_stack.Errors.{Err, ClientError, Result, ok, err}
use karpenter_provider_stack.Env.GoCache.{History, Held}
use karpenter_provider_stack.Env.Sdk.{Call, CreateServerPayload}
use karpenter_provider_stack.Apis.Core.{Server, InstanceType}
use karpenter_provider_stack.Stackit.Classify.{is_not_found, is_conflict}
use karpenter_provider_stack.Stackit.Client.{
  Client, client_get_server, client_delete_server, client_create_server,
}
use karpenter_provider_stack.Instance.{Instance, new_instance, terminating}
use karpenter_provider_stack.Instance.Provider.{
  State, DefaultProvider, record_launch_failure, remember, forget, launched, launch, fetched, fetch,
  got, get, remember_all, listed, deleted, delete_found, delete_server, updated,
}

abbrev pub IsKeyed : History Instance → Type 0
IsKeyed cache = (k : Text) (i : Instance) → Held k i cache → i.id ≡ k

-- The API's documented answer: the server that was asked for.
abbrev pub AnswersById : Client → Type 0
AnswersById c =
    (id : Text) (h : List Call) (server : Server)
    → (client_get_server c id h).0 ≡ ok server
    → (new_instance server).id ≡ id

pub remember-IsKeyed :
    (now : ℕ) (id : Text) (i : Instance) (s : State)
    → i.id ≡ id
    → IsKeyed s.instance_cache
    → IsKeyed (remember now id i s).instance_cache
unfolding remember
remember-IsKeyed now id i s e v k j h = elim h [
  | inl (same, is) ↦ rw (← is, e) (text_eq_sound id k same)
  | inr (ne, old) ↦ v k j old
]

pub forget-IsKeyed :
    (id : Text) (s : State) → IsKeyed s.instance_cache → IsKeyed (forget id s).instance_cache
unfolding forget
forget-IsKeyed id s v k j h = v k j h.1

record_launch_failure_cache :
    (now : ℕ) (e : ClientError) (mt z : Text) (s : State)
    → (record_launch_failure now e mt z s).instance_cache ≡ s.instance_cache
unfolding record_launch_failure
record_launch_failure_cache now e mt z s = ground arith

module _ (p : DefaultProvider) (now : ℕ) where
  pub launched-IsKeyed :
      (it : InstanceType) (z : Text) (r : Result ClientError Server) (s : State)
      → IsKeyed s.instance_cache
      → IsKeyed (launched p now it z r s).1.instance_cache
  unfolding launched
  launched-IsKeyed it z (err e) s v =
      subst IsKeyed (sym (record_launch_failure_cache now e it.name z s)) v
  launched-IsKeyed it z (ok server) s v = remember-IsKeyed now _ (new_instance server) s refl v

  pub launch-IsKeyed :
      (it : InstanceType) (z : Text) (r : Result ClientError CreateServerPayload) (s : State)
      → IsKeyed s.instance_cache
      → IsKeyed (launch p now it z r s).1.instance_cache
  unfolding launch
  launch-IsKeyed it z (err e) s v = v
  launch-IsKeyed it z (ok payload) s v =
      launched-IsKeyed it z (client_create_server p.api payload s.calls).0
        (record s { calls = (client_create_server p.api payload s.calls).1 }) v

  pub fetched-IsKeyed :
      (id : Text) (r : Result ClientError Server) (s : State)
      → ((server : Server) → r ≡ ok server → (new_instance server).id ≡ id)
      → IsKeyed s.instance_cache
      → IsKeyed (fetched p now id r s).1.instance_cache
  unfolding fetched
  fetched-IsKeyed id (err e) s a v = elim (Bool-cases (is_not_found e)) [
    | inl gone ↦ rw (fetched, gone) (forget-IsKeyed id s v)
    | inr there ↦ rw (fetched, there) v
  ]
  fetched-IsKeyed id (ok server) s a v =
      remember-IsKeyed now id (new_instance server) s (a server refl) v

  pub remember_all-IsKeyed :
      (servers : List Server) (s : State)
      → IsKeyed s.instance_cache
      → IsKeyed (remember_all p now servers s).1.instance_cache
  unfolding remember_all
  remember_all-IsKeyed [] s v = v
  remember_all-IsKeyed (server ∷ servers) s v =
      remember_all-IsKeyed servers (remember now _ (new_instance server) s)
        (remember-IsKeyed now _ (new_instance server) s refl v)

  pub listed-IsKeyed :
      (r : Result ClientError (List Server)) (s : State)
      → IsKeyed s.instance_cache
      → IsKeyed (listed p now r s).1.instance_cache
  listed-IsKeyed (err e) s v = v
  listed-IsKeyed (ok servers) s v = remember_all-IsKeyed servers s v

  pub deleted-IsKeyed :
      (id : Text) (r : Result ClientError (Unit {0})) (s : State)
      → IsKeyed s.instance_cache
      → IsKeyed (deleted p now id r s).1.instance_cache
  unfolding deleted
  deleted-IsKeyed id (ok x) s v = forget-IsKeyed id s v
  deleted-IsKeyed id (err e) s v = elim (Bool-cases (is_not_found e)) [
    | inl gone ↦ rw (deleted, gone) (forget-IsKeyed id s v)
    | inr there ↦ elim (Bool-cases (is_conflict e)) [
      | inl c ↦ rw (deleted, there, c) v
      | inr c ↦ rw (deleted, there, c) v
    ]
  ]

  pub updated-IsKeyed :
      (id : Text) (r : Result ClientError (Unit {0})) (s : State)
      → IsKeyed s.instance_cache
      → IsKeyed (updated p now id r s).1.instance_cache
  updated-IsKeyed id (ok x) s v = forget-IsKeyed id s v
  updated-IsKeyed id (err e) s v = elim (Bool-cases (is_not_found e)) [
    | inl gone ↦ rw gone v
    | inr there ↦ rw there v
  ]

  pub delete_found-IsKeyed :
      (id : Text) (r : Result Err Instance) (s : State)
      → IsKeyed s.instance_cache
      → IsKeyed (delete_found p now id r s).1.instance_cache
  unfolding delete_found
  delete_found-IsKeyed id (err e) s v = v
  delete_found-IsKeyed id (ok i) s v = elim (Bool-cases (terminating i)) [
    | inl going ↦ rw (delete_found, going) v
    | inr staying ↦
        rw (delete_found, staying)
          (deleted-IsKeyed id (client_delete_server p.api id s.calls).0
            (record s { calls = (client_delete_server p.api id s.calls).1 }) v)
  ]

  module _ (answers : AnswersById p.api) where
    pub fetch-IsKeyed :
        (id : Text) (s : State)
        → IsKeyed s.instance_cache
        → IsKeyed (fetch p now id s).1.instance_cache
    unfolding fetch
    fetch-IsKeyed id s v =
        fetched-IsKeyed id (client_get_server p.api id s.calls).0
          (record s { calls = (client_get_server p.api id s.calls).1 }) (answers id s.calls) v

    pub got-IsKeyed :
        (id : Text) (s : State) (r : Option Instance)
        → IsKeyed s.instance_cache
        → IsKeyed (got p now id s r).1.instance_cache
    got-IsKeyed id s none v = fetch-IsKeyed id s v
    got-IsKeyed id s (some i) v = v

    pub get-IsKeyed :
        (skip : Bool) (id : Text) (s : State)
        → IsKeyed s.instance_cache
        → IsKeyed (get p now skip id s).1.instance_cache
    unfolding get
    get-IsKeyed true id s v = fetch-IsKeyed id s v
    get-IsKeyed false id s v = got-IsKeyed id s (p.instances.get s.instance_cache now id) v

    pub delete_server-IsKeyed :
        (id : Text) (s : State)
        → IsKeyed s.instance_cache
        → IsKeyed (delete_server p now id s).1.instance_cache
    unfolding delete_server
    delete_server-IsKeyed id s v =
        delete_found-IsKeyed id (get p now true id s).0 (get p now true id s).1
          (get-IsKeyed true id s v)
