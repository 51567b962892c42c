-- ===== src/Controllers/GarbageCollection/Spares.antt =====
-- Servers that a pass leaves alone.
use karpenter_provider_stack.Prelude.{
  ℕ, ◌≡◌, ◌⊎◌, inl, inr, refl, sym, subst, ◌∙◌, Bool, true, false, Bool-cases, Option, none, some,
  List, [], ◌∷◌, Text, text_eq, text_eq_refl, any, select, In, here, there, if◌then◌else◌, arith,
}
use karpenter_provider_stack.Errors.{Err, Result, ok, err, combine}
use karpenter_provider_stack.Apis.Core.{NodeClaim, Node}
use karpenter_provider_stack.Utils.ProviderId.{
  provider_id_prefix, provider_id, parse_instance_id_iff,
}
use karpenter_provider_stack.Instance.Provider
use karpenter_provider_stack.CloudProvider.{CloudProvider}
use karpenter_provider_stack.Controllers.GarbageCollection.{
  Kube, State, ids_of, is_zero, collect_all, finish, pass,
}
use karpenter_provider_stack.Controllers.GarbageCollection.Safety.{
  Collectable, request_to_delete, collect_all_safe,
}

-- A provider id of a managed claim that is not empty is among the ids that the pass compares with.
pub any-ids_of :
    (nc : NodeClaim) (managed : List NodeClaim)
    → In nc managed
    → text_eq nc.provider_id [] ≡ false
    → any (λ i. text_eq i nc.provider_id) (ids_of managed) ≡ true
unfolding select
any-ids_of nc [] m h = elim m [ ]
any-ids_of nc (x ∷ managed) (here e) h = rw (e, h) (ground (arith, text_eq_refl nc.provider_id))
any-ids_of nc (x ∷ managed) (there m) h = elim (Bool-cases (text_eq x.provider_id [])) [
  | inl blank ↦ rw blank (any-ids_of nc managed m h)
  | inr full ↦ rw full (ground (arith, any-ids_of nc managed m h))
]

pub provider_id_not_empty : (id : Text) → text_eq (provider_id id) [] ≡ false
unfolding provider_id provider_id_prefix text_eq
provider_id_not_empty id = refl

In_kept :
    {A : Type 0} (x y : A) (rest xs : List A) (b : Bool) (p : A → Bool)
    → p y ≡ b
    → (In x rest → In x xs × (p x ≡ true))
    → In x (if b then y ∷ rest else rest)
    → In x (y ∷ xs) × (p x ≡ true)
In_kept x y rest xs true p e ih (here same) = (here same, subst (λ z. p z ≡ true) same e)
In_kept x y rest xs true p e ih (there m) = (there (ih m).0, (ih m).1)
In_kept x y rest xs false p e ih m = (there (ih m).0, (ih m).1)

In-select :
    {A : Type 0} (p : A → Bool) (x : A) (xs : List A) → In x (select p xs) → In x xs × (p x ≡ true)
unfolding select
In-select p x [] m = elim m [ ]
In-select p x (y ∷ xs) m = In_kept x y (select p xs) xs (p y) p refl (In-select p x xs) m

module _ (cp : CloudProvider) (kube : Kube) (now : ℕ) where
  finish_provider : (e : Option Err) (s : State) → (finish cp kube now e s).1.provider ≡ s.provider
  finish_provider none s = refl
  finish_provider (some e) s = refl

  -- Whom a request to delete may come from, in a pass.
  abbrev pub PassedOver : List NodeClaim → List NodeClaim → Text → Type 0
  PassedOver cloud managed x =
      (nc : NodeClaim) × In nc cloud
      × (is_zero nc.deletion_timestamp ≡ true)
      × Collectable cp kube now (ids_of managed) nc x

  pub pass-PassedOver :
      (cloud managed : List NodeClaim) (nodes : Result Err (List Node)) (s : State) (x : Text)
      → In
          (request_to_delete cp kube now x)
          (pass cp kube now cloud (ok managed) nodes s).1.provider.calls
      → In (request_to_delete cp kube now x) s.provider.calls ⊎ PassedOver cloud managed x
  pass-PassedOver cloud managed (err e) s x m = inl m
  pass-PassedOver cloud managed (ok nodes) s x m =
      let live = select (λ (nc : NodeClaim). is_zero nc.deletion_timestamp) cloud in
      let collected = collect_all cp kube now (ids_of managed) nodes live s in
      let asked =
        subst (λ (p : Provider.State). In (request_to_delete cp kube now x) p.calls)
          (finish_provider (combine collected.0) collected.1) m in
      elim (collect_all_safe cp kube now (ids_of managed) nodes live s x asked) [
        | inl old ↦ inl old
        | inr (nc, i, c) ↦
            (let (j, l) =
                In-select (λ (nc : NodeClaim). is_zero nc.deletion_timestamp) nc cloud i in
              inr (nc, j, l, c))
      ]

  -- A pass never asks to delete the server of a managed claim of the cluster, whatever the cloud's
  -- listing says: if it has asked to delete a server whose provider id a managed claim has, the
  -- request is one of before the pass.
  pub pass_spares :
      (cloud managed : List NodeClaim) (nodes : Result Err (List Node)) (s : State) (x : Text)
      (nc : NodeClaim)
      → In nc managed
      → nc.provider_id ≡ provider_id x
      → In
          (request_to_delete cp kube now x)
          (pass cp kube now cloud (ok managed) nodes s).1.provider.calls
      → In (request_to_delete cp kube now x) s.provider.calls
  pass_spares cloud managed nodes s x nc i e m = elim (pass-PassedOver cloud managed nodes s x m) [
    | inl old ↦ old
    | inr (other, j, live, (alone, created, parsed)) ↦
        (let (same, good) = (parse_instance_id_iff other.provider_id x).0 parsed in
          let ids : nc.provider_id ≡ other.provider_id = e ∙ sym same in
          let full : text_eq nc.provider_id [] ≡ false = rw e (provider_id_not_empty x) in
          let backed = any-ids_of nc managed i full in cc (rw ids at backed))
  ]
