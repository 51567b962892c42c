-- ===== src/Controllers/NodeClass/Reconcile.antt =====
-- Validation, and what a reconcile returns.
use karpenter_provider_stack.Prelude.{
  ◌≤◌, ◌≡◌, ◌⊎◌, inl, inr, refl, sym, Bool, true, false, not, ◌&&◌, Option, none, some, List, [],
  ◌∷◌, Text, All, arith, if◌then◌else◌, length, ltb, keys,
}
use karpenter_provider_stack.Errors.{ClientError, plain, ok}
use karpenter_provider_stack.Env.Conditions.{Conditions}
use karpenter_provider_stack.Env.Sdk.{Networking}
use karpenter_provider_stack.Apis.NodeClass.{StackitNodeClass, condition_true, condition_false}
use karpenter_provider_stack.Utils.Labels.{at, validate_labels}
use karpenter_provider_stack.Utils.Labels.Validate.{IsValidLabel, validate_labels_iff}
use karpenter_provider_stack.Instance.Payload.{is_set, is_empty, networking}
use karpenter_provider_stack.Instance.Payload.Laws.{OneNetworking, OneNetworking-networking}
use karpenter_provider_stack.Controllers.NodeClass.{validate_networking, validate, set_validation}

-- Exactly one of a network and of network interfaces, and of these at most one.
abbrev pub ValidNetworking : StackitNodeClass → Type 0
ValidNetworking c = OneNetworking c × (length c.spec.networking.nic_ids ≤ 1)

short : (xs : List Text) → is_empty xs ≡ true → length xs ≤ 1
short [] h = omega arith
short (x ∷ xs) h = cc

-- The three tests of the switch, in the order in which they stand.
networking_tests :
    (a b : Bool) (nics : List Text)
    → b ≡ is_empty nics
    → (if a && not b
        then some plain
        else if not a && not (not b)
        then some plain
        else if not b && ltb 1 (length nics)
        then some plain
        else none)
      ≡ none
    → (((a ≡ true) × (b ≡ true)) ⊎ ((a ≡ false) × (b ≡ false))) × (length nics ≤ 1)
networking_tests true true nics e h = (inl (refl, refl), short nics (sym e))
networking_tests true false nics e h = cc
networking_tests false true nics e h = cc
networking_tests false false nics e h = (inr (refl, refl), ground arith)

validate_networking_sound :
    (c : StackitNodeClass) → validate_networking c ≡ none → ValidNetworking c
unfolding validate_networking
validate_networking_sound c h =
    networking_tests (is_set c.spec.networking.network_id) (is_empty c.spec.networking.nic_ids)
      c.spec.networking.nic_ids refl h

validate_networking_complete :
    (c : StackitNodeClass) → ValidNetworking c → validate_networking c ≡ none
unfolding validate_networking
validate_networking_complete c (inl (a, b), l) = rw (a, b)
validate_networking_complete c (inr (a, b), l) = rw (a, b) (ground arith)

-- What validation asks of a class.
abbrev pub IsValid : StackitNodeClass → Type 0
IsValid c = All (λ k. IsValidLabel k (at c.spec.labels k)) (keys c.spec.labels) × ValidNetworking c

abbrev pub Verdict : Conditions → StackitNodeClass → Type 0
Verdict k c =
    (IsValid c
      × ((validate k c).0 ≡ none)
      × ((validate k c).1.status.validation_succeeded.status ≡ condition_true)
      × ((net : Networking) × (networking (validate k c).1 ≡ ok net)))
    ⊎ ((¬ IsValid c)
        × ((e : ClientError) × ((validate k c).0 ≡ some e))
        × ((validate k c).1.status.validation_succeeded.status ≡ condition_false))

validate_both :
    (k : Conditions) (c : StackitNodeClass)
    → validate_labels c.spec.labels ≡ none
    → validate_networking c ≡ none
    → validate k c ≡ (none, set_validation k condition_true c)
unfolding validate
validate_both k c l n = rw (l, n)

validate_bad_networking :
    (k : Conditions) (c : StackitNodeClass) (e : ClientError)
    → validate_labels c.spec.labels ≡ none
    → validate_networking c ≡ some e
    → validate k c ≡ (some e, set_validation k condition_false c)
unfolding validate
validate_bad_networking k c e l n = rw (l, n)

validate_bad_labels :
    (k : Conditions) (c : StackitNodeClass) (e : ClientError)
    → validate_labels c.spec.labels ≡ some e
    → validate k c ≡ (some e, set_validation k condition_false c)
unfolding validate
validate_bad_labels k c e l = rw l

-- A class validates, with its condition set to true, exactly if its labels are valid and its
-- networking is one network or one interface; otherwise the condition is false and there is an
-- error. A launch request of a class that validates has its networking.
pub validate_lem : (k : Conditions) (c : StackitNodeClass) → Verdict k c
validate_lem k c = by_labels (validate_labels c.spec.labels) refl
  where
    by_networking :
        validate_labels c.spec.labels ≡ none
        → (r : Option ClientError) → validate_networking c ≡ r
        → Verdict k c
    by_networking l none n =
        let v = validate_networking_sound c n in
        let w = OneNetworking-networking c v.0 in
        let e = validate_both k c l n in
        inl (
          ((validate_labels_iff c.spec.labels).0 l, v),
          rw e,
          rw e,
          (w.0, rw e (unfold networking in w.1)),
        )
    by_networking l (some f) n =
        let e = validate_bad_networking k c f l n in
        inr ((λ v. cc (validate_networking_complete c v.1)), (f, rw e), rw e)

    by_labels : (r : Option ClientError) → validate_labels c.spec.labels ≡ r → Verdict k c
    by_labels none l = by_networking l (validate_networking c) refl
    by_labels (some f) l =
        let e = validate_bad_labels k c f l in
        inr ((λ v. cc ((validate_labels_iff c.spec.labels).1 v.0)), (f, rw e), rw e)
