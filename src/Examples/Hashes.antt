-- ===== src/Examples/Hashes.antt =====
-- The reconciles of the hash controller, at one class and one claim.
use karpenter_provider_stack.Prelude.{
  ◌≡◌, refl, true, false, none, some, [], ◌∷◌, Text, text_eq, lookup, str,
}
use karpenter_provider_stack.Errors.{ok, combine}
use karpenter_provider_stack.Apis.NodeClass.{StackitNodeClass, StackitNodeClassSpec, hash}
use karpenter_provider_stack.Controllers.Hash.{
  Kube, reconcile, restamp, restamp_all, update_node_claim_hash, stamp,
}
use karpenter_provider_stack.Controllers.Hash.Passes.{reconcile_again}
use karpenter_provider_stack.Examples.Data.{web, class, claim}

abbrev hash_spec : StackitNodeClassSpec → Text
hash_spec spec = web

abbrev kube : Kube
kube = record {
  list_claims = ok (claim ∷ []);
  same_claim = λ a b. false;
  patch_claim = λ nc. none;
  same_class = λ a b. false;
  patch_class = λ c. none;
}

abbrev stamped : StackitNodeClass
stamped = stamp (hash hash_spec class) class

upgraded :
    reconcile hash_spec kube class ≡ (restamp (hash hash_spec class) claim ∷ [], some stamped, none)
unfolding reconcile update_node_claim_hash restamp_all combine lookup text_eq str
upgraded = refl

reconcile_again_example :
    reconcile hash_spec (record kube { same_class = λ a b. true }) stamped ≡ ([], none, none)
reconcile_again_example =
    reconcile_again hash_spec kube class stamped (restamp (hash hash_spec class) claim ∷ []) none
      (record kube { same_class = λ a b. true }) (λ x. refl) upgraded
