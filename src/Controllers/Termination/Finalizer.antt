-- ===== src/Controllers/Termination/Finalizer.antt =====
-- When the finalizer is taken and when it is released.
use karpenter_provider_stack.Prelude.{
  ℕ, ◌≡◌, ◌↔◌, refl, ap, sym, subst, Bool, true, false, not, Option, none, some, List, [], ◌∷◌,
  ◌++◌, Text, text_eq, select, arith, text_eq_refl,
}
use karpenter_provider_stack.Errors.{Err, Result, ok, err}
use karpenter_provider_stack.Apis.LabelKeys.{termination_finalizer}
use karpenter_provider_stack.Apis.NodeClass.{StackitNodeClass}
use karpenter_provider_stack.Apis.Core.{NodeClaim}
use karpenter_provider_stack.Controllers.NodeClass.{Outcome, requeue_after}
use karpenter_provider_stack.Controllers.Termination.{
  Kube, contains_finalizer, add_finalizer, remove_finalizer, terminate, patched, answered, keep,
  reconcile_at, reconcile, requeue_while_in_use,
}

contains-add : (fs : List Text) → contains_finalizer (fs ++ (termination_finalizer ∷ [])) ≡ true
unfolding contains_finalizer
contains-add [] = rw (text_eq_refl termination_finalizer) refl
contains-add (f ∷ fs) = ground (arith, contains-add fs)

contains-remove :
    (fs : List Text)
    → contains_finalizer (select (λ f. not (text_eq f termination_finalizer)) fs) ≡ false
unfolding contains_finalizer select
contains-remove [] = refl
contains-remove (f ∷ fs) = ground (arith, contains-remove fs)

patched_class : (kube : Kube) (c : StackitNodeClass) → (patched kube c).1 ≡ some c
patched_class kube c = by_answer (kube.patch c)
  where
    by_answer : (r : Option Err) → (answered c r).1 ≡ some c
    by_answer (some e) = refl
    by_answer none = refl

-- The class as the controller leaves it in the cluster, if its patch arrives.
abbrev pub left_by : StackitNodeClass → Outcome × Option StackitNodeClass → StackitNodeClass
left_by c (outcome, none) = c
left_by c (outcome, some c') = c'

kept :
    (kube : Kube) (c : StackitNodeClass) (b : Bool)
    → contains_finalizer c.finalizers ≡ b
    → contains_finalizer (left_by c (keep kube c b)).finalizers ≡ true
kept kube c true h = h
kept kube c false h = by_answer (kube.patch (add_finalizer c))
  where
    by_answer :
        (r : Option Err)
        → contains_finalizer (left_by c (answered (add_finalizer c) r)).finalizers ≡ true
    by_answer none = unfold add_finalizer in contains-add c.finalizers
    by_answer (some e) = unfold add_finalizer in contains-add c.finalizers

-- A class that is not being deleted has the finalizer after a reconcile, if the patch arrives.
pub finalizer_taken :
    (kube : Kube) (c : StackitNodeClass)
    → c.deletion_timestamp ≡ none
    → contains_finalizer (left_by c (reconcile kube c)).finalizers ≡ true
unfolding reconcile
finalizer_taken kube c h =
    subst
      (λ (r : Outcome × Option StackitNodeClass).
        contains_finalizer (left_by c r).finalizers ≡ true)
      (ap (reconcile_at kube c) (sym h)) (kept kube c (contains_finalizer c.finalizers) refl)

abbrev pub Released : Kube → StackitNodeClass → Result Err (List NodeClaim) → Type 0
Released kube c r =
    (((terminate kube c r).1 ≡ some (remove_finalizer c)) ↔ (r ≡ ok []))
    × ((terminate kube c r ≡ (requeue_after requeue_while_in_use, none))
        ↔ ((n : NodeClaim) × (ns : List NodeClaim) × (r ≡ ok (n ∷ ns))))

terminate-Released :
    (kube : Kube) (c : StackitNodeClass) (r : Result Err (List NodeClaim)) → Released kube c r
terminate-Released kube c (err e) = ((λ h. cc, λ h. cc), (λ h. cc, λ (n, ns, h). cc))
terminate-Released kube c (ok (n ∷ ns)) = ((λ h. cc, λ h. cc), (λ h. (n, ns, refl), λ h. refl))
terminate-Released kube c (ok []) = (
  (λ h. refl, λ h. patched_class kube (remove_finalizer c)),
  (
    λ h. cc (
      patched_class kube (remove_finalizer c),
      ap (λ (r : Outcome × Option StackitNodeClass). r.1) h,
    ),
    λ (n, ns, h). cc h,
  ),
)

-- For a class that is being deleted: the patch that takes the finalizer off is sent exactly if the
-- listing of its claims is empty, that patch leaves no such finalizer, and the reconcile is
-- repeated after ten seconds without a patch exactly if there are claims.
pub finalizer_released :
    (kube : Kube) (c : StackitNodeClass) (t : ℕ)
    → c.deletion_timestamp ≡ some t
    → (((reconcile kube c).1 ≡ some (remove_finalizer c)) ↔ (kube.list_claims ≡ ok []))
      × (contains_finalizer (remove_finalizer c).finalizers ≡ false)
      × ((reconcile kube c ≡ (requeue_after requeue_while_in_use, none))
          ↔ ((n : NodeClaim) × (ns : List NodeClaim) × (kube.list_claims ≡ ok (n ∷ ns))))
unfolding reconcile
finalizer_released kube c t h =
    let r = terminate-Released kube c kube.list_claims in
    subst
      (λ (q : Outcome × Option StackitNodeClass).
        ((q.1 ≡ some (remove_finalizer c)) ↔ (kube.list_claims ≡ ok []))
        × (contains_finalizer (remove_finalizer c).finalizers ≡ false)
        × ((q ≡ (requeue_after requeue_while_in_use, none))
            ↔ ((n : NodeClaim) × (ns : List NodeClaim) × (kube.list_claims ≡ ok (n ∷ ns)))))
      (ap (reconcile_at kube c) (sym h))
      (r.0, unfold remove_finalizer in contains-remove c.finalizers, r.1)
