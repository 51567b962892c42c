-- ===== src/Controllers/Termination.antt =====
-- pkg/controllers/nodeclass/termination/controller.go: the finalizer of a class.
pub mod Finalizer
use karpenter_provider_stack.Prelude.{
  ℕ, Bool, true, false, not, Option, none, some, List, [], ◌∷◌, ◌++◌, Text, text_eq, any, select,
  if◌then◌else◌,
}
use karpenter_provider_stack.Errors.{Err, wrap, Result, ok, err}
use karpenter_provider_stack.Apis.LabelKeys.{termination_finalizer}
use karpenter_provider_stack.Apis.NodeClass.{StackitNodeClass}
use karpenter_provider_stack.Apis.Core.{NodeClaim}
use karpenter_provider_stack.Controllers.NodeClass.{
  Outcome, done, requeue_after, fail, ignore_not_found,
}

abbrev pub requeue_while_in_use : ℕ
requeue_while_in_use = 10

-- controllerutil.ContainsFinalizer, AddFinalizer and RemoveFinalizer on the class's finalizers.
unfoldable pub contains_finalizer : List Text → Bool
contains_finalizer fs = any (λ f. text_eq f termination_finalizer) fs

unfoldable pub add_finalizer : StackitNodeClass → StackitNodeClass
add_finalizer c = record c { finalizers = c.finalizers ++ (termination_finalizer ∷ []) }

unfoldable pub remove_finalizer : StackitNodeClass → StackitNodeClass
remove_finalizer c = record c {
  finalizers = select (λ f. not (text_eq f termination_finalizer)) c.finalizers;
}

-- The Kubernetes client: the claims of the class, and the answer to a patch of it.
pub record Kube : Type 0 where
  pub list_claims : Result Err (List NodeClaim)
  pub patch : StackitNodeClass → Option Err

abbrev pub answered : StackitNodeClass → Option Err → Outcome × Option StackitNodeClass
answered c (some e) = (ignore_not_found e, some c)
answered c none = (done, some c)

abbrev pub patched : Kube → StackitNodeClass → Outcome × Option StackitNodeClass
patched kube c = answered c (kube.patch c)

-- A class that is being deleted, from the listing of its claims.
abbrev pub terminate :
    Kube → StackitNodeClass → Result Err (List NodeClaim) → Outcome × Option StackitNodeClass
terminate kube c (err e) = (fail (wrap e), none)
terminate kube c (ok (n ∷ ns)) = (requeue_after requeue_while_in_use, none)
terminate kube c (ok []) = patched kube (remove_finalizer c)

abbrev pub keep : Kube → StackitNodeClass → Bool → Outcome × Option StackitNodeClass
keep kube c false = patched kube (add_finalizer c)
keep kube c true = (done, none)

abbrev pub reconcile_at : Kube → StackitNodeClass → Option ℕ → Outcome × Option StackitNodeClass
reconcile_at kube c none = keep kube c (contains_finalizer c.finalizers)
reconcile_at kube c (some t) = terminate kube c kube.list_claims

-- Reconcile, by the deletion timestamp: its outcome, and the class that it patched, if it did.
unfoldable pub reconcile : Kube → StackitNodeClass → Outcome × Option StackitNodeClass
reconcile kube c = reconcile_at kube c c.deletion_timestamp
