-- ===== src/Errors.antt =====
-- Go's error values as this program makes and inspects them, and results of fallible calls.
-- An error is kept as its chain of wrappers; the texts of messages are left out, but for the two
-- fields of an API error that the program searches.
use karpenter_provider_stack.Prelude.{Bool, true, false, Option, none, some, List, [], ◌∷◌, Text, ℕ}

-- What a call of the STACKIT client returns as an error.
pub data ClientError : Type 0 where
  -- errors.New, and fmt.Errorf with nothing wrapped
  plain : ClientError
  -- oapierror.GenericOpenAPIError: StatusCode, Body, ErrorMessage
  open_api : ℕ → Text → Text → ClientError
  -- fmt.Errorf("…, %w", err)
  wrapped : ClientError → ClientError

-- The errors of the layers above the client.
pub data Err : Type 0 where
  client : ClientError → Err
  wrap : Err → Err
  -- multierr.Combine and errors.Join of two errors
  joined : Err → Err → Err
  -- errors of the Kubernetes API: 404, and any other
  kube_not_found : Err
  kube_other : Err
  -- the error types of Karpenter's cloudprovider package
  node_claim_not_found : Err → Err
  insufficient_capacity : Err → Err
  node_class_not_ready : Err → Err
  create_error : Err → Err

pub data Result {ℓ} (E : Type 0) (A : Type ℓ) : Type ℓ where
  ok : A → Result E A
  err : E → Result E A

infixl 5 ◌>>=◌
abbrev pub ◌>>=◌ {ℓ κ} :
    {E : Type 0} {A : Type ℓ} {B : Type κ} → Result E A → (A → Result E B) → Result E B
ok a >>= f = f a
err e >>= f = err e

-- cloudprovider.IsNodeClaimNotFoundError, on the errors that this program hands it.
unfoldable pub is_node_claim_not_found : Err → Bool
is_node_claim_not_found (node_claim_not_found e) = true
is_node_claim_not_found (wrap e) = is_node_claim_not_found e
is_node_claim_not_found _ = false

-- errors.IsNotFound of the Kubernetes API machinery, on the errors that this program hands it.
unfoldable pub is_kube_not_found : Err → Bool
is_kube_not_found kube_not_found = true
is_kube_not_found (wrap e) = is_kube_not_found e
is_kube_not_found _ = false

-- multierr.Combine of the results of calls that return an error or nil.
unfoldable pub combine : List (Option Err) → Option Err
combine [] = none
combine (none ∷ es) = combine es
combine (some e ∷ es) =
    let rest = combine es in elim rest [ none ↦ some e | some r ↦ some (joined e r) ]
