-- ===== src/Stackit/Classify.antt =====
-- IsNotFound, IsConflict, IsUnauthorized, IsRetryable and IsInsufficientCapacity.
use karpenter_provider_stack.Prelude.{
  ℕ, Bool, false, ◌&&◌, ◌||◌, Option, none, some, List, [], ◌∷◌, ◌++◌, Text, str, any, to_lower,
  contains, leb, ◌==◌,
}
use karpenter_provider_stack.Errors.{ClientError, plain, open_api, wrapped}

-- An API error: StatusCode, Body, ErrorMessage.
pub record ApiError : Type 0 where
  pub status_code : ℕ
  pub body : Text
  pub error_message : Text

-- errors.As(err, &apiErr)
unfoldable pub as_api_error : ClientError → Option ApiError
as_api_error plain = none
as_api_error (open_api code body message) =
    some (record { status_code = code; body = body; error_message = message })
as_api_error (wrapped e) = as_api_error e

abbrev pub test_api_error : (ApiError → Bool) → ClientError → Bool
test_api_error p e = elim (as_api_error e) [ none ↦ false | some a ↦ p a ]

unfoldable pub has_status : ClientError → ℕ → Bool
has_status e code = test_api_error (λ a. a.status_code == code) e

unfoldable pub is_not_found : ClientError → Bool
unfolding has_status
is_not_found e = has_status e 404

unfoldable pub is_conflict : ClientError → Bool
unfolding has_status
is_conflict e = has_status e 409

unfoldable pub is_unauthorized : ClientError → Bool
unfolding has_status
is_unauthorized e = has_status e 401 || has_status e 403

unfoldable pub is_retryable : ClientError → Bool
is_retryable e = test_api_error (λ a. leb 500 a.status_code || a.status_code == 429) e

unfoldable pub capacity_message_fragments : List Text
capacity_message_fragments =
    str "no valid host"
    ∷ str "not enough hosts available"
    ∷ str "insufficient capacity"
    ∷ str "resource quota exceeded"
    ∷ str "quota exceeded"
    ∷ []

-- The message search, on an error whose status code passed the switch.
unfoldable pub says_no_capacity : ApiError → Bool
unfolding capacity_message_fragments
says_no_capacity a =
    let body = to_lower (a.body ++ (b' ' ∷ a.error_message)) in
    any (contains body) capacity_message_fragments

unfoldable pub capacity_status : ℕ → Bool
capacity_status code = code == 409 || code == 403 || code == 422 || code == 503

unfoldable pub is_insufficient_capacity : ClientError → Bool
unfolding capacity_status
is_insufficient_capacity e =
    test_api_error (λ a. capacity_status a.status_code && says_no_capacity a) e
