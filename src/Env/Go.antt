-- ===== src/Env/Go.antt =====
-- What the program calls of Go's standard library and of Kubernetes' apimachinery.
use karpenter_provider_stack.Prelude.{ℕ, Option, Text}
use karpenter_provider_stack.Prelude.Binary.{Binary}
use karpenter_provider_stack.Apis.Core.{Quantity}

-- `format` is "%d" of fmt. `parse_quantity` is resource.ParseQuantity; MustParse panics where it
-- gives none. `parse_percentage` is strconv.ParseFloat on a percentage without its sign.
pub record Go : Type 0 where
  pub format : ℕ → Text
  pub parse_quantity : Text → Option Quantity
  pub parse_percentage : Text → Option Binary
