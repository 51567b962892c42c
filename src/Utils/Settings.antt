-- ===== src/Utils/Settings.antt =====
-- WithDefaultFloat64 of pkg/utils/utils.go.
use karpenter_provider_stack.Prelude.{Option, none, some, Text}
use karpenter_provider_stack.Prelude.Float.{Float64}

-- `lookup_env` is os.LookupEnv and `parse_float` is strconv.ParseFloat.
unfoldable pub with_default_float64 :
    (Text → Option Text) → (Text → Option Float64) → Text → Float64 → Float64
with_default_float64 lookup_env parse_float key def = elim (lookup_env key) [
  | none ↦ def
  | some val ↦ elim (parse_float val) [ none ↦ def | some f ↦ f ]
]
