-- ===== src/Operator/Options.antt =====
-- pkg/operator/options/options.go. A fraction of one counts the units of Prelude.Float, so that one
-- is 102400000. The flag package and Karpenter's env package are parameters.
pub mod Validity
use karpenter_provider_stack.Prelude.{
  ℕ, Bool, true, false, ◌||◌, Option, none, some, List, [], ◌∷◌, ◌++◌, Text, str, text_eq, Map,
  if◌then◌else◌,
}
use karpenter_provider_stack.Prelude.Float.{Float64, finite, pos, ltf, lef, zero_float}
use karpenter_provider_stack.Errors.{ClientError, Result, ok, err}
use karpenter_provider_stack.Utils.Settings.{with_default_float64}
use karpenter_provider_stack.Pricing.{parse_overrides}

pub record Options : Type 0 where
  pub cluster_name : Text
  pub project_id : Text
  pub region : Text
  pub vm_memory_overhead_percent : Float64
  pub pricing_overrides : Map Float64
  pub disable_dry_run : Bool
  pub raw_pricing_overrides : Text

abbrev pub one_float : Float64
one_float = finite (pos 102400000)

-- os.LookupEnv, strconv.ParseFloat, env.WithDefaultString, and the default that BoolVarWithEnv
-- takes from the environment.
pub record Environment : Type 0 where
  pub lookup_env : Text → Option Text
  pub parse_float : Text → Option Float64
  pub with_default_string : Text → Text → Text
  pub with_default_bool : Text → Bool → Bool

-- AddFlags: each setting's value until the flags are parsed. 0.075 is 7680000 units.
unfoldable pub add_flags : Environment → Options
add_flags env = record {
  cluster_name = env.with_default_string (str "CLUSTER_NAME") [];
  project_id = env.with_default_string (str "STACKIT_PROJECT_ID") [];
  region = env.with_default_string (str "STACKIT_REGION") [];
  vm_memory_overhead_percent =
      with_default_float64 env.lookup_env env.parse_float (str "VM_MEMORY_OVERHEAD_PERCENT")
        (finite (pos 7680000));
  pricing_overrides = [];
  disable_dry_run = env.with_default_bool (str "DISABLE_DRY_RUN") false;
  raw_pricing_overrides = env.with_default_string (str "PRICING_OVERRIDES") [];
}

pub data OptionProblem : Type 0 where
  missing_cluster_name missing_project_id missing_region overhead_out_of_range : OptionProblem

abbrev pub problem_if : Bool → OptionProblem → List OptionProblem
problem_if true p = p ∷ []
problem_if false p = []

-- Validate: no problem is a nil error.
unfoldable pub validate : Options → List OptionProblem
validate o =
    problem_if (text_eq o.cluster_name []) missing_cluster_name
    ++ problem_if (text_eq o.project_id []) missing_project_id
    ++ problem_if (text_eq o.region []) missing_region
    ++ problem_if
        (ltf o.vm_memory_overhead_percent zero_float || lef one_float o.vm_memory_overhead_percent)
        overhead_out_of_range

pub data ParseError : Type 0 where
  parsing_flags : ClientError → ParseError
  parsing_pricing_overrides : ClientError → ParseError
  validating_options : List OptionProblem → ParseError

-- What FlagSet.Parse gives: settings, flag.ErrHelp, or another error.
pub data FlagsParsed : Type 0 where
  settings : Options → FlagsParsed
  help_asked : FlagsParsed
  flags_refused : ClientError → FlagsParsed

abbrev pub validated : Options → List OptionProblem → Result ParseError Options
validated o [] = ok o
validated o (p ∷ ps) = err (validating_options (p ∷ ps))

abbrev pub with_overrides : Options → Result ClientError (Map Float64) → Result ParseError Options
with_overrides o (err e) = err (parsing_pricing_overrides e)
with_overrides o (ok overrides) =
    let o' = record o { pricing_overrides = overrides } in validated o' (validate o')

-- Parse, from what FlagSet.Parse gives; `none` is os.Exit(0).
abbrev pub with_flags : (Text → Option Float64) → FlagsParsed → Option (Result ParseError Options)
with_flags parse_float help_asked = none
with_flags parse_float (flags_refused e) = some (err (parsing_flags e))
with_flags parse_float (settings o) =
    some (with_overrides o (parse_overrides parse_float o.raw_pricing_overrides))

-- Parse. FlagSet.Parse is a function of the settings' values before and of the arguments.
unfoldable pub parse :
    (Options → List Text → FlagsParsed)
    → (Text → Option Float64)
    → List Text
    → Options
    → Option (Result ParseError Options)
parse fs_parse parse_float args o = with_flags parse_float (fs_parse o args)
