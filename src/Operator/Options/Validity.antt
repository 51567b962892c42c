-- ===== src/Operator/Options/Validity.antt =====
-- Which settings are accepted.
use karpenter_provider_stack.Prelude.{
  ◌<◌, ◌≡◌, ◌↔◌, refl, sym, subst, Bool, true, false, ◌||◌, Option, none, some, none-ne-some, List,
  [], ◌∷◌, ◌++◌, Text, text_eq, Map, lookup, split_byte, arith, ◌⊎◌,
}
use karpenter_provider_stack.Prelude.Float.{
  Float64, finite, pos, negsuc, pos_inf, neg_inf, nan, ltf, lef, zero_float,
}
use karpenter_provider_stack.Errors.{ClientError, Result, ok, err}
use karpenter_provider_stack.Pricing.{parse_overrides}
use karpenter_provider_stack.Pricing.Accepted.{IsAccepted, parse_overrides-AllAccepted}
use karpenter_provider_stack.Operator.Options.{
  Options, one_float, OptionProblem, missing_cluster_name, missing_project_id, missing_region,
  overhead_out_of_range, problem_if, validate, FlagsParsed, settings, help_asked, flags_refused,
  validated, with_overrides, with_flags, parse,
}

-- A share of the memory: at least nothing and less than all of it. NaN is no number, so that it is
-- neither below nor above.
abbrev pub IsShareOrNan : Float64 → Type 0
IsShareOrNan (finite (pos n)) = n < 102400000
IsShareOrNan (finite (negsuc n)) = ⊥
IsShareOrNan pos_inf = ⊥
IsShareOrNan neg_inf = ⊥
IsShareOrNan nan = Unit

share_iff : (f : Float64) → ((ltf f zero_float || lef one_float f) ≡ false) ↔ IsShareOrNan f
unfolding ltf lef
share_iff (finite (pos n)) = ground arith
share_iff (finite (negsuc n)) = ((λ h. cc), λ h. absurd h)
share_iff pos_inf = ((λ h. cc), λ h. absurd h)
share_iff neg_inf = ((λ h. cc), λ h. absurd h)
share_iff nan = ((λ h. tt), λ h. refl)

pub record IsValid (o : Options) : Type 0 where
  pub cluster_name : text_eq o.cluster_name [] ≡ false
  pub project_id : text_eq o.project_id [] ≡ false
  pub region : text_eq o.region [] ≡ false
  pub share : IsShareOrNan o.vm_memory_overhead_percent

no_problems :
    (a b c d : Bool) (p q r s : OptionProblem)
    → (problem_if a p ++ problem_if b q ++ problem_if c r ++ problem_if d s ≡ [])
      ↔ ((a ≡ false) × (b ≡ false) × (c ≡ false) × (d ≡ false))
no_problems false false false false p q r s = ((λ h. (refl, refl, refl, refl)), λ h. refl)
no_problems true b c d p q r s = ((λ h. cc), λ h. cc)
no_problems false true c d p q r s = ((λ h. cc), λ h. cc)
no_problems false false true d p q r s = ((λ h. cc), λ h. cc)
no_problems false false false true p q r s = ((λ h. cc), λ h. cc)

-- The settings are accepted exactly if there are a cluster name, a project and a region, and the
-- memory overhead is a share from 0 to below 1 or is NaN.
pub validate_iff : (o : Options) → (validate o ≡ []) ↔ IsValid o
unfolding validate
validate_iff o =
    let n =
      no_problems (text_eq o.cluster_name []) (text_eq o.project_id []) (text_eq o.region [])
        (ltf o.vm_memory_overhead_percent zero_float || lef one_float o.vm_memory_overhead_percent)
        missing_cluster_name missing_project_id missing_region overhead_out_of_range in
    let share = share_iff o.vm_memory_overhead_percent in
    (
      (λ h.
          let (a, b, c, d) = n.0 h in
          record { cluster_name = a; project_id = b; region = c; share = share.0 d }),
      λ v. n.1 (v.cluster_name, v.project_id, v.region, share.1 v.share),
    )

validated_sound :
    (o o' : Options) (ps : List OptionProblem)
    → validate o ≡ ps
    → validated o ps ≡ ok o'
    → (o ≡ o') × IsValid o'
validated_sound o o' [] e h =
    let same : o ≡ o' = cc h in (same, subst IsValid same ((validate_iff o).0 e))
validated_sound o o' (p ∷ ps) e h = cc

module _ (fs_parse : Options → List Text → FlagsParsed) (parse_float : Text → Option Float64) where
  -- What the settings must be if the flags gave s: those of the flags and the overrides of the raw
  -- text.
  abbrev pub Parsed : Options → Options → Type 0
  Parsed s o =
      (o ≡ record s { pricing_overrides = o.pricing_overrides })
      × (parse_overrides parse_float s.raw_pricing_overrides ≡ ok o.pricing_overrides)
      × IsValid o

  with_overrides_sound :
      (s o : Options) (r : Result ClientError (Map Float64))
      → parse_overrides parse_float s.raw_pricing_overrides ≡ r
      → with_overrides s r ≡ ok o
      → Parsed s o
  with_overrides_sound s o (err e) p h = cc
  with_overrides_sound s o (ok m) p h =
      let filled = record s { pricing_overrides = m } in
      let (same, v) = validated_sound filled o (validate filled) refl h in
      subst (Parsed s) same (refl, p, subst IsValid (sym same) v)

  with_flags_sound :
      (o : Options) (f : FlagsParsed)
      → with_flags parse_float f ≡ some (ok o)
      → (s : Options) × (f ≡ settings s) × Parsed s o
  with_flags_sound o help_asked h = absurd (none-ne-some (ok o) h)
  with_flags_sound o (flags_refused c) h = cc
  with_flags_sound o (settings s) h = (
    s,
    refl,
    with_overrides_sound s o (parse_overrides parse_float s.raw_pricing_overrides) refl (cc h),
  )

  -- Settings that the program starts with, whatever the arguments and the environment, are those that
  -- the flags gave, with the overrides that ParseOverrides makes of their raw text, and they are
  -- valid. A machine type has an override only if a piece between the text's commas has its name
  -- to the left of its first '=', and the override is the price that the text to the right stands
  -- for, and is not at or below zero.
  pub parse_sound :
      (args : List Text) (o o' : Options) (name : Text)
      → parse fs_parse parse_float args o ≡ some (ok o')
      → (s : Options) × (fs_parse o args ≡ settings s)
        × (o' ≡ record s { pricing_overrides = o'.pricing_overrides })
        × (parse_overrides parse_float s.raw_pricing_overrides ≡ ok o'.pricing_overrides)
        × IsValid o'
        × ((lookup name o'.pricing_overrides ≡ none)
            ⊎ ((price : Float64) × (lookup name o'.pricing_overrides ≡ some price)
                × IsAccepted parse_float (split_byte b',' s.raw_pricing_overrides) name price))
  unfolding parse
  parse_sound args o o' name h =
      let (s, f, (same, parsed, valid)) = with_flags_sound o' (fs_parse o args) h in
      (
        s,
        f,
        same,
        parsed,
        valid,
        parse_overrides-AllAccepted parse_float s.raw_pricing_overrides o'.pricing_overrides parsed
            name,
      )
