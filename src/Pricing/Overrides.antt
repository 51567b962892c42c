-- ===== src/Pricing/Overrides.antt =====
-- ParseOverrides: which texts it accepts, and what it makes of them.
use karpenter_provider_stack.Prelude.{
  ℕ, ◌≡◌, refl, false, Option, some, List, [], ◌∷◌, ◌++◌, map, Text, text_eq, Map, insert, assign,
  arith, All, join, split_byte-join, cut_byte-append, has_byte, has_byte-append,
}
use karpenter_provider_stack.Prelude.Float.{Float64, lef, zero_float}
use karpenter_provider_stack.Errors.{ok}
use karpenter_provider_stack.Utils.Zone.{trim_left, trim_right}
use karpenter_provider_stack.Pricing.{
  is_space, trim_space, check_override, parse_pair, parse_pairs, parse_overrides,
}

abbrev pub NoSpace : Text → Type 0
NoSpace = All (λ c. is_space c ≡ false)

trim_left-NoSpace : (s : Text) → NoSpace s → trim_left is_space s ≡ s
unfolding trim_left
trim_left-NoSpace [] h = refl
trim_left-NoSpace (c ∷ s) h = ground arith

trim_right-NoSpace : (s : Text) → NoSpace s → trim_right is_space s ≡ s
unfolding trim_right
trim_right-NoSpace [] h = refl
trim_right-NoSpace (c ∷ s) h = ground (arith, trim_right-NoSpace s)

trim_space-NoSpace : (s : Text) → NoSpace s → trim_space s ≡ s
unfolding trim_space
trim_space-NoSpace s h = rw (trim_left-NoSpace s h) (trim_right-NoSpace s h)

NoSpace-append : (a b : Text) → NoSpace a → NoSpace b → NoSpace (a ++ b)
NoSpace-append [] b h k = k
NoSpace-append (c ∷ a) b h k = (h.0, NoSpace-append a b h.1 k)

-- An override as it is written, and the price that its text stands for.
pub record Override : Type 0 where
  pub name : Text
  pub value : Text
  pub price : Float64

module _ (parse_float : Text → Option Float64) where
  -- An override that a careful operator writes: no white space, a name without '=' and ',', a value
  -- without ',' that parses to a price which is not at or below zero.
  pub record IsWellFormed (o : Override) : Type 0 where
    pub name_not_empty : text_eq o.name [] ≡ false
    pub name_no_space : NoSpace o.name
    pub name_no_equals : has_byte b'=' o.name ≡ false
    pub name_no_comma : has_byte b',' o.name ≡ false
    pub value_not_empty : text_eq o.value [] ≡ false
    pub value_no_space : NoSpace o.value
    pub value_no_comma : has_byte b',' o.value ≡ false
    pub value_parses : parse_float o.value ≡ some o.price
    pub price_not_le_zero : lef o.price zero_float ≡ false

abbrev pub render : Override → Text
render o = o.name ++ b'=' ∷ o.value

abbrev pub entries : List Override → Map Float64
entries os = map (λ (o : Override). (o.name, o.price)) os

module _ (parse_float : Text → Option Float64) where
  render-NoSpace : (o : Override) → IsWellFormed parse_float o → NoSpace (render o)
  unfolding is_space
  render-NoSpace o w =
      NoSpace-append o.name (b'=' ∷ o.value) w.name_no_space (refl, w.value_no_space)

  render_not_empty : (a : Text) (c : ℕ) (b : Text) → text_eq (a ++ c ∷ b) [] ≡ false
  unfolding text_eq
  render_not_empty [] c b = refl
  render_not_empty (x ∷ a) c b = refl

  check_override-ok :
      (o : Override)
      → IsWellFormed parse_float o
      → check_override o.name o.value (some o.price) ≡ ok (some (o.name, o.price))
  unfolding check_override
  check_override-ok o w = rw (w.name_not_empty, w.value_not_empty, w.price_not_le_zero)

  parse_pair-render :
      (o : Override)
      → IsWellFormed parse_float o
      → parse_pair parse_float (render o) ≡ ok (some (o.name, o.price))
  unfolding parse_pair
  parse_pair-render o w =
      rw
        (
          trim_space-NoSpace (render o) (render-NoSpace o w),
          render_not_empty o.name b'=' o.value,
          cut_byte-append b'=' o.name o.value w.name_no_equals,
          trim_space-NoSpace o.name w.name_no_space,
          trim_space-NoSpace o.value w.value_no_space,
          w.value_parses,
        )
        (check_override-ok o w)

  parse_pairs-render :
      (os : List Override) (m : Map Float64)
      → All (IsWellFormed parse_float) os
      → parse_pairs parse_float (map render os) m ≡ ok (assign m (entries os))
  unfolding parse_pairs assign
  parse_pairs-render [] m w = refl
  parse_pairs-render (o ∷ os) m w =
      rw (parse_pair-render o w.0, parse_pairs)
        (parse_pairs-render os (insert o.name o.price m) w.1)

  render-no_comma :
      (os : List Override)
      → All (IsWellFormed parse_float) os
      → All (λ s. has_byte b',' s ≡ false) (map render os)
  unfolding has_byte
  render-no_comma [] w = tt
  render-no_comma (o ∷ os) w = (
    rw (has_byte-append b',' o.name (b'=' ∷ o.value), w.0.name_no_comma) w.0.value_no_comma,
    render-no_comma os w.1,
  )

  join-NoSpace : (ps : List Text) → All NoSpace ps → NoSpace (join (b',' ∷ []) ps)
  unfolding join is_space
  join-NoSpace [] h = tt
  join-NoSpace (p ∷ []) h = h.0
  join-NoSpace (p ∷ q ∷ ps) h =
      NoSpace-append p (b',' ∷ join (b',' ∷ []) (q ∷ ps)) h.0 (refl, join-NoSpace (q ∷ ps) h.1)

  renders-NoSpace :
      (os : List Override) → All (IsWellFormed parse_float) os → All NoSpace (map render os)
  renders-NoSpace [] w = tt
  renders-NoSpace (o ∷ os) w = (render-NoSpace o w.0, renders-NoSpace os w.1)

  join_not_empty :
      (o : Override) (ps : List Text) → text_eq (join (b',' ∷ []) (render o ∷ ps)) [] ≡ false
  unfolding join
  join_not_empty o [] = render_not_empty o.name b'=' o.value
  join_not_empty o (q ∷ ps) = render_not_empty (render o) b',' (join (b',' ∷ []) (q ∷ ps))

  -- The text of well-formed overrides, joined by commas, parses to the table of those overrides, in
  -- which a later override of the same machine type replaces an earlier one.
  pub parse_overrides-render :
      (os : List Override)
      → All (IsWellFormed parse_float) os
      → parse_overrides parse_float (join (b',' ∷ []) (map render os)) ≡ ok (assign [] (entries os))
  unfolding parse_overrides
  parse_overrides-render [] w = unfold join trim_space trim_left trim_right text_eq assign in refl
  parse_overrides-render (o ∷ os) w =
      rw
        (
          trim_space-NoSpace _ (join-NoSpace _ (renders-NoSpace (o ∷ os) w)),
          join_not_empty o (map render os),
          split_byte-join b',' (render o) (map render os) (render-no_comma (o ∷ os) w),
        )
        (parse_pairs-render (o ∷ os) [] w)
