-- ===== src/Pricing/Accepted.antt =====
-- ParseOverrides: what it takes into the table, and from which part of the text.
use karpenter_provider_stack.Prelude.{
  ◌≡◌, ◌⊎◌, refl, subst, inl, inr, false, Option, none, some, List, [], ◌∷◌, ◌++◌, Text, text_eq,
  text_eq_sound, Map, lookup, lookup-insert, insert, arith, In, here, there, cut_byte,
  cut_byte_sound, has_byte, Bool-cases, split_byte,
}
use karpenter_provider_stack.Prelude.Float.{Float64, lef, zero_float}
use karpenter_provider_stack.Errors.{ClientError, Result, ok, err}
use karpenter_provider_stack.Pricing.{
  trim_space, check_override, add_override, parse_cut, parse_pair, parse_pairs, parse_overrides,
}

-- Where an entry of the table comes from: one of the pieces between the commas has the name to the
-- left of its first '=', and to the right the text that the price stands for.
pub record IsAccepted (parse_float : Text → Option Float64) (pieces : List Text) (name : Text)
    (price : Float64) : Type 0 where
  pub name_not_empty : text_eq name [] ≡ false
  pub price_not_le_zero : lef price zero_float ≡ false
  pub piece : Text
  pub in_text : In piece pieces
  pub left : Text
  pub right : Text
  pub cut : trim_space piece ≡ left ++ (b'=' ∷ right)
  pub first : has_byte b'=' left ≡ false
  pub named : name ≡ trim_space left
  pub priced : parse_float (trim_space right) ≡ some price

module _ (parse_float : Text → Option Float64) where
  check_override_sound :
      (n v : Text) (parsed : Option Float64) (name : Text) (price : Float64)
      → check_override n v parsed ≡ ok (some (name, price))
      → (text_eq name [] ≡ false)
        × (lef price zero_float ≡ false)
        × (name ≡ n)
        × (parsed ≡ some price)
  unfolding check_override
  check_override_sound n v none name price h = ground arith
  check_override_sound n v (some p) name price h = ground arith

module _ (parse_float : Text → Option Float64) (pieces : List Text) where
  parse_cut-IsAccepted :
      (piece name : Text) (price : Float64) (halves : Option (Text × Text))
      → In piece pieces
      → cut_byte b'=' (trim_space piece) ≡ halves
      → parse_cut parse_float halves ≡ ok (some (name, price))
      → IsAccepted parse_float pieces name price
  unfolding parse_cut
  parse_cut-IsAccepted piece name price none i c h = cc
  parse_cut-IsAccepted piece name price (some (l, r)) i c h =
      let (e, p, n, v) =
        check_override_sound parse_float (trim_space l) (trim_space r) (parse_float (trim_space r))
          name price h in
      let (joined, before) = cut_byte_sound b'=' (trim_space piece) l r c in
      record {
        name_not_empty = e;
        price_not_le_zero = p;
        piece = piece;
        in_text = i;
        left = l;
        right = r;
        cut = joined;
        first = before;
        named = n;
        priced = v;
      }

  parse_pair-IsAccepted :
      (piece name : Text) (price : Float64)
      → In piece pieces
      → parse_pair parse_float piece ≡ ok (some (name, price))
      → IsAccepted parse_float pieces name price
  unfolding parse_pair
  parse_pair-IsAccepted piece name price i h = elim (Bool-cases (text_eq (trim_space piece) [])) [
    | inl blank ↦ cc (rw (blank, parse_pair) at h)
    | inr full ↦
        parse_cut-IsAccepted piece name price (cut_byte b'=' (trim_space piece)) i refl
          (unfold parse_cut in rw (full, parse_pair) at h)
  ]

  -- A table in which every entry was accepted.
  abbrev pub AllAccepted : Map Float64 → Type 0
  AllAccepted m =
      (name : Text)
      → (lookup name m ≡ none)
        ⊎ ((price : Float64) × (lookup name m ≡ some price)
            × IsAccepted parse_float pieces name price)

  insert-AllAccepted :
      (m : Map Float64) (name : Text) (price : Float64)
      → AllAccepted m
      → IsAccepted parse_float pieces name price
      → AllAccepted (insert name price m)
  insert-AllAccepted m name price all new k = elim (Bool-cases (text_eq name k)) [
    | inl same ↦ inr (
      price,
      rw (lookup-insert name k price m, same),
      subst (λ j. IsAccepted parse_float pieces j price) (text_eq_sound name k same) new,
    )
    | inr other ↦ rw (lookup-insert name k price m, other) (all k)
  ]

  add_override-AllAccepted :
      (r : Result ClientError (Option (Text × Float64)))
      (rest : Map Float64 → Result ClientError (Map Float64)) (acc m : Map Float64)
      → ((n : Text) (p : Float64) → r ≡ ok (some (n, p)) → IsAccepted parse_float pieces n p)
      → ((acc' : Map Float64) → AllAccepted acc' → rest acc' ≡ ok m → AllAccepted m)
      → AllAccepted acc
      → add_override r rest acc ≡ ok m
      → AllAccepted m
  add_override-AllAccepted (err e) rest acc m new go all h = cc
  add_override-AllAccepted (ok none) rest acc m new go all h = go acc all h
  add_override-AllAccepted (ok (some (n, p))) rest acc m new go all h =
      go (insert n p acc) (insert-AllAccepted acc n p all (new n p refl)) h

  parse_pairs-AllAccepted :
      (pairs : List Text) (acc m : Map Float64)
      → ((x : Text) → In x pairs → In x pieces)
      → AllAccepted acc
      → parse_pairs parse_float pairs acc ≡ ok m
      → AllAccepted m
  unfolding parse_pairs
  parse_pairs-AllAccepted [] acc m sub all h = subst AllAccepted (ground arith) all
  parse_pairs-AllAccepted (pair ∷ pairs) acc m sub all h =
      add_override-AllAccepted (parse_pair parse_float pair) (parse_pairs parse_float pairs) acc m
        (λ n p e. parse_pair-IsAccepted pair n p (sub pair (here refl)) e)
        (λ acc' all' h'. parse_pairs-AllAccepted pairs acc' m (λ x i. sub x (there i)) all' h') all
        h

  empty-AllAccepted : AllAccepted []
  unfolding lookup
  empty-AllAccepted k = inl refl

-- Every entry of an accepted table has a name, and the price that its text stands for, which is not
-- at or below zero; name and text are those of one of the pieces between the commas.
pub parse_overrides-AllAccepted :
    (parse_float : Text → Option Float64) (raw : Text) (m : Map Float64)
    → parse_overrides parse_float raw ≡ ok m
    → AllAccepted parse_float (split_byte b',' raw) m
unfolding parse_overrides
parse_overrides-AllAccepted parse_float raw m h = elim (Bool-cases (text_eq (trim_space raw) [])) [
  | inl blank ↦
      subst (AllAccepted parse_float (split_byte b',' raw))
        (ground (arith, rw (blank, parse_overrides) at h))
        (empty-AllAccepted parse_float (split_byte b',' raw))
  | inr full ↦
      parse_pairs-AllAccepted parse_float (split_byte b',' raw) (split_byte b',' raw) [] m
        (λ x i. i) (empty-AllAccepted parse_float (split_byte b',' raw))
        (unfold parse_pairs in rw (full, parse_overrides) at h)
]
