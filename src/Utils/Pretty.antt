-- ===== src/Utils/Pretty.antt =====
-- PrettySlice of pkg/utils/utils.go.
use mathlib.Core.List.{append_assoc}
use karpenter_provider_stack.Prelude.{
  ℕ, zero, suc, ◌+◌, ◌-◌, ◌≡◌, refl, sym, ap, true, false, List, [], ◌∷◌, ◌++◌, map, Text, str,
  length, take, join, ltb, leb, if◌then◌else◌, arith,
}

abbrev pub others : (ℕ → Text) → ℕ → Text
others format n = str " and " ++ (format n ++ str " other(s)")

module _ {A : Type 0} (format : ℕ → Text) (print : A → Text) where
  -- The loop, at position i of the slice. `print` is what fmt writes for an element.
  unfoldable pub pretty_loop : ℕ → ℕ → List A → Text
  pretty_loop max_items i [] = []
  pretty_loop max_items i (elem ∷ s) =
      let rest = print elem ++ pretty_loop max_items (i + 1) s in
      if leb max_items i
      then others format (length (elem ∷ s))
      else if ltb 0 i
      then str ", " ++ rest
      else rest

  -- maxItems is not negative here; the source treats a negative one as zero.
  unfoldable pub pretty_slice : List A → ℕ → Text
  pretty_slice s max_items = pretty_loop max_items 0 s

  -- What is left out.
  abbrev pub summary : ℕ → ℕ → Text
  summary n max_items = if ltb max_items n then others format (n - max_items) else []

  -- Each item after a comma.
  abbrev after : List A → Text
  after [] = []
  after (x ∷ xs) = str ", " ++ (print x ++ after xs)

  append_nil : (s : Text) → s ++ [] ≡ s
  append_nil [] = refl
  append_nil (c ∷ s) = ap (λ r. c ∷ r) (append_nil s)

  join-after : (x : A) (xs : List A) → join (str ", ") (map print (x ∷ xs)) ≡ print x ++ after xs
  unfolding join
  join-after x [] = sym (append_nil (print x))
  join-after x (y ∷ xs) = rw (join-after y xs) refl

  summary-suc : (n k : ℕ) → summary (suc n) (suc k) ≡ summary n k
  summary-suc n k = ground arith

  summary_zero : (n : ℕ) → others format (suc n) ≡ summary (suc n) 0
  summary_zero n = ground arith

  summary_nil : (m : ℕ) → summary 0 m ≡ []
  summary_nil m = ground arith

  pretty_loop_done :
      (m i : ℕ) (x : A) (s : List A)
      → leb m i ≡ true
      → pretty_loop m i (x ∷ s) ≡ others format (suc (length s))
  unfolding pretty_loop
  pretty_loop_done m i x s h = rw (pretty_loop, h) refl

  pretty_loop_more :
      (m i : ℕ) (x : A) (s : List A)
      → leb m (suc i) ≡ false
      → pretty_loop m (suc i) (x ∷ s) ≡ str ", " ++ (print x ++ pretty_loop m (suc i + 1) s)
  unfolding pretty_loop
  pretty_loop_more m i x s h = ground arith

  pretty_loop_first :
      (m : ℕ) (x : A) (s : List A)
      → pretty_loop (suc m) 0 (x ∷ s) ≡ print x ++ pretty_loop (suc m) 1 s
  unfolding pretty_loop
  pretty_loop_first m x s = ground arith

  pretty_loop-after :
      (k m i : ℕ) (s : List A)
      → m - suc i ≡ k
      → pretty_loop m (suc i) s ≡ after (take k s) ++ summary (length s) k
  pretty_loop-after zero m i [] e = unfold pretty_loop in refl
  pretty_loop-after (suc k) m i [] e = unfold pretty_loop in sym (summary_nil (suc k))
  pretty_loop-after zero m i (x ∷ s) e =
      rw (pretty_loop_done m (suc i) x s (ground arith)) (summary_zero (length s))
  pretty_loop-after (suc k) m i (x ∷ s) e =
      let more : leb m (suc i) ≡ false = ground arith in
      let next : suc i + 1 ≡ suc (suc i) = omega arith in
      let ih = pretty_loop-after k m (suc i) s (omega arith) in
      rw (pretty_loop_more m i x s more, next, ih, summary-suc (length s) k)
        (rw
          (
            append_assoc (str ", ") (print x ++ after (take k s)) (summary (length s) k),
            append_assoc (print x) (after (take k s)) (summary (length s) k),
          )
          refl)

  -- What is written is the first items, at most so many, after one another with commas between
  -- them; and if there are more, how many more there are.
  pub pretty_slice_lem :
      (s : List A) (m : ℕ)
      → pretty_slice s m ≡ join (str ", ") (map print (take m s)) ++ summary (length s) m
  unfolding pretty_slice
  pretty_slice_lem [] zero = unfold pretty_loop join in refl
  pretty_slice_lem [] (suc m) = unfold pretty_loop join in sym (summary_nil (suc m))
  pretty_slice_lem (x ∷ s) zero =
      rw (pretty_loop_done 0 0 x s refl) (unfold join in summary_zero (length s))
  pretty_slice_lem (x ∷ s) (suc m) =
      rw
        (
          pretty_loop_first m x s,
          pretty_loop-after m (suc m) 0 s (omega arith),
          join-after x (take m s),
          summary-suc (length s) m,
        )
        (sym (append_assoc (print x) (after (take m s)) (summary (length s) m)))
