-- ===== src/Prelude/Strings.antt =====
-- Go strings: sequences of bytes. A literal of the source is `str "…"`.
use Prim.Native.Nat.{ℕ, ◌+◌}
use Prim.Native.Char.{code}
use Prim.Native.String.{String}
use mathlib.Core.Path.{◌≡◌, refl, ap, ◌∙◌}
use mathlib.Core.Logic.{◌↔◌}
use mathlib.Core.Bool.{Bool, true, false, ◌&&◌, ◌||◌}
use mathlib.Core.Option.{Option, none, some}
use mathlib.Core.List.{List, [], ◌∷◌, ◌++◌}
use native.Mathlib.Omega.{arith}
use karpenter_provider_stack.Prelude.Lists.{All}
use karpenter_provider_stack.Prelude.Tests.{◌==◌, leb, ltb, if◌then◌else◌}

abbrev pub Text : Type 0
Text = List ℕ

-- The bytes of an ASCII literal.
unfoldable pub str : String → Text
str String.[] = []
str (String.◌∷◌ c s) = code c ∷ str s

-- `a == b` on strings.
unfoldable pub text_eq : Text → Text → Bool
text_eq [] [] = true
text_eq (x ∷ xs) (y ∷ ys) = x == y && text_eq xs ys
text_eq [] (y ∷ ys) = false
text_eq (x ∷ xs) [] = false

pub text_eq_refl : (a : Text) → text_eq a a ≡ true
unfolding text_eq
text_eq_refl [] = refl
text_eq_refl (x ∷ xs) = ground (arith, text_eq_refl xs)

pub text_eq_sound : (a b : Text) → text_eq a b ≡ true → a ≡ b
unfolding text_eq
text_eq_sound [] [] h = refl
text_eq_sound [] (y ∷ ys) h = cc
text_eq_sound (x ∷ xs) [] h = cc
text_eq_sound (x ∷ xs) (y ∷ ys) h = ground (arith, text_eq_sound xs ys)

pub text_eq_iff : (a b : Text) → (text_eq a b ≡ true) ↔ (a ≡ b)
text_eq_iff a b = (text_eq_sound a b, λ e. rw e (text_eq_refl b))

-- `a < b` on strings: bytewise lexicographic order.
unfoldable pub text_lt : Text → Text → Bool
text_lt [] [] = false
text_lt [] (y ∷ ys) = true
text_lt (x ∷ xs) [] = false
text_lt (x ∷ xs) (y ∷ ys) = ltb x y || x == y && text_lt xs ys

-- Is a byte in the string?
unfoldable pub has_byte : ℕ → Text → Bool
has_byte c [] = false
has_byte c (x ∷ xs) = x == c || has_byte c xs

-- `strings.HasPrefix` and `strings.CutPrefix`: what follows the prefix, if it is there.
unfoldable pub cut_prefix : Text → Text → Option Text
cut_prefix s [] = some s
cut_prefix [] (p ∷ ps) = none
cut_prefix (x ∷ xs) (p ∷ ps) = if x == p then cut_prefix xs ps else none

pub cut_prefix-append : (p s : Text) → cut_prefix (p ++ s) p ≡ some s
unfolding cut_prefix
cut_prefix-append [] s = refl
cut_prefix-append (x ∷ p) s = ground (arith, cut_prefix-append p s)

pub cut_prefix_sound : (s p r : Text) → cut_prefix s p ≡ some r → s ≡ p ++ r
unfolding cut_prefix
cut_prefix_sound s [] r h = ground arith
cut_prefix_sound [] (x ∷ p) r h = cc
cut_prefix_sound (y ∷ s) (x ∷ p) r h = ground (arith, cut_prefix_sound s p r)

-- `strings.Contains`.
unfoldable pub has_prefix : Text → Text → Bool
has_prefix s [] = true
has_prefix [] (p ∷ ps) = false
has_prefix (x ∷ xs) (p ∷ ps) = x == p && has_prefix xs ps

unfoldable pub contains : Text → Text → Bool
unfolding has_prefix
contains [] p = has_prefix [] p
contains (x ∷ xs) p = has_prefix (x ∷ xs) p || contains xs p

-- `strings.Cut` at one byte: what stands before and after its first occurrence.
unfoldable pub cut_byte : ℕ → Text → Option (Text × Text)
cut_byte c [] = none
cut_byte c (x ∷ xs) =
    let rest = cut_byte c xs in
    if x == c then some ([], xs) else elim rest [ none ↦ none | some (a, b) ↦ some (x ∷ a, b) ]

-- `strings.ToLower` on ASCII text; bytes of other characters are left as they are.
unfoldable pub to_lower : Text → Text
to_lower [] = []
to_lower (c ∷ s) = (if leb 65 c && leb c 90 then c + 32 else c) ∷ to_lower s

-- `strings.Join`.
unfoldable pub join : Text → List Text → Text
join sep [] = []
join sep (x ∷ []) = x
join sep (x ∷ y ∷ ys) = x ++ (sep ++ join sep (y ∷ ys))

-- `strings.Split` at one byte; there is always at least one piece.
abbrev cons_head : ℕ → List Text → List Text
cons_head x [] = (x ∷ []) ∷ []
cons_head x (p ∷ ps) = (x ∷ p) ∷ ps

unfoldable pub split_byte : ℕ → Text → List Text
split_byte c [] = [] ∷ []
split_byte c (x ∷ xs) = let rest = split_byte c xs in if x == c then [] ∷ rest else cons_head x rest

pub has_byte-append : (c : ℕ) (a b : Text) → has_byte c (a ++ b) ≡ (has_byte c a || has_byte c b)
unfolding has_byte
has_byte-append c [] b = refl
has_byte-append c (x ∷ a) b = ground (arith, has_byte-append c a b)

split_byte-single : (c : ℕ) (a : Text) → has_byte c a ≡ false → split_byte c a ≡ a ∷ []
unfolding split_byte has_byte
split_byte-single c [] h = refl
split_byte-single c (x ∷ a) h = ground (arith, split_byte-single c a)

split_byte-append :
    (c : ℕ) (a b : Text) → has_byte c a ≡ false → split_byte c (a ++ c ∷ b) ≡ a ∷ split_byte c b
unfolding split_byte has_byte
split_byte-append c [] b h = ground arith
split_byte-append c (x ∷ a) b h = ground (arith, split_byte-append c a b)

-- Splitting what was joined gives the pieces back, if none holds the separator.
pub split_byte-join :
    (c : ℕ) (p : Text) (ps : List Text)
    → All (λ s. has_byte c s ≡ false) (p ∷ ps)
    → split_byte c (join (c ∷ []) (p ∷ ps)) ≡ p ∷ ps
unfolding join
split_byte-join c p [] h = split_byte-single c p h.0
split_byte-join c p (q ∷ ps) h =
    split_byte-append c p (join (c ∷ []) (q ∷ ps)) h.0
    ∙ ap (λ l. p ∷ l) (split_byte-join c q ps h.1)

-- Cutting at a byte that the first part does not hold.
pub cut_byte-append :
    (c : ℕ) (a b : Text) → has_byte c a ≡ false → cut_byte c (a ++ c ∷ b) ≡ some (a, b)
unfolding cut_byte has_byte
cut_byte-append c [] b h = ground arith
cut_byte-append c (x ∷ a) b h = ground (arith, cut_byte-append c a b)

-- What is cut is the string, and the cut is at the first such byte.
pub cut_byte_sound :
    (c : ℕ) (s a b : Text) → cut_byte c s ≡ some (a, b) → (s ≡ a ++ c ∷ b) × (has_byte c a ≡ false)
unfolding cut_byte has_byte
cut_byte_sound c [] a b h = cc h
cut_byte_sound c (x ∷ xs) a b h = tests (x == c) refl (cut_byte c xs) (cut_byte_sound c xs) h
  where
    tests :
        (t : Bool)
        → (x == c) ≡ t
        → (rest : Option (Text × Text))
        → ((u v : Text) → rest ≡ some (u, v) → (xs ≡ u ++ c ∷ v) × (has_byte c u ≡ false))
        → (if t then some ([], xs) else elim rest as (λ _. Option (Text × Text)) [
          | none ↦ none
          | some (u, v) ↦ some (x ∷ u, v)
        ])
          ≡ some (a, b)
        → (x ∷ xs ≡ a ++ c ∷ b) × (has_byte c a ≡ false)
    tests true e rest go k =
        let none_before : a ≡ [] = cc k in
        let after : b ≡ xs = cc k in
        let same : x ≡ c = ground (arith, e) in rw (none_before, after, same) (refl, refl)
    tests false e none go k = cc k
    tests false e (some (u, v)) go k =
        let before : a ≡ x ∷ u = cc k in
        let after : b ≡ v = cc k in
        let (joined, no_byte) = go u v refl in rw (before, after, joined, e) (refl, no_byte)
