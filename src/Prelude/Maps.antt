-- ===== src/Prelude/Maps.antt =====
-- Go maps with string keys, as association lists: a key's first entry counts, and the order of the
-- entries is the order, unspecified in Go, in which a `range` visits them.
use mathlib.Core.Path.{◌≡◌, refl}
use mathlib.Core.Option.{Option, none, some}
use mathlib.Core.List.{List, [], ◌∷◌}
use native.Mathlib.Omega.{arith}
use karpenter_provider_stack.Prelude.Tests.{if◌then◌else◌}
use karpenter_provider_stack.Prelude.Strings.{Text, text_eq, text_eq_iff}

abbrev pub Map {ℓ} : Type ℓ → Type ℓ
Map V = List (Text × V)

module _ {ℓ} {V : Type ℓ} where
  -- `v, ok := m[k]`.
  unfoldable pub lookup : Text → Map V → Option V
  lookup k [] = none
  lookup k ((j, v) ∷ m) = if text_eq j k then some v else lookup k m

  -- `m[k] = v`.
  unfoldable pub insert : Text → V → Map V → Map V
  insert k v [] = (k, v) ∷ []
  insert k v ((j, w) ∷ m) = if text_eq j k then (k, v) ∷ m else (j, w) ∷ insert k v m

  -- `lo.Assign(a, b)`: the entries of `a`, then those of `b` over them.
  unfoldable pub assign : Map V → Map V → Map V
  assign a [] = a
  assign a ((k, v) ∷ b) = assign (insert k v a) b

  abbrev pub keys : Map V → List Text
  keys [] = []
  keys ((k, v) ∷ m) = k ∷ keys m

  pub lookup-insert :
      (k j : Text) (v : V) (m : Map V)
      → lookup j (insert k v m) ≡ (if text_eq k j then some v else lookup j m)
  unfolding lookup insert
  lookup-insert k j v [] = refl
  lookup-insert k j v ((i, w) ∷ m) =
      ground (arith, text_eq_iff k j, text_eq_iff i k, text_eq_iff i j, lookup-insert k j v m)

  -- `b` wins wherever it has the key; the entry of `b` that wins is its last.
  abbrev pub last_entry : Text → Map V → Option V
  last_entry k [] = none
  last_entry k ((j, v) ∷ m) = elim (last_entry k m) [
    | none ↦ (if text_eq j k then some v else none)
    | some w ↦ some w
  ]

  pub lookup-assign :
      (k : Text) (a b : Map V)
      → lookup k (assign a b) ≡ elim (last_entry k b) [ none ↦ lookup k a | some v ↦ some v ]
  unfolding assign
  lookup-assign k a [] = refl
  lookup-assign k a ((j, v) ∷ b) =
      ground (arith, lookup-assign k (insert j v a) b, lookup-insert j k v a)
