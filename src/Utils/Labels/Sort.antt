-- ===== src/Utils/Labels/Sort.antt =====
-- sortedKeys sorts, and does not depend on the order in which the map is visited.
use mathlib.Core.List.{Perm, Permᴰ, reverse, reverse-cons, append-nil}
use mathlib.Core.List.Permᴰ
use mathlib.Core.Logic.{∥∥₁_elim}
use native.Mathlib.Nat.{ℕ_set}
use karpenter_provider_stack.Prelude.{
  ◌≡◌, refl, ap, subst, ◌∙◌, true, false, inl, inr, List, [], ◌∷◌, ◌++◌, Text, text_lt, Map, keys,
  arith, All, Bool-cases,
}
use karpenter_provider_stack.Utils.Labels.{sink, sort_loop, sorted_keys}

keys_set : IsSet (List Text)
keys_set = hlevel ℕ_set

text_lt-asymm : (a b : Text) → text_lt a b ≡ true → text_lt b a ≡ false
unfolding text_lt
text_lt-asymm [] [] h = cc
text_lt-asymm [] (y ∷ b) h = refl
text_lt-asymm (x ∷ a) [] h = cc
text_lt-asymm (x ∷ a) (y ∷ b) h = ground (arith, text_lt-asymm a b)

text_lt-connex : (a b : Text) → text_lt a b ≡ false → text_lt b a ≡ false → a ≡ b
unfolding text_lt
text_lt-connex [] [] h k = refl
text_lt-connex [] (y ∷ b) h k = cc
text_lt-connex (x ∷ a) [] h k = cc
text_lt-connex (x ∷ a) (y ∷ b) h k = ground (arith, text_lt-connex a b)

text_lt_trans : (a b c : Text) → text_lt a b ≡ true → text_lt b c ≡ true → text_lt a c ≡ true
unfolding text_lt
text_lt_trans [] [] c h k = cc
text_lt_trans [] (y ∷ b) [] h k = cc
text_lt_trans [] (y ∷ b) (z ∷ c) h k = refl
text_lt_trans (x ∷ a) [] c h k = cc
text_lt_trans (x ∷ a) (y ∷ b) [] h k = cc
text_lt_trans (x ∷ a) (y ∷ b) (z ∷ c) h k = ground (arith, text_lt_trans a b c)

-- a < b ≤ c
text_lt-le_trans : (a b c : Text) → text_lt a b ≡ true → text_lt c b ≡ false → text_lt a c ≡ true
text_lt-le_trans a b c h k = elim (Bool-cases (text_lt b c)) [
  | inl lt ↦ text_lt_trans a b c h lt
  | inr ge ↦ ground (arith, text_lt-connex b c)
]

-- p ≤ a and q ≤ p
not-lt_trans : (a p q : Text) → text_lt a p ≡ false → text_lt p q ≡ false → text_lt a q ≡ false
not-lt_trans a p q h k = elim (Bool-cases (text_lt a q)) [
  | inl lt ↦ ground (arith, text_lt-le_trans a q p lt k)
  | inr ge ↦ ge
]

-- Two keys can be put into the sorted part in either order.
sink_comm : (x y : Text) (ps : List Text) → sink x (sink y ps) ≡ sink y (sink x ps)
unfolding sink
sink_comm x y [] = ground (arith, text_lt-asymm x y, text_lt-connex x y)
sink_comm x y (p ∷ ps) = ground (
  arith,
  text_lt-asymm x y,
  text_lt-connex x y,
  text_lt-le_trans x p y,
  text_lt-le_trans y p x,
  sink_comm x y ps,
)

sort_loop-permᴰ :
    (acc : List Text) {xs ys : List Text} → Permᴰ xs ys → sort_loop acc xs ≡ sort_loop acc ys
unfolding sort_loop
sort_loop-permᴰ acc Permᴰ.nil = refl
sort_loop-permᴰ acc (Permᴰ.cons {a = a} {l₂ = ys} e p) = rw (← e) (sort_loop-permᴰ (sink a acc) p)
sort_loop-permᴰ acc (Permᴰ.swap {a = a} {b = b} {l = l} e f) =
    rw (← e, ← f) (ap (λ s. sort_loop s l) (sink_comm b a acc))
sort_loop-permᴰ acc (Permᴰ.trans p q) = sort_loop-permᴰ acc p ∙ sort_loop-permᴰ acc q

sort_loop-perm :
    (acc : List Text) {xs ys : List Text} → Perm xs ys → sort_loop acc xs ≡ sort_loop acc ys
sort_loop-perm acc p = ∥∥₁_elim p (keys_set _ _) (sort_loop-permᴰ acc)

-- The sorted keys do not depend on the order in which the map's entries are visited.
pub sorted_keys-perm :
    {V : Type 0} (m m' : Map V) → Perm (keys m) (keys m') → sorted_keys m ≡ sorted_keys m'
unfolding sorted_keys
sorted_keys-perm m m' p = ap reverse (sort_loop-perm [] p)

-- No key stands above one to its right.
abbrev pub Ascending : List Text → Type 0
Ascending [] = Unit
Ascending (x ∷ xs) = All (λ y. text_lt y x ≡ false) xs × Ascending xs

-- No key stands below one to its right: the sorted part, from last to first.
abbrev Descending : List Text → Type 0
Descending [] = Unit
Descending (x ∷ xs) = All (λ y. text_lt x y ≡ false) xs × Descending xs

sink-above :
    (b key : Text) (ps : List Text)
    → text_lt b key ≡ false
    → All (λ y. text_lt b y ≡ false) ps
    → All (λ y. text_lt b y ≡ false) (sink key ps)
unfolding sink
sink-above b key [] h k = (h, tt)
sink-above b key (p ∷ ps) h k = ground (arith, sink-above b key ps)

-- A key not below p is not below what p is not below.
above_trans :
    (a p : Text) (ps : List Text)
    → text_lt a p ≡ false
    → All (λ y. text_lt p y ≡ false) ps
    → All (λ y. text_lt a y ≡ false) ps
above_trans a p [] h k = tt
above_trans a p (q ∷ qs) h k = (not-lt_trans a p q h k.0, above_trans a p qs h k.1)

sink-Descending : (key : Text) (ps : List Text) → Descending ps → Descending (sink key ps)
unfolding sink
sink-Descending key [] h = (tt, tt)
sink-Descending key (p ∷ ps) h = elim (Bool-cases (text_lt key p)) [
  | inl below ↦
      rw below (sink-above p key ps (text_lt-asymm key p below) h.0, sink-Descending key ps h.1)
  | inr above ↦ rw above ((above, above_trans key p ps above h.0), h)
]

sort_loop-Descending : (acc xs : List Text) → Descending acc → Descending (sort_loop acc xs)
unfolding sort_loop
sort_loop-Descending acc [] h = h
sort_loop-Descending acc (x ∷ xs) h = sort_loop-Descending (sink x acc) xs (sink-Descending x acc h)

All-snoc : (P : Text → Type 0) (xs : List Text) (x : Text) → All P xs → P x → All P (xs ++ x ∷ [])
All-snoc P [] x h k = (k, tt)
All-snoc P (y ∷ xs) x h k = (h.0, All-snoc P xs x h.1 k)

All-reverse : (P : Text → Type 0) (xs : List Text) → All P xs → All P (reverse xs)
All-reverse P [] h = tt
All-reverse P (x ∷ xs) h = rw reverse-cons (All-snoc P (reverse xs) x (All-reverse P xs h.1) h.0)

Ascending-snoc :
    (xs : List Text) (x : Text)
    → Ascending xs
    → All (λ y. text_lt x y ≡ false) xs
    → Ascending (xs ++ x ∷ [])
Ascending-snoc [] x h k = (tt, tt)
Ascending-snoc (y ∷ xs) x h k =
    (All-snoc (λ z. text_lt z y ≡ false) xs x h.0 k.0, Ascending-snoc xs x h.1 k.1)

reverse-Ascending : (xs : List Text) → Descending xs → Ascending (reverse xs)
reverse-Ascending [] h = tt
reverse-Ascending (x ∷ xs) h =
    rw reverse-cons
      (Ascending-snoc (reverse xs) x (reverse-Ascending xs h.1) (All-reverse _ xs h.0))

sink-perm : (key : Text) (ps : List Text) → Permᴰ (sink key ps) (key ∷ ps)
unfolding sink
sink-perm key [] = Permᴰ.refl (key ∷ [])
sink-perm key (p ∷ ps) = elim (Bool-cases (text_lt key p)) [
  | inl below ↦ rw below (Permᴰ.trans (Permᴰ.cons refl (sink-perm key ps)) (Permᴰ.swap refl refl))
  | inr above ↦ rw above (Permᴰ.refl (key ∷ p ∷ ps))
]

sort_loop-perm_append : (acc xs : List Text) → Permᴰ (sort_loop acc xs) (xs ++ acc)
unfolding sort_loop
sort_loop-perm_append acc [] = Permᴰ.refl acc
sort_loop-perm_append acc (x ∷ xs) =
    Permᴰ.trans (sort_loop-perm_append (sink x acc) xs)
      (Permᴰ.trans (Permᴰ.append_left xs (sink-perm x acc)) (Permᴰ.middle x xs acc))

pub sorted_keys-permᴰ : {V : Type 0} (m : Map V) → Permᴰ (sorted_keys m) (keys m)
unfolding sorted_keys
sorted_keys-permᴰ m =
    Permᴰ.trans (Permᴰ.reverse (sort_loop [] (keys m)))
      (rw (append-nil) at (sort_loop-perm_append [] (keys m)))

-- The sorted keys ascend, and they are the map's keys, each as often as it occurs.
pub sorted_keys_lem :
    {V : Type 0} (m : Map V) → Ascending (sorted_keys m) × Perm (sorted_keys m) (keys m)
unfolding sorted_keys
sorted_keys_lem m = (
  reverse-Ascending (sort_loop [] (keys m)) (sort_loop-Descending [] (keys m) tt),
  ∣ sorted_keys-permᴰ m ∣₁,
)

pub All-permᴰ : (P : Text → Type 0) {xs ys : List Text} → Permᴰ xs ys → All P xs → All P ys
All-permᴰ P Permᴰ.nil h = tt
All-permᴰ P (Permᴰ.cons e p) h = (subst P e h.0, All-permᴰ P p h.1)
All-permᴰ P (Permᴰ.swap e f) h = (subst P f h.1.0, (subst P e h.0, h.1.1))
All-permᴰ P (Permᴰ.trans p q) h = All-permᴰ P q (All-permᴰ P p h)
