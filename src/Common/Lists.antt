-- ===== src/Common/Lists.antt =====
-- Lists measured by native numbers, selections by a Boolean test, and predicates over them.
use Prim.Native.Nat.{ℕ, zero, suc, ◌+◌, ◌≤◌, ◌<◌}
use mathlib.Core.Path.{◌≡◌, refl, ap}
use mathlib.Core.Logic.{◌⊎◌, inl, inr}
use mathlib.Core.Bool.{Bool, true}
use mathlib.Core.List.{List, [], ◌∷◌, ◌++◌, map}
use native.Mathlib.Omega.{arith}
use mathlib.Core.Option.{Option, none, some}
use native.Mathlib.Decide.{ℕ_discrete}
use gatewaysshd.Common.Tests.{if◌then◌else◌, Option-cases}

module _ {ℓ} {A : Type ℓ} where
  abbrev pub length : List A → ℕ
  length [] = 0
  length (x ∷ xs) = suc (length xs)

  abbrev pub take : ℕ → List A → List A
  take zero xs = []
  take (suc n) [] = []
  take (suc n) (x ∷ xs) = x ∷ take n xs

  abbrev pub drop : ℕ → List A → List A
  drop zero xs = xs
  drop (suc n) [] = []
  drop (suc n) (x ∷ xs) = drop n xs

  -- The loop `for _, x := range xs { if test(x) { out = append(out, x) } }`.
  abbrev pub select : (A → Bool) → List A → List A
  select p [] = []
  select p (x ∷ xs) = let rest = select p xs in if p x then x ∷ rest else rest

  abbrev pub All {κ} : (A → Type κ) → List A → Type κ
  All P [] = Unit
  All P (x ∷ xs) = P x × All P xs

  pub length-append : (xs ys : List A) → length (xs ++ ys) ≡ length xs + length ys
  length-append [] ys = omega arith
  length-append (x ∷ xs) ys = omega (arith, length-append xs ys)

  pub length-select-le : (p : A → Bool) (xs : List A) → length (select p xs) ≤ length xs
  length-select-le p [] = omega arith
  length-select-le p (x ∷ xs) = ground (arith, length-select-le p xs)

  -- The loop `for _, x := range xs { if result := f(x); found { return result } }`.
  abbrev pub find_map {κ} : {B : Type κ} → (A → Option B) → List A → Option B
  find_map f [] = none
  find_map f (x ∷ xs) = let rest = find_map f xs in elim (f x) [ none ↦ rest | some b ↦ some b ]

-- Membership with the position kept.
abbrev pub Member : {A : Type 0} → A → List A → Type 0
Member a [] = ⊥
Member a (x ∷ xs) = (a ≡ x) ⊎ Member a xs

-- 0, 1, ..., n - 1.
abbrev pub range_from : ℕ → ℕ → List ℕ
range_from i zero = []
range_from i (suc n) = i ∷ range_from (suc i) n

abbrev pub range : ℕ → List ℕ
range = range_from 0

pub Member-range_from_lt : (j i n : ℕ) → Member j (range_from i n) → (i ≤ j) × (j < i + n)
Member-range_from_lt j i zero h = absurd h
Member-range_from_lt j i (suc n) (inl e) = (omega arith, omega arith)
Member-range_from_lt j i (suc n) (inr m) = omega (arith, Member-range_from_lt j (suc i) n m)

pub Member-range_from : (j i n : ℕ) → i ≤ j → j < i + n → Member j (range_from i n)
Member-range_from j i zero h k = absurd (omega arith)
Member-range_from j i (suc n) h k = elim (ℕ_discrete j i) [
  | yes e ↦ inl e
  | no ne ↦ inr (Member-range_from j (suc i) n (omega arith) (omega arith))
]

pub find_map-some :
    {A B : Type 0} (f : A → Option B) (xs : List A) {b : B}
    → find_map f xs ≡ some b
    → (x : A) × Member x xs × (f x ≡ some b)
find_map-some f [] h = cc
find_map-some f (x ∷ xs) {b} h = elim (Option-cases (f x)) [
  | inl miss ↦ let (y, m, e) = find_map-some f xs {b = b} (ground arith) in (y, inr m, e)
  | inr (c, hit) ↦ (x, inl refl, ground arith)
]

pub find_map-none :
    {A B : Type 0} (f : A → Option B) (xs : List A) (x : A)
    → find_map f xs ≡ none
    → Member x xs
    → f x ≡ none
find_map-none f [] x h m = absurd m
find_map-none f (y ∷ ys) x h (inl e) = ground arith
find_map-none f (y ∷ ys) x h (inr m) = find_map-none f ys x (ground arith) m

pub Member-select :
    {A : Type 0} (p : A → Bool) (a : A) (xs : List A)
    → Member a (select p xs)
    → Member a xs × (p a ≡ true)
Member-select p a [] m = absurd m
Member-select p a (x ∷ xs) m = ground (arith, Member-select p a xs)

pub Member-select_keeps :
    {A : Type 0} (p : A → Bool) (a : A) (xs : List A)
    → Member a xs
    → p a ≡ true
    → Member a (select p xs)
Member-select_keeps p a [] m h = absurd m
Member-select_keeps p a (x ∷ xs) m h = ground (arith, Member-select_keeps p a xs)

pub Member-map :
    {A B : Type 0} (f : A → B) (b : B) (xs : List A)
    → Member b (map f xs)
    → (a : A) × Member a xs × (b ≡ f a)
Member-map f b [] m = absurd m
Member-map f b (x ∷ xs) (inl e) = (x, inl refl, e)
Member-map f b (x ∷ xs) (inr m) = let (a, n, e) = Member-map f b xs m in (a, inr n, e)

pub Member-map_of :
    {A B : Type 0} (f : A → B) (a : A) (xs : List A) → Member a xs → Member (f a) (map f xs)
Member-map_of f a [] m = absurd m
Member-map_of f a (x ∷ xs) (inl e) = inl (ap f e)
Member-map_of f a (x ∷ xs) (inr m) = inr (Member-map_of f a xs m)
