-- ===== src/Common/Tests.antt =====
-- Boolean tests, the conditional, equality by an instance, and the case lemmas.
use Prim.Native.Nat.{ℕ, compare, Ordering}
use mathlib.Core.Path.{◌≡◌, refl}
use mathlib.Core.Logic.{◌≢◌, ◌⊎◌, inl, inr}
use mathlib.Core.Bool.{Bool, true, false}
use mathlib.Core.Option.{Option, none, some}
use native.Mathlib.Omega.{arith}
use native.Mathlib.Decide.{ℕ_discrete}

-- These compute to `compare`, which `ground` and `grind` read with no lemma listed.
abbrev pub ltb : ℕ → ℕ → Bool
ltb a b = elim (compare a b) [ Ordering.lt ↦ true | _ ↦ false ]

abbrev pub leb : ℕ → ℕ → Bool
leb a b = elim (compare a b) [ Ordering.gt ↦ false | _ ↦ true ]

infix 1 if◌then◌else◌
abbrev pub if◌then◌else◌ {ℓ} : {A : Type ℓ} → Bool → A → A → A
if true then x else y = x
if false then x else y = y

-- The types whose values the program compares by `==`: numbers, pointers and texts.
pub record Key {ℓ} (A : Type ℓ) : Type ℓ where
  pub discrete : Discrete A

infix 50 ◌==◌
abbrev pub ◌==◌ {ℓ} : {A : Type ℓ} ⦃k : Key A⦄ → A → A → Bool
◌==◌ ⦃k⦄ a b = elim (k.discrete a b) [ yes _ ↦ true | no _ ↦ false ]

instance abbrev pub nat_key : Key ℕ
nat_key = record { discrete = ℕ_discrete }

pub ==_refl {ℓ} : {A : Type ℓ} ⦃k : Key A⦄ → (a : A) → (a == a) ≡ true
==_refl ⦃k⦄ a = ground arith

pub ==_eq {ℓ} : {A : Type ℓ} ⦃k : Key A⦄ → (a b : A) → (a == b) ≡ true → a ≡ b
==_eq ⦃k⦄ a b = ground arith

pub ==_ne {ℓ} : {A : Type ℓ} ⦃k : Key A⦄ → (a b : A) → a ≢ b → (a == b) ≡ false
==_ne ⦃k⦄ a b = ground arith

-- To split on a computed value and keep the equation.
pub Bool-cases : (b : Bool) → (b ≡ true) ⊎ (b ≡ false)
Bool-cases true = inl refl
Bool-cases false = inr refl

pub Option-cases {ℓ} : {A : Type ℓ} (o : Option A) → (o ≡ none) ⊎ ((a : A) × (o ≡ some a))
Option-cases none = inl refl
Option-cases (some a) = inr (a, refl)
