-- ===== src/Common/Dict.antt =====
-- Go maps as association lists without duplicate keys, and their laws.
use Prim.Native.Nat.{◌+◌, ◌≤◌}
use mathlib.Core.Path.{◌≡◌, refl, ap}
use mathlib.Core.Bool.{Bool, true}
use mathlib.Core.List.{List, [], ◌∷◌}
use mathlib.Core.Option
use mathlib.Core.Option.{Option, none, some}
use native.Mathlib.Omega.{arith}
use gatewaysshd.Common.Tests.{Key, ◌==◌, if◌then◌else◌}
use gatewaysshd.Common.Lists.{length}

abbrev pub Dict {ℓ κ} : Type ℓ → Type κ → Type (ℓ ⊔ κ)
Dict K V = List (K × V)

module _ {ℓ κ} {K : Type ℓ} {V : Type κ} ⦃e : Key K⦄ where
  -- `value, ok := m[k]`.
  unfoldable pub lookup : K → Dict K V → Option V
  lookup key [] = none
  lookup key ((other, held) ∷ entries) = if other == key then some held else lookup key entries

  -- `m[k] = v`.
  unfoldable pub insert : K → V → Dict K V → Dict K V
  insert key value [] = (key, value) ∷ []
  insert key value ((other, held) ∷ entries) =
      if other == key then (key, value) ∷ entries else (other, held) ∷ insert key value entries

  -- `delete(m, k)`.
  unfoldable pub delete : K → Dict K V → Dict K V
  delete k [] = []
  delete k ((j, w) ∷ m) = let rest = delete k m in if j == k then rest else (j, w) ∷ rest

  -- `for k, v := range m { if !keep(k, v) { delete(m, k) } }`.
  unfoldable pub retain : (K → V → Bool) → Dict K V → Dict K V
  retain keep [] = []
  retain keep ((j, w) ∷ m) = let rest = retain keep m in if keep j w then (j, w) ∷ rest else rest

  abbrev pub Distinct : Dict K V → Type κ
  Distinct [] = Unit
  Distinct ((j, w) ∷ m) = (lookup j m ≡ none) × Distinct m

  pub lookup-insert :
      (key other : K) (value : V) (entries : Dict K V)
      → lookup other (insert key value entries)
        ≡ (if key == other then some value else lookup other entries)
  unfolding lookup insert
  lookup-insert k j v [] = refl
  lookup-insert k j v ((i, w) ∷ m) = ground (arith, lookup-insert k j v m)

  pub lookup-delete :
      (k j : K) (m : Dict K V) → lookup j (delete k m) ≡ (if k == j then none else lookup j m)
  unfolding lookup delete
  lookup-delete k j [] = ground arith
  lookup-delete k j ((i, w) ∷ m) = ground (arith, lookup-delete k j m)

  -- An entry that a sweep leaves was there and passes the test.
  pub lookup-retain_sound :
      (keep : K → V → Bool) (k : K) {v : V} (m : Dict K V)
      → Distinct m
      → lookup k (retain keep m) ≡ some v
      → (lookup k m ≡ some v) × (keep k v ≡ true)
  unfolding lookup retain
  lookup-retain_sound keep k [] d h = ground arith
  lookup-retain_sound keep k {v} ((i, w) ∷ m) d h =
      ground (arith, lookup-retain_sound keep k {v = v} m d.1)

  -- And an entry that passes the test is left.
  pub lookup-retain_keeps :
      (keep : K → V → Bool) (k : K) {v : V} (m : Dict K V)
      → lookup k m ≡ some v
      → keep k v ≡ true
      → lookup k (retain keep m) ≡ some v
  unfolding lookup retain
  lookup-retain_keeps keep k [] h p = h
  lookup-retain_keeps keep k {v} ((i, w) ∷ m) h p =
      ground (arith, lookup-retain_keeps keep k {v = v} m)

  pub lookup-retain-none :
      (keep : K → V → Bool) (k : K) (m : Dict K V)
      → lookup k m ≡ none
      → lookup k (retain keep m) ≡ none
  unfolding lookup retain
  lookup-retain-none keep k [] h = refl
  lookup-retain-none keep k ((i, w) ∷ m) h = ground (arith, lookup-retain-none keep k m)

  pub lookup-retain :
      (keep : K → V → Bool) (k : K) (v : V) (m : Dict K V)
      → Distinct m
      → lookup k m ≡ some v
      → lookup k (retain keep m) ≡ (if keep k v then some v else none)
  unfolding lookup retain
  lookup-retain keep k v [] d h = cc
  lookup-retain keep k v ((i, w) ∷ m) d h =
      ground (arith, lookup-retain keep k v m d.1, lookup-retain-none keep k m)

  -- A sweep that drops nothing.
  pub retain_all : (m : Dict K V) → retain (λ _ _. true) m ≡ m
  unfolding retain
  retain_all [] = refl
  retain_all ((j, w) ∷ m) = ap (◌∷◌ (j, w)) (retain_all m)

  pub length-insert-le : (k : K) (v : V) (m : Dict K V) → length (insert k v m) ≤ length m + 1
  unfolding insert
  length-insert-le k v [] = omega arith
  length-insert-le k v ((i, w) ∷ m) = ground (arith, length-insert-le k v m)

  pub length-delete-le : (k : K) (m : Dict K V) → length (delete k m) ≤ length m
  unfolding delete
  length-delete-le k [] = omega arith
  length-delete-le k ((i, w) ∷ m) = ground (arith, length-delete-le k m)

  pub length-retain-le : (keep : K → V → Bool) (m : Dict K V) → length (retain keep m) ≤ length m
  unfolding retain
  length-retain-le keep [] = omega arith
  length-retain-le keep ((i, w) ∷ m) = ground (arith, length-retain-le keep m)

  pub insert-Distinct : (k : K) (v : V) (m : Dict K V) → Distinct m → Distinct (insert k v m)
  unfolding insert lookup
  insert-Distinct k v [] d = ground arith
  insert-Distinct k v ((i, w) ∷ m) d =
      ground (arith, insert-Distinct k v m d.1, lookup-insert k i v m)

  pub delete-Distinct : (k : K) (m : Dict K V) → Distinct m → Distinct (delete k m)
  unfolding delete lookup
  delete-Distinct k [] d = tt
  delete-Distinct k ((i, w) ∷ m) d = ground (arith, delete-Distinct k m d.1, lookup-delete k i m)

  pub retain-Distinct : (keep : K → V → Bool) (m : Dict K V) → Distinct m → Distinct (retain keep m)
  unfolding retain lookup
  retain-Distinct keep [] d = tt
  retain-Distinct keep ((i, w) ∷ m) d =
      ground (arith, retain-Distinct keep m d.1, lookup-retain-none keep i m)

module _ {ℓ κ μ} {K : Type ℓ} {V : Type κ} {W : Type μ} ⦃e : Key K⦄ where
  -- An assignment to every entry.
  unfoldable pub map_values : (K → V → W) → Dict K V → Dict K W
  map_values f [] = []
  map_values f ((j, v) ∷ m) = (j, f j v) ∷ map_values f m

  pub lookup-map_values :
      (f : K → V → W) (k : K) (m : Dict K V)
      → lookup k (map_values f m) ≡ Option.map (f k) (lookup k m)
  unfolding lookup map_values
  lookup-map_values f k [] = refl
  lookup-map_values f k ((i, v) ∷ m) = ground (arith, lookup-map_values f k m)

module _ {ℓ κ} {K : Type ℓ} {V : Type κ} ⦃e : Key K⦄ where
  pub map_values-Distinct : (f : K → V → V) (m : Dict K V) → Distinct m → Distinct (map_values f m)
  unfolding map_values
  map_values-Distinct f [] d = tt
  map_values-Distinct f ((i, v) ∷ m) d =
      ground (arith, map_values-Distinct f m d.1, lookup-map_values f i m)
