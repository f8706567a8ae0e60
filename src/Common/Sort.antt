-- ===== src/Common/Sort.antt =====
-- Go's order on strings, and `sort` of the standard library, as insertion by an order.
use mathlib.Core.Path.{◌≡◌, refl}
use mathlib.Core.Logic.{◌⊎◌, inl, inr, ◌↔◌}
use mathlib.Core.Bool.{Bool, true, false}
use mathlib.Core.List.{List, [], ◌∷◌}
use native.Mathlib.Omega.{arith}
use gatewaysshd.Common.Tests.{ltb, if◌then◌else◌, Bool-cases}
use gatewaysshd.Common.Lists.{All, Member}
use gatewaysshd.Common.Texts.{Text}

-- `s <= t`, byte by byte.
unfoldable pub text_leb : Text → Text → Bool
text_leb [] t = true
text_leb (c ∷ s) [] = false
text_leb (c ∷ s) (d ∷ t) = if ltb c d then true else if ltb d c then false else text_leb s t

-- `sort.Reverse`.
unfoldable pub text_geb : Text → Text → Bool
unfolding text_leb
text_geb s t = text_leb t s

pub text_leb_trans :
    (s t u : Text) → text_leb s t ≡ true → text_leb t u ≡ true → text_leb s u ≡ true
unfolding text_leb
text_leb_trans [] t u p q = refl
text_leb_trans (c ∷ s) [] u p q = cc
text_leb_trans (c ∷ s) (d ∷ t) [] p q = cc
text_leb_trans (c ∷ s) (d ∷ t) (e ∷ u) p q = ground (arith, text_leb_trans s t u)

pub text_leb_total : (s t : Text) → (text_leb s t ≡ true) ⊎ (text_leb t s ≡ true)
unfolding text_leb
text_leb_total [] t = inl refl
text_leb_total (c ∷ s) [] = inr refl
text_leb_total (c ∷ s) (d ∷ t) = ground (arith, text_leb_total s t)

pub text_leb_antisymm : (s t : Text) → text_leb s t ≡ true → text_leb t s ≡ true → s ≡ t
unfolding text_leb
text_leb_antisymm [] [] p q = refl
text_leb_antisymm [] (d ∷ t) p q = cc
text_leb_antisymm (c ∷ s) [] p q = cc
text_leb_antisymm (c ∷ s) (d ∷ t) p q = ground (arith, text_leb_antisymm s t)

module _ (le : Text → Text → Bool) where
  unfoldable pub insert_sorted : Text → List Text → List Text
  insert_sorted x [] = x ∷ []
  insert_sorted x (y ∷ ys) = if le x y then x ∷ y ∷ ys else y ∷ insert_sorted x ys

  unfoldable pub sort_by : List Text → List Text
  unfolding insert_sorted
  sort_by [] = []
  sort_by (x ∷ xs) = insert_sorted x (sort_by xs)

  abbrev pub IsSorted : List Text → Type 0
  IsSorted [] = Unit
  IsSorted (x ∷ xs) = All (λ y. le x y ≡ true) xs × IsSorted xs

  All-insert_sorted :
      (P : Text → Type 0) (x : Text) (ys : List Text) → P x → All P ys → All P (insert_sorted x ys)
  unfolding insert_sorted
  All-insert_sorted P x [] p a = (p, tt)
  All-insert_sorted P x (y ∷ ys) p a = elim (Bool-cases (le x y)) [
    | inl below ↦ rw below (p, a)
    | inr above ↦ rw above (a.0, All-insert_sorted P x ys p a.1)
  ]

  Member-insert_sorted :
      (a x : Text) (ys : List Text) → Member a (insert_sorted x ys) ↔ Member a (x ∷ ys)
  unfolding insert_sorted
  Member-insert_sorted a x [] = (λ m. m, λ m. m)
  Member-insert_sorted a x (y ∷ ys) = elim (Bool-cases (le x y)) [
    | inl below ↦ rw below (λ m. m, λ m. m)
    | inr above ↦ rw above (
      (λ m. elim m [
        | inl e ↦ inr (inl e)
        | inr n ↦ elim ((Member-insert_sorted a x ys).0 n) [ inl e ↦ inl e | inr k ↦ inr (inr k) ]
      ]),
      (λ m. elim m [
        | inl e ↦ inr ((Member-insert_sorted a x ys).1 (inl e))
        | inr n ↦ elim n [ inl e ↦ inl e | inr k ↦ inr ((Member-insert_sorted a x ys).1 (inr k)) ]
      ]),
    )
  ]

  -- Sorting keeps the members.
  pub Member-sort_by : (a : Text) (xs : List Text) → Member a (sort_by xs) ↔ Member a xs
  unfolding sort_by
  Member-sort_by a [] = (λ m. m, λ m. m)
  Member-sort_by a (x ∷ xs) =
      let ih = Member-sort_by a xs in
      let step = Member-insert_sorted a x (sort_by xs) in
      (
        (λ m. elim (step.0 m) [ inl e ↦ inl e | inr n ↦ inr (ih.0 n) ]),
        (λ m. elim m [ inl e ↦ step.1 (inl e) | inr n ↦ step.1 (inr (ih.1 n)) ]),
      )

  module _ (trans : (s t u : Text) → le s t ≡ true → le t u ≡ true → le s u ≡ true)
      (total : (s t : Text) → (le s t ≡ true) ⊎ (le t s ≡ true)) where
    All-above :
        (x y : Text) (ys : List Text)
        → le x y ≡ true
        → All (λ z. le y z ≡ true) ys
        → All (λ z. le x z ≡ true) ys
    All-above x y [] p a = tt
    All-above x y (z ∷ zs) p a = (trans x y z p a.0, All-above x y zs p a.1)

    insert_sorted-IsSorted :
        (x : Text) (ys : List Text) → IsSorted ys → IsSorted (insert_sorted x ys)
    unfolding insert_sorted
    insert_sorted-IsSorted x [] s = (tt, tt)
    insert_sorted-IsSorted x (y ∷ ys) s = elim (Bool-cases (le x y)) [
      | inl below ↦ rw below ((below, All-above x y ys below s.0), s)
      | inr above ↦
          let flipped : le y x ≡ true = ground (arith, total x y) in
          rw above (
            All-insert_sorted (λ z. le y z ≡ true) x ys flipped s.0,
            insert_sorted-IsSorted x ys s.1,
          )
    ]

    pub sort_by-IsSorted : (xs : List Text) → IsSorted (sort_by xs)
    unfolding sort_by
    sort_by-IsSorted [] = tt
    sort_by-IsSorted (x ∷ xs) = insert_sorted-IsSorted x (sort_by xs) (sort_by-IsSorted xs)
