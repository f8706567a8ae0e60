-- ===== src/Common/Texts.antt =====
-- Go strings as lists of bytes, with `strings.Split` and `strings.Join`.
use Prim.Native.Nat.{ℕ, zero, suc, ◌<◌}
use Prim.Native.Char.{code}
use Prim.Native.String.{String}
use mathlib.Core.Path.{◌≡◌, refl, sym, ap, ◌∙◌}
use mathlib.Core.Logic.{◌≢◌}
use mathlib.Core.List.{List, [], ◌∷◌, ◌++◌, append_assoc}
use native.Mathlib.Omega.{arith}
use native.Mathlib.Decide.{ℕ_discrete}
use gatewaysshd.Common.Tests.{Key, ◌==◌, nat_key, if◌then◌else◌}
use gatewaysshd.Common.Lists.{length, take, drop}

-- A Go string, byte by byte.
abbrev pub Text : Type 0
Text = List ℕ

-- The bytes of an ASCII literal.
abbrev pub codes : String → Text
codes String.[] = []
codes (String.◌∷◌ character rest) = code character ∷ codes rest

unfoldable pub text_discrete : Discrete Text
unfolding ℕ_discrete
text_discrete = hlevel ℕ_discrete

instance abbrev pub text_key : Key Text
text_key = record { discrete = text_discrete }

-- `strings.Split(s, sep)` for a separator of one byte.
push_head : ℕ → List Text → List Text
push_head c [] = (c ∷ []) ∷ []
push_head c (p ∷ ps) = (c ∷ p) ∷ ps

unfoldable pub split : ℕ → Text → List Text
unfolding push_head
split sep [] = [] ∷ []
split sep (c ∷ s) = let parts = split sep s in if c == sep then [] ∷ parts else push_head c parts

-- `strings.Join(parts, sep)`.
unfoldable pub join : ℕ → List Text → Text
join sep [] = []
join sep (p ∷ []) = p
join sep (p ∷ q ∷ ps) = p ++ (sep ∷ join sep (q ∷ ps))

join-push_head :
    (sep c : ℕ) (ps : List Text) → ps ≢ [] → join sep (push_head c ps) ≡ c ∷ join sep ps
unfolding join push_head
join-push_head sep c [] h = absurd (h refl)
join-push_head sep c (p ∷ []) h = refl
join-push_head sep c (p ∷ q ∷ ps) h = refl

pub split-ne-nil : (sep : ℕ) (s : Text) → split sep s ≢ []
unfolding split
split-ne-nil sep [] = λ e. cc
split-ne-nil sep (c ∷ s) = λ e. ground (arith, split-ne-nil sep s)

join-nil_head : (sep : ℕ) (ps : List Text) → ps ≢ [] → join sep ([] ∷ ps) ≡ sep ∷ join sep ps
unfolding join
join-nil_head sep [] h = absurd (h refl)
join-nil_head sep (p ∷ ps) h = refl

pub join-split : (sep : ℕ) (s : Text) → join sep (split sep s) ≡ s
unfolding split join
join-split sep [] = refl
join-split sep (c ∷ s) = ground (
  arith,
  join-split sep s,
  split-ne-nil sep s,
  join-nil_head sep (split sep s),
  join-push_head sep c (split sep s),
)

pub join-append :
    (sep : ℕ) (ps qs : List Text)
    → ps ≢ []
    → qs ≢ []
    → join sep (ps ++ qs) ≡ join sep ps ++ (sep ∷ join sep qs)
unfolding join
join-append sep [] qs h k = absurd (h refl)
join-append sep (p ∷ []) [] h k = absurd (k refl)
join-append sep (p ∷ []) (q ∷ qs) h k = refl
join-append sep (p ∷ r ∷ ps) qs h k =
    rw (join-append sep (r ∷ ps) qs (λ e. cc) k) (sym (append_assoc p _ _))

take-append-drop {ℓ} : {A : Type ℓ} (n : ℕ) (xs : List A) → take n xs ++ drop n xs ≡ xs
take-append-drop zero xs = refl
take-append-drop (suc n) [] = refl
take-append-drop (suc n) (x ∷ xs) = ap (◌∷◌ x) (take-append-drop n xs)

take-ne-nil {ℓ} : {A : Type ℓ} (n : ℕ) (xs : List A) → 0 < n → n < length xs → take n xs ≢ []
take-ne-nil zero xs h k = absurd (omega arith)
take-ne-nil (suc n) [] h k = absurd (omega arith)
take-ne-nil (suc n) (x ∷ xs) h k = λ e. cc

drop-ne-nil {ℓ} : {A : Type ℓ} (n : ℕ) (xs : List A) → n < length xs → drop n xs ≢ []
drop-ne-nil zero [] k = absurd (omega arith)
drop-ne-nil zero (x ∷ xs) k = λ e. cc
drop-ne-nil (suc n) [] k = absurd (omega arith)
drop-ne-nil (suc n) (x ∷ xs) k = drop-ne-nil n xs (omega arith)

-- A text cut at one of its separators, put together again.
pub join-take-drop :
    (sep i : ℕ) (s : Text)
    → 0 < i
    → i < length (split sep s)
    → join sep (take i (split sep s)) ++ (sep ∷ join sep (drop i (split sep s))) ≡ s
join-take-drop sep i s h k =
    let parts = split sep s in
    sym (
      join-append sep (take i parts) (drop i parts) (take-ne-nil i parts h k)
        (drop-ne-nil i parts k))
    ∙ ap (join sep) (take-append-drop i parts)
    ∙ join-split sep s

push_head-append :
    (c : ℕ) (ps qs : List Text) → ps ≢ [] → push_head c (ps ++ qs) ≡ push_head c ps ++ qs
unfolding push_head
push_head-append c [] qs h = absurd (h refl)
push_head-append c (p ∷ ps) qs h = refl

pub split-append : (sep : ℕ) (s t : Text) → split sep (s ++ (sep ∷ t)) ≡ split sep s ++ split sep t
unfolding split
split-append sep [] t = ground arith
split-append sep (c ∷ s) t = ground (
  arith,
  split-append sep s t,
  push_head-append c (split sep s) (split sep t),
  split-ne-nil sep s,
)

pub take-length_append {ℓ} : {A : Type ℓ} (xs ys : List A) → take (length xs) (xs ++ ys) ≡ xs
take-length_append [] ys = refl
take-length_append (x ∷ xs) ys = ap (◌∷◌ x) (take-length_append xs ys)

pub drop-length_append {ℓ} : {A : Type ℓ} (xs ys : List A) → drop (length xs) (xs ++ ys) ≡ ys
drop-length_append [] ys = refl
drop-length_append (x ∷ xs) ys = drop-length_append xs ys
