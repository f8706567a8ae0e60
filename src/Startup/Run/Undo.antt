-- ===== src/Startup/Run/Undo.antt =====
-- cli/run.go, run: steps that are undone by deferred calls when a later one fails.
use gatewaysshd.Common.{
  ◌≡◌, refl, sym, ◌∙◌, ap, inl, inr, Bool, true, false, List, [], ◌∷◌, ◌++◌, append-nil,
  append_assoc, Text, ◌==◌, nat_key, text_key, if◌then◌else◌, Bool-cases,
}
use gatewaysshd.Errors.{Result, ok, err}
use gatewaysshd.Startup.Run.{
  Effect, served_debug, stopped_debug, listened, opened_database, closed_database, opened_gateway,
  closed_gateway, Run, pass, perform, ◌and_then◌, deferring, Outside, listen_if_named,
}

-- What undoes a step.
abbrev pub undoes : Effect → List Effect
undoes served_debug = stopped_debug ∷ []
undoes opened_database = closed_database ∷ []
undoes opened_gateway = closed_gateway ∷ []
undoes effect = []

-- The last step is undone first.
abbrev pub undo : List Effect → List Effect
undo [] = []
undo (effect ∷ effects) = undo effects ++ undoes effect

abbrev pub named : Text → List Effect
named address = if address == [] then [] else listened address ∷ []

-- A first part of a plan is done and then undone, the whole of it if there is no error.
pub record Follows (steps : List Effect) (outcome : Run (Unit {0})) : Type 0 where
  pub done : List Effect
  pub left : List Effect
  pub parts : steps ≡ done ++ left
  pub undone : outcome.0 ≡ done ++ undo done
  pub whole : outcome.1 ≡ ok tt → left ≡ []

-- The same with nothing to undo.
pub record Opens (steps : List Effect) (outcome : Run (Unit {0})) : Type 0 where
  done : List Effect
  left : List Effect
  parts : steps ≡ done ++ left
  only : outcome.0 ≡ done
  plain : undo done ≡ []
  whole : outcome.1 ≡ ok tt → left ≡ []

undo-append : (xs ys : List Effect) → undo (xs ++ ys) ≡ undo ys ++ undo xs
undo-append [] ys = sym (append-nil (undo ys))
undo-append (x ∷ xs) ys = rw (undo-append xs ys, append_assoc (undo ys) (undo xs) (undoes x)) refl

pub perform-Opens :
    (can : Bool) (effect : Effect) → undoes effect ≡ [] → Opens (effect ∷ []) (perform can effect)
perform-Opens true effect plain = record {
  done = effect ∷ [];
  left = [];
  parts = refl;
  only = refl;
  plain = plain;
  whole = λ e. refl;
}
perform-Opens false effect plain = record {
  done = [];
  left = effect ∷ [];
  parts = refl;
  only = refl;
  plain = refl;
  whole = λ e. absurd cc;
}

pub listen_if_named-Opens :
    (outside : Outside) (address : Text) → Opens (named address) (listen_if_named outside address)
unfolding listen_if_named
listen_if_named-Opens outside address = elim (Bool-cases (address == [])) [
  | inl empty ↦
      rw empty (record {
        done = [];
        left = [];
        parts = refl;
        only = refl;
        plain = refl;
        whole = λ e. refl;
      })
  | inr other ↦ rw other (perform-Opens (outside.can_listen address) (listened address) refl)
]

pub and_then-Opens :
    (first second : List Effect) (m : Run (Unit {0})) (next : Unit {0} → Run (Unit {0}))
    → Opens first m
    → Opens second (next tt)
    → Opens (first ++ second) (m and_then next)
and_then-Opens first second (effects, err e) next o p = record {
  done = o.done;
  left = o.left ++ second;
  parts = ap (λ xs. xs ++ second) o.parts ∙ append_assoc o.done o.left second;
  only = o.only;
  plain = o.plain;
  whole = λ e. absurd cc;
}
and_then-Opens first second (effects, ok _) next o p =
    let all : first ≡ o.done =
      o.parts ∙ ap (λ xs. o.done ++ xs) (o.whole refl) ∙ append-nil o.done in
    record {
      done = o.done ++ p.done;
      left = p.left;
      parts = rw (all, p.parts) (sym (append_assoc o.done p.done p.left));
      only = rw (o.only, p.only) refl;
      plain = rw (undo-append o.done p.done, p.plain, o.plain) refl;
      whole = p.whole;
    }

pub and_then-Follows :
    (first second : List Effect) (m : Run (Unit {0})) (next : Unit {0} → Run (Unit {0}))
    → Opens first m
    → Follows second (next tt)
    → Follows (first ++ second) (m and_then next)
and_then-Follows first second (effects, err e) next o p = record {
  done = o.done;
  left = o.left ++ second;
  parts = ap (λ xs. xs ++ second) o.parts ∙ append_assoc o.done o.left second;
  undone = rw (o.only, o.plain) (sym (append-nil o.done));
  whole = λ e. absurd cc;
}
and_then-Follows first second (effects, ok _) next o p =
    let all : first ≡ o.done =
      o.parts ∙ ap (λ xs. o.done ++ xs) (o.whole refl) ∙ append-nil o.done in
    record {
      done = o.done ++ p.done;
      left = p.left;
      parts = rw (all, p.parts) (sym (append_assoc o.done p.done p.left));
      undone =
          rw (o.only, p.undone, undo-append o.done p.done, o.plain, append-nil (undo p.done))
            (sym (append_assoc o.done p.done (undo p.done)));
      whole = p.whole;
    }

-- A step with its deferred call around the rest.
pub deferring-Follows :
    (can : Bool) (effect last : Effect) (steps : List Effect) (rest : Run (Unit {0}))
    → undoes effect ≡ last ∷ []
    → Follows steps rest
    → Follows (effect ∷ steps) (perform can effect and_then λ _. deferring last rest)
deferring-Follows false effect last steps rest closes p = record {
  done = [];
  left = effect ∷ steps;
  parts = refl;
  undone = refl;
  whole = λ e. absurd cc;
}
deferring-Follows true effect last steps rest closes p = record {
  done = effect ∷ p.done;
  left = p.left;
  parts = ap (◌∷◌ effect) p.parts;
  undone = rw (closes, p.undone) (ap (◌∷◌ effect) (append_assoc p.done (undo p.done) (last ∷ [])));
  whole = p.whole;
}

-- What is computed before the rest can only end it.
pub pass-Follows :
    {A : Type 0} (steps : List Effect) (r : Result A) (next : A → Run (Unit {0}))
    → ((a : A) → Follows steps (next a))
    → Follows steps (pass r and_then next)
pass-Follows steps (err e) next p = record {
  done = [];
  left = steps;
  parts = refl;
  undone = refl;
  whole = λ e. absurd cc;
}
pass-Follows steps (ok a) next p = p a
