-- ===== src/Dbtest/Retries.antt =====
-- db/dbtest/dbtest.go, execAdmin: the retries end.
use gatewaysshd.Common.{
  ℕ, zero, suc, ◌+◌, ◌*◌, ◌<◌, ◌≤◌, ◌≡◌, inl, inr, refl, ◌&&◌, text_key, ltb, arith, Bool-cases,
}
use gatewaysshd.Dbtest.{
  Attempt, open_failed, execute_failed, executed, Outcome, failed_to_connect, failed, done,
  out_of_fuel, is_transient_exec_error, judge, retry, exec_admin,
}

-- What the last attempt met: a statement that ended well, one that failed and is not worth another
-- attempt, or no connection and no time left.
abbrev pub Ends : (ℕ → Attempt) → Outcome → ℕ → Type 0
Ends attempts (done closed) at = attempts at ≡ executed closed
Ends attempts (failed e) at = attempts at ≡ execute_failed e
Ends attempts (failed_to_connect e) at = attempts at ≡ open_failed e
Ends attempts out_of_fuel at = ⊥

module _ (attempts : ℕ → Attempt) (takes : ℕ → ℕ) (deadline : ℕ) where
  -- Where the outcome comes from, and when.
  abbrev EndsIn : Outcome → ℕ → Type 0
  EndsIn outcome now = (at : ℕ) × (now ≤ at) × Ends attempts outcome at

  judge-EndsIn :
      (now then_at : ℕ) (again : Outcome) (a : Attempt)
      → attempts now ≡ a
      → (then_at ≤ deadline → EndsIn again now)
      → EndsIn (judge deadline then_at again a) now
  unfolding judge
  judge-EndsIn now then_at again (executed closed) met later = (now, omega arith, met)
  judge-EndsIn now then_at again (open_failed e) met later =
      elim (Bool-cases (ltb deadline then_at)) [
        | inl late ↦ rw late (now, omega arith, met)
        | inr early ↦ rw early (later (ground arith))
      ]
  judge-EndsIn now then_at again (execute_failed e) met later =
      elim (Bool-cases (is_transient_exec_error e && ltb then_at deadline)) [
        | inl retried ↦ rw retried (later (ground arith))
        | inr final ↦ rw final (now, omega arith, met)
      ]

  retry-EndsIn :
      (fuel now : ℕ)
      → deadline < now + 500 * fuel
      → EndsIn (retry attempts takes deadline (suc fuel) now) now
  unfolding retry
  retry-EndsIn zero now enough =
      judge-EndsIn now (now + takes now) out_of_fuel (attempts now) refl
        (λ early. absurd (omega arith))
  retry-EndsIn (suc fuel) now enough =
      let next = now + takes now + 500 in
      let again = retry attempts takes deadline (suc fuel) next in
      judge-EndsIn now (now + takes now) again (attempts now) refl (λ early.
        let (at, le, ends) = retry-EndsIn fuel next (omega arith) in (at, omega arith, ends))

-- Whatever the server does, and however long an attempt takes, the loop ends with its 122nd attempt at
-- the latest, and its outcome is what an attempt met: it reports success only after a statement that
-- ended well, and an error only of the attempt that it gave up at.
pub exec_admin-Ends :
    (attempts : ℕ → Attempt) (takes : ℕ → ℕ) (now : ℕ)
    → (at : ℕ) × (now ≤ at) × Ends attempts (exec_admin attempts takes now) at
unfolding exec_admin
exec_admin-Ends attempts takes now = retry-EndsIn attempts takes (now + 60000) 121 now (omega arith)
