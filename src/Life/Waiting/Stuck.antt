-- ===== src/Life/Waiting/Stuck.antt =====
-- gateway/connection.go and gateway/gateway.go: a session that kicks its own connection.
use gatewaysshd.Common.{
  ℕ, ◌≡◌, ◌≢◌, inl, inr, refl, sym, subst, ap, ◌∙◌, List, [], ◌∷◌, ◌++◌, ◌==◌, nat_key, Member,
  arith, Bool-cases,
}
use gatewaysshd.Life.Waiting.{
  Task, serving, closing, opening, opening_peer, Group, System, put, IsGone, tell_done, Replaced,
  with_tasks, Finish, loop_ends, task_ends, close_returns, opening_fails, Act, opens, opens_at_peer,
  answers, peer_answers, tracks, arrives, leaves, task_leaves, kicks, tells, Reach, here, acts,
  finishes,
}

-- A task other than the one replaced stays.
Member-append_right : {A : Type 0} (a : A) (xs ys : List A) → Member a ys → Member a (xs ++ ys)
Member-append_right a [] ys m = m
Member-append_right a (x ∷ xs) ys m = inr (Member-append_right a xs ys m)

pub Replaced_keeps :
    (task : Task) (by xs ys : List Task) (kept : Task)
    → Replaced task by xs ys
    → kept ≢ task
    → Member kept xs
    → Member kept ys
Replaced_keeps task by [] ys kept h apart m = absurd h
Replaced_keeps task by (x ∷ xs) ys kept (inl (e, shape)) apart (inl same) =
    absurd (apart (same ∙ e))
Replaced_keeps task by (x ∷ xs) ys kept (inl (e, shape)) apart (inr m) =
    subst (Member kept) (sym shape) (Member-append_right kept by xs m)
Replaced_keeps task by (x ∷ xs) ys kept (inr (zs, shape, h)) apart (inl same) =
    subst (Member kept) (sym shape) (inl same)
Replaced_keeps task by (x ∷ xs) ys kept (inr (zs, shape, h)) apart (inr m) =
    subst (Member kept) (sym shape) (inr (Replaced_keeps task by xs zs kept h apart m))

-- Each of some connections has a task that waits for one of them.
abbrev pub Locked : (ℕ → Type 0) → System → Type 0
Locked P self = (c : ℕ) → P c → (other : ℕ) × P other × Member (closing other) (self c).tasks

module _ (P : ℕ → Type 0) where
  -- A connection's tasks change to ones that keep what waits for one of them.
  with_tasks-Locked :
      (self : System) (x : ℕ) (tasks : List Task)
      → ((other : ℕ)
          → P other
          → Member (closing other) (self x).tasks
          → Member (closing other) tasks)
      → Locked P self
      → Locked P (with_tasks self x tasks)
  with_tasks-Locked self x tasks keeps locked c p =
      let (other, q, m) = locked c p in
      elim (Bool-cases (c == x)) [
        | inl hit ↦ (
          other,
          q,
          rw hit
              (keeps other q (subst (λ y. Member (closing other) (self y).tasks) (ground arith) m)),
        )
        | inr elsewhere ↦ (other, q, rw elsewhere m)
      ]

  put-Locked :
      (self : System) (x : ℕ) (group : Group)
      → group.tasks ≡ (self x).tasks
      → Locked P self
      → Locked P (put self x group)
  put-Locked self x group same locked c p =
      let (other, q, m) = locked c p in
      elim (Bool-cases (c == x)) [
        | inl hit ↦ (
          other,
          q,
          rw hit (
              subst (Member (closing other)) (sym same)
                (subst (λ y. Member (closing other) (self y).tasks) (ground arith) m)),
        )
        | inr elsewhere ↦ (other, q, rw elsewhere m)
      ]

  Finish-Locked : {self after : System} → Finish self after → Locked P self → Locked P after
  Finish-Locked {self} (loop_ends c told running) locked = put-Locked self c _ refl locked
  Finish-Locked {self} (task_ends c tasks ended h) locked =
      with_tasks-Locked self c tasks
        (λ other p m. Replaced_keeps serving [] (self c).tasks tasks (closing other) h (λ e. cc) m)
        locked
  Finish-Locked {self} (close_returns c gone tasks (ended, empty) h) locked =
      with_tasks-Locked self c tasks
        (λ other p m.
          Replaced_keeps (closing gone) (serving ∷ []) (self c).tasks tasks (closing other) h
            (λ e.
              let same : other ≡ gone = cc in
              let (third, q, n) = locked other p in
              subst (Member (closing third)) (ap (λ y. (self y).tasks) same ∙ empty) n)
            m)
        locked
  Finish-Locked {self} (opening_fails c opened tasks ended h) locked =
      with_tasks-Locked self c tasks
        (λ other p m.
          Replaced_keeps (opening opened) (serving ∷ []) (self c).tasks tasks (closing other) h
            (λ e. cc) m)
        locked

  Act-Locked : {self after : System} → Act self after → Locked P self → Locked P after
  unfolding tell_done
  Act-Locked {self} (arrives c running) locked =
      with_tasks-Locked self c (serving ∷ (self c).tasks) (λ other p m. inr m) locked
  Act-Locked {self} (leaves c) locked = put-Locked self c _ refl locked
  Act-Locked {self} (task_leaves c tasks h) locked =
      with_tasks-Locked self c tasks
        (λ other p m. Replaced_keeps serving [] (self c).tasks tasks (closing other) h (λ e. cc) m)
        locked
  Act-Locked {self} (kicks c kicked tasks h) locked =
      put-Locked (with_tasks self c tasks) kicked _ refl (
        with_tasks-Locked self c tasks
          (λ other p m.
            Replaced_keeps serving (closing kicked ∷ []) (self c).tasks tasks (closing other) h
              (λ e. cc) m)
          locked)
  Act-Locked {self} (opens c opened tasks h) locked =
      with_tasks-Locked self c tasks
        (λ other p m.
          Replaced_keeps serving (opening opened ∷ []) (self c).tasks tasks (closing other) h
            (λ e. cc) m)
        locked
  Act-Locked {self} (opens_at_peer c tasks h) locked =
      with_tasks-Locked self c tasks
        (λ other p m.
          Replaced_keeps serving (opening_peer ∷ []) (self c).tasks tasks (closing other) h
            (λ e. cc) m)
        locked
  Act-Locked {self} (answers c opened tasks h) locked =
      with_tasks-Locked self c tasks
        (λ other p m.
          Replaced_keeps (opening opened) (serving ∷ []) (self c).tasks tasks (closing other) h
            (λ e. cc) m)
        locked
  Act-Locked {self} (peer_answers c tasks h) locked =
      with_tasks-Locked self c tasks
        (λ other p m.
          Replaced_keeps opening_peer (serving ∷ []) (self c).tasks tasks (closing other) h
            (λ e. cc) m)
        locked
  Act-Locked {self} (tracks c) locked =
      with_tasks-Locked self c (serving ∷ (self c).tasks) (λ other p m. inr m) locked
  Act-Locked {self} (tells c) locked = put-Locked self c _ refl locked

  Reach-Locked : {start self : System} → Reach start self → Locked P start → Locked P self
  Reach-Locked here locked = locked
  Reach-Locked (acts r act) locked = Act-Locked act (Reach-Locked r locked)
  Reach-Locked (finishes r step) locked = Finish-Locked step (Reach-Locked r locked)

-- Once each of some connections has a session that is in the close of one of them, whatever happens
-- none of them is ever gone, and each still has such a session. One connection whose session closes
-- it is such a case, and so are two whose sessions close each other.
pub Reach_never-IsGone :
    (P : ℕ → Type 0) {start self : System}
    → Reach start self
    → Locked P start
    → (c : ℕ) → P c
    → (¬ IsGone (self c)) × ((other : ℕ) × P other × Member (closing other) (self c).tasks)
Reach_never-IsGone P {self = self} r locked c p =
    let (other, q, m) = Reach-Locked P r locked c p in
    (λ gone. subst (Member (closing other)) gone.1 m, (other, q, m))
