-- ===== src/Life/Waiting/Told.antt =====
-- gateway/connection.go, close: whoever waits for a connection has told it to end.
use gatewaysshd.Common.{
  ℕ, ◌<◌, ◌≡◌, ◌⊎◌, inl, inr, refl, sym, subst, ap, ◌∙◌, true, List, [], ◌∷◌, ◌++◌, ◌==◌, nat_key,
  Member, arith, Bool-cases, ==_refl,
}
use gatewaysshd.Life.Waiting.{
  Task, serving, closing, opening, opening_peer, Group, System, put, tell_done, Replaced,
  with_tasks, Finish, loop_ends, task_ends, close_returns, opening_fails, Act, opens, opens_at_peer,
  answers, peer_answers, tracks, arrives, leaves, task_leaves, kicks, tells, Reach, here, acts,
  finishes,
}

Member-append_cases :
    {A : Type 0} (a : A) (xs ys : List A) → Member a (xs ++ ys) → Member a xs ⊎ Member a ys
Member-append_cases a [] ys m = inr m
Member-append_cases a (x ∷ xs) ys (inl e) = inl (inl e)
Member-append_cases a (x ∷ xs) ys (inr m) = elim (Member-append_cases a xs ys m) [
  | inl n ↦ inl (inr n)
  | inr n ↦ inr n
]

-- A task is one of those that replaced, or was there.
Replaced_from :
    (task : Task) (by xs ys : List Task) (found : Task)
    → Replaced task by xs ys
    → Member found ys
    → Member found by ⊎ Member found xs
Replaced_from task by [] ys found h m = absurd h
Replaced_from task by (x ∷ xs) ys found (inl (e, shape)) m =
    elim (Member-append_cases found by xs (subst (Member found) shape m)) [
      | inl n ↦ inl n
      | inr n ↦ inr (inr n)
    ]
Replaced_from task by (x ∷ xs) ys found (inr (zs, shape, h)) m =
    elim (subst (Member found) shape m) [
      | inl same ↦ inr (inl same)
      | inr n ↦ elim (Replaced_from task by xs zs found h n) [
        | inl new ↦ inl new
        | inr old ↦ inr (inr old)
      ]
    ]

module _ (P : System → ℕ → ℕ → Type 0) where
  -- What holds of each connection and of each that it waits for.
  abbrev pub Waits : System → Type 0
  Waits self = (c other : ℕ) → Member (closing other) (self c).tasks → P self c other

  put-Waits :
      (self : System) (x : ℕ) (group : Group)
      → ((c other : ℕ) → P self c other → P (put self x group) c other)
      → ((other : ℕ) → Member (closing other) group.tasks → P (put self x group) x other)
      → Waits self
      → Waits (put self x group)
  put-Waits self x group stays' new waits c other m = elim (Bool-cases (c == x)) [
    | inl hit ↦
        (let same : c ≡ x = ground arith in
          subst (λ y. P (put self x group) y other) (sym same) (new other (rw hit at m)))
    | inr apart ↦ stays' c other (waits c other (rw apart at m))
  ]

pub put_keeps_done :
    (self : System) (x other : ℕ) (group : Group)
    → ((self x).done ≡ true → group.done ≡ true)
    → (self other).done ≡ true
    → (put self x group other).done ≡ true
put_keeps_done self x other group keeps told = elim (Bool-cases (other == x)) [
  | inl hit ↦
      (let same : other ≡ x = ground arith in
        rw hit (keeps (subst (λ y. (self y).done ≡ true) same told)))
  | inr apart ↦ rw apart told
]

abbrev IsTold : System → ℕ → ℕ → Type 0
IsTold self c other = (self other).done ≡ true

abbrev pub Told : System → Type 0
Told = Waits IsTold

-- By a rank, nobody waits in a circle.
abbrev IsBelow : (ℕ → ℕ) → System → ℕ → ℕ → Type 0
IsBelow rank self c other = rank other < rank c

abbrev pub Ranked : (ℕ → ℕ) → System → Type 0
Ranked rank = Waits (IsBelow rank)

-- A task that ends or returns leaves the others' closes.
with_tasks-Waits :
    (P : System → ℕ → ℕ → Type 0) (self : System) (x : ℕ) (task : Task) (by tasks : List Task)
    → ((c other : ℕ) → P self c other → P (with_tasks self x tasks) c other)
    → ((other : ℕ) → Member (closing other) by → P (with_tasks self x tasks) x other)
    → Replaced task by (self x).tasks tasks
    → Waits P self
    → Waits P (with_tasks self x tasks)
with_tasks-Waits P self x task by tasks stays' new h waits =
    put-Waits P self x (record (self x) { tasks = tasks }) stays'
      (λ other m. elim (Replaced_from task by (self x).tasks tasks (closing other) h m) [
        | inl n ↦ new other n
        | inr n ↦ stays' x other (waits x other n)
      ])
      waits

-- What replaces a task waits for no close, unless it is a close.
nothing_closing : (other : ℕ) → ¬ Member (closing other) (serving ∷ [])
nothing_closing other (inl e) = cc
nothing_closing other (inr m) = m

no_close_at : (opened other : ℕ) → ¬ Member (closing other) (opening opened ∷ [])
no_close_at opened other (inl e) = cc
no_close_at opened other (inr m) = m

no_close_at_peer : (other : ℕ) → ¬ Member (closing other) (opening_peer ∷ [])
no_close_at_peer other (inl e) = cc
no_close_at_peer other (inr m) = m

-- What is true of the connections and stays so as others lose goroutines is kept.
Finish-Waits :
    (P : System → ℕ → ℕ → Type 0) {self after : System}
    → ((x : ℕ) (group : Group) (c other : ℕ)
        → group.done ≡ (self x).done
        → P self c other
        → P (put self x group) c other)
    → Finish self after
    → Waits P self
    → Waits P after
Finish-Waits P {self} stays' (loop_ends c told running) waits =
    put-Waits P self c _ (λ d other. stays' c _ d other refl)
      (λ other m. stays' c _ c other refl (waits c other m)) waits
Finish-Waits P {self} stays' (task_ends c tasks ended h) waits =
    with_tasks-Waits P self c serving [] tasks (λ d other. stays' c _ d other refl)
      (λ other m. absurd m) h waits
Finish-Waits P {self} stays' (close_returns c other tasks gone h) waits =
    with_tasks-Waits P self c (closing other) (serving ∷ []) tasks
      (λ d third. stays' c _ d third refl) (λ third m. absurd (nothing_closing third m)) h waits
Finish-Waits P {self} stays' (opening_fails c other tasks ended h) waits =
    with_tasks-Waits P self c (opening other) (serving ∷ []) tasks
      (λ d third. stays' c _ d third refl) (λ third m. absurd (nothing_closing third m)) h waits

pub Finish-Told : {self after : System} → Finish self after → Told self → Told after
Finish-Told {self} step told =
    Finish-Waits IsTold {self = self}
      (λ x group c other same known. put_keeps_done self x other group (λ e. same ∙ e) known) step
      told

pub Finish-Ranked :
    (rank : ℕ → ℕ) {self after : System} → Finish self after → Ranked rank self → Ranked rank after
Finish-Ranked rank {self} step ranked =
    Finish-Waits (IsBelow rank) {self = self} (λ x group c other same below. below) step ranked

tasks-tell_done : (self : System) (kicked c : ℕ) → (tell_done self kicked c).tasks ≡ (self c).tasks
unfolding tell_done
tasks-tell_done self kicked c = elim (Bool-cases (c == kicked)) [
  | inl hit ↦ (let same : c ≡ kicked = ground arith in rw hit (ap (λ x. (self x).tasks) (sym same)))
  | inr apart ↦ rw apart refl
]

done-tell_done : (self : System) (kicked : ℕ) → (tell_done self kicked kicked).done ≡ true
unfolding tell_done
done-tell_done self kicked = rw (==_refl kicked) refl

tell_done-Told :
    (self : System) (kicked : ℕ)
    → ((c other : ℕ)
        → Member (closing other) (self c).tasks
        → (other ≡ kicked) ⊎ ((self other).done ≡ true))
    → Told (tell_done self kicked)
unfolding tell_done
tell_done-Told self kicked known c other m =
    elim (known c other (subst (Member (closing other)) (tasks-tell_done self kicked c) m)) [
      | inl same ↦
          subst (λ x. (tell_done self kicked x).done ≡ true) (sym same) (done-tell_done self kicked)
      | inr told ↦ put_keeps_done self kicked other _ (λ e. refl) told
    ]

-- All who wait but for the one who is kicked have told theirs.
kicks-known :
    (self : System) (c kicked : ℕ) (tasks : List Task)
    → Replaced serving (closing kicked ∷ []) (self c).tasks tasks
    → Told self
    → Waits (λ now x other. (other ≡ kicked) ⊎ ((now other).done ≡ true)) (with_tasks self c tasks)
kicks-known self c kicked tasks h told =
    with_tasks-Waits (λ now x other. (other ≡ kicked) ⊎ ((now other).done ≡ true)) self c serving
      (closing kicked ∷ []) tasks
      (λ x other known. elim known [
        | inl same ↦ inl same
        | inr e ↦ inr (put_keeps_done self c other _ (λ d. d) e)
      ])
      (λ other m. elim m [ inl e ↦ inl cc | inr n ↦ absurd n ]) h
      (λ x other m. inr (told x other m))

-- A task that is replaced by one that waits for no close.
with_tasks-Told :
    (self : System) (c : ℕ) (task by : Task) (tasks : List Task)
    → ((other : ℕ) → ¬ Member (closing other) (by ∷ []))
    → Replaced task (by ∷ []) (self c).tasks tasks
    → Told self
    → Told (with_tasks self c tasks)
with_tasks-Told self c task by tasks no_close h told =
    with_tasks-Waits IsTold self c task (by ∷ []) tasks
      (λ x other. put_keeps_done self c other _ (λ d. d)) (λ other m. absurd (no_close other m)) h
      told

tracks-Told :
    (self : System) (c : ℕ) → Told self → Told (with_tasks self c (serving ∷ (self c).tasks))
tracks-Told self c told =
    put-Waits IsTold self c _ (λ x other. put_keeps_done self c other _ (λ d. d))
      (λ other m. elim m [
        | inl e ↦ cc
        | inr n ↦ put_keeps_done self c other _ (λ d. d) (told c other n)
      ])
      told

Act-Told : {self after : System} → Act self after → Told self → Told after
Act-Told {self} (arrives c running) told = tracks-Told self c told
Act-Told {self} (leaves c) told =
    put-Waits IsTold self c _ (λ x other. put_keeps_done self c other _ (λ d. d))
      (λ other m. put_keeps_done self c other _ (λ d. d) (told c other m)) told
Act-Told {self} (task_leaves c tasks h) told =
    with_tasks-Waits IsTold self c serving [] tasks
      (λ x other. put_keeps_done self c other _ (λ d. d)) (λ other m. absurd m) h told
Act-Told {self} (kicks c kicked tasks h) told =
    tell_done-Told (with_tasks self c tasks) kicked (kicks-known self c kicked tasks h told)
Act-Told {self} (opens c other tasks h) told =
    with_tasks-Told self c serving (opening other) tasks (no_close_at other) h told
Act-Told {self} (opens_at_peer c tasks h) told =
    with_tasks-Told self c serving opening_peer tasks no_close_at_peer h told
Act-Told {self} (answers c other tasks h) told =
    with_tasks-Told self c (opening other) serving tasks nothing_closing h told
Act-Told {self} (peer_answers c tasks h) told =
    with_tasks-Told self c opening_peer serving tasks nothing_closing h told
Act-Told {self} (tracks c) told = tracks-Told self c told
Act-Told {self} (tells c) told = tell_done-Told self c (λ x other m. inr (told x other m))

-- However the connections came about, whoever waits for one has told it to end.
pub Reach-Told : {start self : System} → Reach start self → Told start → Told self
Reach-Told here told = told
Reach-Told (acts r act) told = Act-Told act (Reach-Told r told)
Reach-Told (finishes r step) told = Finish-Told step (Reach-Told r told)
