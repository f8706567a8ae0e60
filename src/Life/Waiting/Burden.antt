-- ===== src/Life/Waiting/Burden.antt =====
-- gateway/connection.go, close: how many steps the goroutines have left.
use gatewaysshd.Common.{
  ℕ, zero, suc, ◌+◌, ◌≤◌, ◌<◌, ◌≡◌, inl, inr, refl, ap, false, List, [], ◌∷◌, ◌++◌, ◌==◌, nat_key,
  if◌then◌else◌, arith, Bool-cases, dec_lt,
}
use gatewaysshd.Life.Waiting.{
  Task, serving, closing, opening, opening_peer, Group, System, put, Replaced, with_tasks, Finish,
  loop_ends, task_ends, close_returns, opening_fails, Run, stays, runs,
}

-- How many steps are left to a task: a session in close and a tunnel that is opened go on serving
-- before they end.
abbrev pub weight : Task → ℕ
weight serving = 1
weight (closing other) = 2
weight (opening other) = 2
weight opening_peer = 2

abbrev pub weights : List Task → ℕ
weights [] = 0
weights (task ∷ tasks) = weight task + weights tasks

abbrev pub burden : Group → ℕ
burden group = (if group.loop then 1 else 0) + weights group.tasks

-- Those of the connections below `n`.
abbrev pub total : System → ℕ → ℕ
total self zero = 0
total self (suc n) = burden (self n) + total self n

-- There is no connection from `n` on.
abbrev pub IsWithin : ℕ → System → Type 0
IsWithin n self = (c : ℕ) → n ≤ c → burden (self c) ≡ 0

weights-append : (xs ys : List Task) → weights (xs ++ ys) ≡ weights xs + weights ys
weights-append [] ys = omega arith
weights-append (x ∷ xs) ys = omega (arith, weights-append xs ys)

weights-Replaced :
    (task : Task) (by xs ys : List Task)
    → Replaced task by xs ys
    → weights ys + weight task ≡ weights xs + weights by
weights-Replaced task by [] ys h = absurd h
weights-Replaced task by (x ∷ xs) ys (inl (e, shape)) =
    omega (arith, ap weights shape, ap weight e, weights-append by xs)
weights-Replaced task by (x ∷ xs) ys (inr (zs, shape, h)) =
    omega (arith, ap weights shape, weights-Replaced task by xs zs h)

total-put_above :
    (self : System) (c n : ℕ) (group : Group) → n ≤ c → total (put self c group) n ≡ total self n
total-put_above self c zero group above = refl
total-put_above self c (suc n) group above =
    ground (arith, total-put_above self c n group (omega arith))

total-put :
    (self : System) (c n : ℕ) (group : Group)
    → c < n
    → total (put self c group) n + burden (self c) ≡ total self n + burden group
total-put self c zero group below = absurd (omega arith)
total-put self c (suc n) group below = elim (Bool-cases (n == c)) [
  | inl hit ↦
      let same : n ≡ c = ground arith in
      let here' : burden (put self c group n) ≡ burden group = rw hit refl in
      omega (
        arith,
        here',
        ap (λ x. burden (self x)) same,
        total-put_above self c n group (omega (arith, same)),
      )
  | inr apart ↦
      let elsewhere : burden (put self c group n) ≡ burden (self n) = rw apart refl in
      let below' : c < n = ground arith in omega (arith, elsewhere, total-put self c n group below')
]

put_lighter :
    (self : System) (c n : ℕ) (group : Group)
    → 1 + burden group ≡ burden (self c)
    → IsWithin n self
    → (1 + total (put self c group) n ≡ total self n) × IsWithin n (put self c group)
put_lighter self c n group lighter within = elim (dec_lt c n) [
  | no above ↦ absurd (omega (arith, lighter, within c (omega arith)))
  | yes below ↦ (
    omega (arith, lighter, total-put self c n group below),
    λ x beyond. elim (Bool-cases (x == c)) [
      | inl hit ↦ (let same : x ≡ c = ground arith in absurd (omega (arith, same)))
      | inr apart ↦ rw apart (within x beyond)
    ],
  )
]

tasks_lighter :
    (self : System) (c n : ℕ) (task : Task) (by tasks : List Task)
    → 1 + weights by ≡ weight task
    → Replaced task by (self c).tasks tasks
    → IsWithin n self
    → (1 + total (with_tasks self c tasks) n ≡ total self n) × IsWithin n (with_tasks self c tasks)
tasks_lighter self c n task by tasks less h =
    put_lighter self c n (record (self c) { tasks = tasks })
      (omega (arith, less, weights-Replaced task by (self c).tasks tasks h))

-- Each goroutine that ends, and each close or opening that returns, leaves one step less.
Finish-total :
    {self after : System} (n : ℕ)
    → Finish self after
    → IsWithin n self
    → (1 + total after n ≡ total self n) × IsWithin n after
Finish-total {self} n (loop_ends c told running) within =
    put_lighter self c n (record (self c) { loop = false }) (rw running (omega arith)) within
Finish-total {self} n (task_ends c tasks ended h) within =
    tasks_lighter self c n serving [] tasks refl h within
Finish-total {self} n (close_returns c other tasks gone h) within =
    tasks_lighter self c n (closing other) (serving ∷ []) tasks refl h within
Finish-total {self} n (opening_fails c other tasks ended h) within =
    tasks_lighter self c n (opening other) (serving ∷ []) tasks refl h within

-- A run takes as many steps as it takes off, and none at the connections beyond.
pub Run-total :
    {self after : System} (n k : ℕ)
    → Run self k after
    → IsWithin n self
    → (k + total after n ≡ total self n) × IsWithin n after
Run-total n k stays within = (omega arith, within)
Run-total n k (runs {n = i} r step) within =
    let (before, still) = Run-total n i r within in
    let (one, after_still) = Finish-total n step still in (omega (arith, before, one), after_still)
