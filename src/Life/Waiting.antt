-- ===== src/Life/Waiting.antt =====
-- gateway/connection.go, close: who waits for whom. A connection's wait group counts its loop, its
-- sessions and its tunnels; close waits for all of them, and kickUser of gateway/gateway.go runs it in
-- the goroutine of a session. What a goroutine computes is left out here, only when it can end is kept.
pub mod Stuck
pub mod Told
pub mod Burden
pub mod Ending
use gatewaysshd.Common.{
  ℕ, ◌≡◌, ◌⊎◌, Bool, true, false, List, [], ◌∷◌, ◌++◌, ◌==◌, nat_key, if◌then◌else◌, ◌+◌,
}

-- A goroutine of a session or a tunnel, which ends when its client or the connection goes; one of a
-- session that is in close of the connection of a number; or one of a tunnel that opens its other end,
-- at the connection of a number or at a peer, and is blocked until that client answers.
pub data Task : Type 0 where
  serving : Task
  closing : ℕ → Task
  opening : ℕ → Task
  opening_peer : Task

-- `loop` says whether the goroutine of handleConnection runs. It closes the ssh connection when it
-- ends, so the ssh connection is closed once it does not run.
pub record Group : Type 0 where
  pub done : Bool
  pub loop : Bool
  pub tasks : List Task

-- The connections by their numbers; one that is not there has no goroutine.
abbrev pub System : Type 0
System = ℕ → Group

abbrev pub put : System → ℕ → Group → System
put self c group x = if x == c then group else self x

-- Nothing is counted any more, and waitGroup.Wait returns.
abbrev pub IsGone : Group → Type 0
IsGone group = (group.loop ≡ false) × (group.tasks ≡ [])

-- close up to its wait.
unfoldable pub tell_done : System → ℕ → System
tell_done self c = put self c (record (self c) { done = true })

-- One of the tasks is replaced.
abbrev pub Replaced : Task → List Task → List Task → List Task → Type 0
Replaced task by [] ys = ⊥
Replaced task by (x ∷ xs) ys =
    ((x ≡ task) × (ys ≡ by ++ xs)) ⊎ ((zs : List Task) × (ys ≡ x ∷ zs) × Replaced task by xs zs)

abbrev pub with_tasks : System → ℕ → List Task → System
with_tasks self c tasks = put self c (record (self c) { tasks = tasks })

-- What the goroutines do on their own once a connection is told to end: the loop sees `done`, a task
-- sees that the ssh connection is closed, a close returns when the other connection is gone, and the
-- opening of a tunnel fails when the ssh connection of the other end is closed. The database answers.
pub data Finish (self : System) : System → Type 0 where
  loop_ends :
      (c : ℕ)
      → (self c).done ≡ true
      → (self c).loop ≡ true
      → Finish self (put self c (record (self c) { loop = false }))
  task_ends :
      (c : ℕ) (tasks : List Task)
      → (self c).loop ≡ false
      → Replaced serving [] (self c).tasks tasks
      → Finish self (with_tasks self c tasks)
  close_returns :
      (c other : ℕ) (tasks : List Task)
      → IsGone (self other)
      → Replaced (closing other) (serving ∷ []) (self c).tasks tasks
      → Finish self (with_tasks self c tasks)
  opening_fails :
      (c other : ℕ) (tasks : List Task)
      → (self other).loop ≡ false
      → Replaced (opening other) (serving ∷ []) (self c).tasks tasks
      → Finish self (with_tasks self c tasks)

-- What clients, the scavenger and the other connections do: a loop may still take a channel, select
-- being free to, after `done` is closed; it ends with its client; a task ends with its client; a
-- session kicks a connection; a tunnel begins to open its other end, which its client or the peer
-- answers at any time, and the end that is opened is tracked at its connection, whose loop may have
-- ended meanwhile; the scavenger or a shutdown tells a connection to end.
pub data Act (self : System) : System → Type 0 where
  arrives : (c : ℕ) → (self c).loop ≡ true → Act self (with_tasks self c (serving ∷ (self c).tasks))
  leaves : (c : ℕ) → Act self (put self c (record (self c) { loop = false }))
  task_leaves :
      (c : ℕ) (tasks : List Task)
      → Replaced serving [] (self c).tasks tasks
      → Act self (with_tasks self c tasks)
  kicks :
      (c other : ℕ) (tasks : List Task)
      → Replaced serving (closing other ∷ []) (self c).tasks tasks
      → Act self (tell_done (with_tasks self c tasks) other)
  opens :
      (c other : ℕ) (tasks : List Task)
      → Replaced serving (opening other ∷ []) (self c).tasks tasks
      → Act self (with_tasks self c tasks)
  opens_at_peer :
      (c : ℕ) (tasks : List Task)
      → Replaced serving (opening_peer ∷ []) (self c).tasks tasks
      → Act self (with_tasks self c tasks)
  answers :
      (c other : ℕ) (tasks : List Task)
      → Replaced (opening other) (serving ∷ []) (self c).tasks tasks
      → Act self (with_tasks self c tasks)
  peer_answers :
      (c : ℕ) (tasks : List Task)
      → Replaced opening_peer (serving ∷ []) (self c).tasks tasks
      → Act self (with_tasks self c tasks)
  tracks : (c : ℕ) → Act self (with_tasks self c (serving ∷ (self c).tasks))
  tells : (c : ℕ) → Act self (tell_done self c)

pub data Reach (start : System) : System → Type 0 where
  here : Reach start start
  acts : {self after : System} → Reach start self → Act self after → Reach start after
  finishes : {self after : System} → Reach start self → Finish self after → Reach start after

-- A run of goroutines that end, with its length.
pub data Run (start : System) : ℕ → System → Type 0 where
  stays : Run start 0 start
  runs :
      {n : ℕ} {self after : System} → Run start n self → Finish self after → Run start (1 + n) after
