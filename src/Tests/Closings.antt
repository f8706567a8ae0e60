-- ===== src/Tests/Closings.antt =====
-- Tests of the connections that wait for each other.
use gatewaysshd.Common.{
  ℕ, zero, suc, ◌≡◌, inl, refl, sym, subst, true, false, [], ◌∷◌, nat_key, Member, ℕ_discrete,
}
use gatewaysshd.Life.Waiting.{
  serving, closing, System, put, IsGone, tell_done, with_tasks, loop_ends, Reach, here, finishes,
  Run, stays, runs,
}
use gatewaysshd.Life.Waiting.Stuck.{Locked, Reach_never-IsGone}

-- The connections 0 and 1, of users who do nothing.
abbrev idle : System
idle zero = record { done = false; loop = true; tasks = [] }
idle (suc zero) = record { done = false; loop = true; tasks = [] }
idle (suc (suc c)) = record { done = false; loop = false; tasks = [] }

-- A session of the connection 0 kicks the user of the connection 1.
abbrev in_session : System
in_session = with_tasks idle 0 (serving ∷ [])

abbrev kicked : System
kicked = tell_done (with_tasks in_session 0 (closing 1 ∷ [])) 1

abbrev height : ℕ → ℕ
height zero = 1
height (suc c) = 0

abbrev without_loop : System
without_loop = put kicked 1 (record (kicked 1) { loop = false })

run : Run kicked 1 without_loop
unfolding tell_done ℕ_discrete
run = runs {self = kicked} stays (loop_ends 1 refl refl)

told : (kicked 1).done ≡ true
unfolding tell_done ℕ_discrete
told = refl

-- A session of the connection 0 kicks its own user.
abbrev self_kicked : System
self_kicked = tell_done (with_tasks in_session 0 (closing 0 ∷ [])) 0

abbrev Own : ℕ → Type 0
Own c = c ≡ 0

self_kicked-Locked : Locked Own self_kicked
unfolding tell_done ℕ_discrete
self_kicked-Locked c p =
    (0, refl, subst (λ x. Member (closing 0) (self_kicked x).tasks) (sym p) (inl refl))

abbrev later : System
later = put self_kicked 0 (record (self_kicked 0) { loop = false })

later_path : Reach self_kicked later
unfolding tell_done ℕ_discrete
later_path = finishes {self = self_kicked} here (loop_ends 0 refl refl)

Reach_never-IsGone_example :
    (¬ IsGone (later 0)) × ((other : ℕ) × Own other × Member (closing other) (later 0).tasks)
Reach_never-IsGone_example =
    Reach_never-IsGone Own {start = self_kicked} {self = later} later_path self_kicked-Locked 0 refl
