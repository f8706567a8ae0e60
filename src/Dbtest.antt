-- ===== src/Dbtest.antt =====
-- db/dbtest/dbtest.go: execAdmin, which runs a statement on the database of a server that may still be
-- starting. Times are milliseconds. What an attempt to connect and to execute meets, and how long it
-- takes, are parameters.
pub mod Retries
use gatewaysshd.Common.{
  ℕ, zero, suc, ◌+◌, ◌*◌, Bool, true, false, ◌&&◌, Text, codes, ◌==◌, text_key, if◌then◌else◌, ltb,
}

abbrev pub admin_connect_budget : ℕ
admin_connect_budget = 60 * 1000

abbrev pub admin_retry_interval : ℕ
admin_retry_interval = 500

-- An error of postgres, by its SQLSTATE, or any other.
pub data Failure : Type 0 where
  postgres : Text → Failure
  other : Failure

-- The connection fails; or the statement fails, or ends well, and the connection is closed.
pub data Attempt : Type 0 where
  open_failed : Failure → Attempt
  execute_failed : Failure → Attempt
  executed : Bool → Attempt

pub data Outcome : Type 0 where
  failed_to_connect : Failure → Outcome
  failed : Failure → Outcome
  -- whether the connection was closed without an error
  done : Bool → Outcome
  out_of_fuel : Outcome

unfoldable pub is_transient_exec_error : Failure → Bool
is_transient_exec_error (postgres state) = state == codes "57P03"
is_transient_exec_error other = false

-- What an attempt that ends at `then_at` leads to; `again` is what the next ones do.
unfoldable pub judge : ℕ → ℕ → Outcome → Attempt → Outcome
judge deadline then_at again (open_failed e) =
    if ltb deadline then_at then failed_to_connect e else again
judge deadline then_at again (executed closed) = done closed
judge deadline then_at again (execute_failed e) =
    if is_transient_exec_error e && ltb then_at deadline then again else failed e

-- The loop from the time `now` on. `attempts` gives what the attempt of a time meets, and `takes` how
-- long it takes.
unfoldable pub retry : (ℕ → Attempt) → (ℕ → ℕ) → ℕ → ℕ → ℕ → Outcome
retry attempts takes deadline zero now = out_of_fuel
retry attempts takes deadline (suc fuel) now =
    let then_at = now + takes now in
    let again = retry attempts takes deadline fuel (then_at + admin_retry_interval) in
    judge deadline then_at again (attempts now)

-- The budget has room for 120 waits, so the 122nd attempt, at most, begins behind the deadline.
unfoldable pub exec_admin : (ℕ → Attempt) → (ℕ → ℕ) → ℕ → Outcome
exec_admin attempts takes now = retry attempts takes (now + admin_connect_budget) 122 now
