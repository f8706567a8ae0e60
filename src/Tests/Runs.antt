-- ===== src/Tests/Runs.antt =====
-- Tests of the start of a node as a whole, and of its loop.
use gatewaysshd.Common.{ℕ, ◌≡◌, refl, true, false, not, ◌==◌, nat_key, arith, [], ◌∷◌, ◌++◌}
use gatewaysshd.Gateway.{Gateway, scavenge_connections, close_each}
use gatewaysshd.Gateway.Kick.{contains}
use gatewaysshd.Startup.Run.{Outside, run}
use gatewaysshd.Startup.Run.Undo.{Follows}
use gatewaysshd.Startup.Run.Order.{plan, run-Follows}
use gatewaysshd.Startup.Serving.{Round, timed_out, signaled, going, serve, quits, serve_closes_idle}
use gatewaysshd.Tests.{program, gateway}
use gatewaysshd.Tests.Logins.{ssh}
use gatewaysshd.Tests.Starts.{keys, read_file, ten_minutes, flags}

-- The gateway cannot be opened.
abbrev outside : Outside
outside = record {
  can_listen = λ address. true;
  can_open_database = true;
  can_migrate = true;
  can_load_logins = true;
  can_open_gateway = false;
}

run-Follows_example : Follows (plan flags) (run ssh keys read_file ten_minutes outside flags)
run-Follows_example = run-Follows ssh keys read_file ten_minutes outside flags

-- Alice's connection, number 7, was last used at 5, and its close does not return.
abbrev tick : ℕ → Round
tick now = record {
  meanwhile = λ self. self;
  event = timed_out;
  used_at = λ c. 5;
  now = λ c. now;
  returns = λ c. not (c == 7);
}

abbrev interrupt : Round
interrupt = record (tick 700) { event = signaled }

abbrev reached : Gateway
reached = (serve 600 gateway (tick 15 ∷ [])).0

goes_on : serve 600 gateway (tick 15 ∷ []) ≡ (reached, going)
unfolding program serve quits scavenge_connections close_each
goes_on = refl

listed : contains reached.connections_list 7 ≡ true
unfolding program serve quits scavenge_connections close_each
listed = refl

serve_closes_idle_example :
    ((serve 600 gateway ((tick 15 ∷ []) ++ (tick 606 ∷ interrupt ∷ []))).0.store 7).closed ≡ true
serve_closes_idle_example =
    serve_closes_idle 600 gateway reached (tick 15 ∷ []) (interrupt ∷ []) (tick 606) 7 goes_on refl
      listed refl (λ x member idle apart. ground (arith, apart)) ((λ self c closed. closed), tt)
