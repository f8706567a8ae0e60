-- ===== src/Tests/Presence.antt =====
-- Tests of the presence of users.
use gatewaysshd.Common.{
  ◌*◌, ◌≡◌, ◌≢◌, refl, inl, true, false, List, [], ◌∷◌, some, text_key, nat_key, arith, Member,
}
use gatewaysshd.Common.Dict.{lookup, Distinct}
use gatewaysshd.RouteCache.{second}
use gatewaysshd.Gateway.{connections_of, connected_user_ids}
use gatewaysshd.Db.{is_in, get_user_node_id, put_node, mark_users_online}
use gatewaysshd.Db.Adoption.{
  Statement, marks, clears, registers, run_statement, run_statements, spares, spared,
  run_statements_stable,
}
use gatewaysshd.Errors.{ok}
use gatewaysshd.Heartbeat.{online_stale_threshold, beat}
use gatewaysshd.Heartbeat.Release.{beat_releases}
use gatewaysshd.Tests.{program, alice, bob, n1, n2, gateway, empty_gateway, bobs_row, db}

-- The nodes n1 and n2 mark Bob, n2 registers once more, and n1 releases him, who is not on it.
abbrev statements : List Statement
statements =
    marks (bob ∷ []) n1 (120 * second)
    ∷ registers n2 (λ node. ok (record node { online = true; online_at = 200 * second }))
        (200 * second)
    ∷ marks (alice ∷ bob ∷ []) n1 (220 * second)
    ∷ clears bob n1 (230 * second)
    ∷ []

on_n2 : get_user_node_id db bob ≡ n2
unfolding program
on_n2 = refl

stays_there : spared online_stale_threshold bob n2 db statements ≡ true
unfolding program spared spares run_statement put_node mark_users_online
stays_there = refl

run_statements_stable_example :
    get_user_node_id (run_statements online_stale_threshold db statements) bob ≡ n2
run_statements_stable_example =
    run_statements_stable online_stale_threshold db statements bob n2 (ground arith) on_n2
      stays_there

alice_counted : Member alice (connected_user_ids gateway)
unfolding program
alice_counted = inl refl

gone : is_in alice (connected_user_ids empty_gateway) ≡ false
unfolding program
gone = refl

here : is_in alice (connected_user_ids gateway) ≡ true
unfolding program
here = refl

left : connections_of empty_gateway alice ≡ []
unfolding program
left = refl

beat_releases_example :
    get_user_node_id
      (beat n1 true (λ user. true) gateway empty_gateway (λ user. empty_gateway) db (120 * second))
      alice
    ≢ n1
beat_releases_example =
    beat_releases n1 (λ user. true) gateway empty_gateway (λ user. empty_gateway) db (120 * second)
      alice (ground arith) (ground arith) alice_counted gone left refl

bobs : lookup bob db.users ≡ some bobs_row
unfolding program
bobs = refl

once : Distinct db.users
unfolding program
once = ground arith
