-- ===== src/Db/Adoption.antt =====
-- db/users.go and db/nodes.go: which node a user is on, over any sequence of the statements of the
-- nodes that share the database.
use gatewaysshd.Common.{
  ℕ, ◌-◌, ◌≡◌, ◌≢◌, Bool, true, not, ◌&&◌, List, [], ◌∷◌, Text, ◌==◌, text_key, arith,
}
use gatewaysshd.Errors.{Result, ok, err}
use gatewaysshd.Db.{
  Node, Db, is_in, mark_users_online, clear_user_node_id, user_node_gone, is_live_node, beat_user,
  get_user_node_id, put_node,
}
use gatewaysshd.Db.Presence.{lookup-update_users, node-clear_user_node_id}

-- The statements of a heartbeat, of a release and of the registration of a node.
pub data Statement : Type 0 where
  marks : List Text → Text → ℕ → Statement
  clears : Text → Text → ℕ → Statement
  registers : Text → (Node → Result Node) → ℕ → Statement

-- A registration that fails is rolled back.
unfoldable pub run_statement : ℕ → Db → Statement → Db
run_statement stale_after db (marks user_ids node_id now) =
    mark_users_online db user_ids node_id stale_after now
run_statement stale_after db (clears user_id node_id now) =
    clear_user_node_id db user_id node_id now
run_statement stale_after db (registers node_id modifier now) =
    elim (put_node db node_id modifier now) [ ok put ↦ put.0 | err e ↦ db ]

unfoldable pub run_statements : ℕ → Db → List Statement → Db
run_statements stale_after db [] = db
run_statements stale_after db (statement ∷ later) =
    run_statements stale_after (run_statement stale_after db statement) later

-- The node is live as a heartbeat's statement runs, and the user is not released from it.
unfoldable pub spares : ℕ → Text → Text → Db → Statement → Bool
spares stale_after id node_id db (marks user_ids marker now) =
    is_live_node db (now - stale_after) node_id
spares stale_after id node_id db (clears user_id from now) = not (user_id == id && from == node_id)
spares stale_after id node_id db (registers registered modifier now) = true

unfoldable pub spared : ℕ → Text → Text → Db → List Statement → Bool
spared stale_after id node_id db [] = true
spared stale_after id node_id db (statement ∷ later) =
    spares stale_after id node_id db statement
    && spared stale_after id node_id (run_statement stale_after db statement) later

node-mark_users_online :
    (db : Db) (user_ids : List Text) (marker : Text) (now stale_after : ℕ) (id node_id : Text)
    → node_id ≢ []
    → get_user_node_id db id ≡ node_id
    → is_live_node db (now - stale_after) node_id ≡ true
    → get_user_node_id (mark_users_online db user_ids marker stale_after now) id ≡ node_id
unfolding mark_users_online beat_user user_node_gone get_user_node_id
node-mark_users_online db user_ids marker now stale_after id node_id named e live = ground (
  arith,
  lookup-update_users (λ id _. is_in id user_ids) (beat_user db marker (now - stale_after) now) db
      id,
  lookup-update_users (λ id _. is_in id user_ids) (λ user. record user { online_at = now }) db id,
)

node-put_node :
    (db : Db) (node_id : Text) (modifier : Node → Result Node) (now : ℕ) (id : Text)
    → get_user_node_id (elim (put_node db node_id modifier now) [ ok put ↦ put.0 | err e ↦ db ]) id
      ≡ get_user_node_id db id
unfolding put_node get_user_node_id
node-put_node db node_id modifier now id = ground arith

node-run_statement :
    (stale_after : ℕ) (db : Db) (statement : Statement) (id node_id : Text)
    → node_id ≢ []
    → get_user_node_id db id ≡ node_id
    → spares stale_after id node_id db statement ≡ true
    → get_user_node_id (run_statement stale_after db statement) id ≡ node_id
unfolding run_statement spares
node-run_statement stale_after db (marks user_ids marker now) id node_id named e live =
    node-mark_users_online db user_ids marker now stale_after id node_id named e live
node-run_statement stale_after db (clears user_id from now) id node_id named e kept =
    ground (arith, node-clear_user_node_id db user_id from now id)
node-run_statement stale_after db (registers registered modifier now) id node_id named e kept =
    ground (arith, node-put_node db registered modifier now id)

-- A user is on the same node after any sequence of heartbeat statements, releases and registrations,
-- of whatever nodes, in which that node is live at each heartbeat statement and the user is not
-- released from it.
pub run_statements_stable :
    (stale_after : ℕ) (db : Db) (statements : List Statement) (id node_id : Text)
    → node_id ≢ []
    → get_user_node_id db id ≡ node_id
    → spared stale_after id node_id db statements ≡ true
    → get_user_node_id (run_statements stale_after db statements) id ≡ node_id
unfolding run_statements spared
run_statements_stable stale_after db [] id node_id named e h = e
run_statements_stable stale_after db (statement ∷ later) id node_id named e h =
    run_statements_stable stale_after (run_statement stale_after db statement) later id node_id
      named (node-run_statement stale_after db statement id node_id named e (ground arith))
      (ground arith)
