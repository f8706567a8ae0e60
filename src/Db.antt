-- ===== src/Db.antt =====
-- db/users.go, db/nodes.go and db/models.go: the tables of users and nodes, and what each statement
-- does to them. A table maps the primary key `id` to the rest of the row; a location is its stored
-- text, and an empty text stands for NULL. The time of a statement is an argument, in nanoseconds.
pub mod Presence
pub mod Adoption
pub mod Login
pub mod Reports
pub mod Columns
use mathlib.Core.Option
use gatewaysshd.Common.{
  ℕ, ◌-◌, Bool, true, false, not, ◌&&◌, ◌||◌, List, [], ◌∷◌, Option, none, some, Text, ◌==◌,
  text_key, if◌then◌else◌, ltb, select,
}
use gatewaysshd.Common.Dict.{Dict, lookup, insert, retain, map_values}
use gatewaysshd.Errors.{Result, ok, err, ◌>>=◌, record_not_found}

pub record User : Type 0 where
  pub created_at : ℕ
  pub modified_at : ℕ
  pub comment : Text
  pub ip : Text
  pub location : Text
  pub status : Text
  pub administrator : Bool
  pub screenshot : Text
  pub disabled : Bool
  pub node_id : Text
  pub online_at : ℕ

pub record Node : Type 0 where
  pub created_at : ℕ
  pub modified_at : ℕ
  pub address : Text
  pub host_public_key : Text
  pub online : Bool
  pub online_at : ℕ

pub record Db : Type 0 where
  pub users : Dict Text User
  pub nodes : Dict Text Node

-- The row of a type's zero values.
abbrev pub zero_user : User
zero_user = record {
  created_at = 0;
  modified_at = 0;
  comment = [];
  ip = [];
  location = [];
  status = [];
  administrator = false;
  screenshot = [];
  disabled = false;
  node_id = [];
  online_at = 0;
}

abbrev pub zero_node : Node
zero_node = record {
  created_at = 0;
  modified_at = 0;
  address = [];
  host_public_key = [];
  online = false;
  online_at = 0;
}

-- `id IN ?`.
unfoldable pub is_in : Text → List Text → Bool
is_in id [] = false
is_in id (x ∷ xs) = x == id || is_in id xs

-- `UPDATE "user" SET ... WHERE ...`.
unfoldable pub update_users : (Text → User → Bool) → (User → User) → Db → Db
update_users where' set db = record db {
  users = map_values (λ id user. if where' id user then set user else user) db.users;
}

-- userListColumns and userDetailColumns: the columns that are not selected have the zero value.
abbrev pub list_columns : User → User
list_columns user = record user { status = []; screenshot = [] }

abbrev pub detail_columns : User → User
detail_columns user = record user { screenshot = [] }

-- listUsers, with its condition.
unfoldable pub select_users : (Text → User → Bool) → Db → Dict Text User
select_users where' db = map_values (λ _ user. list_columns user) (retain where' db.users)

unfoldable pub list_users : Db → Dict Text User
unfolding select_users
list_users db = select_users (λ _ _. true) db

unfoldable pub list_online_users : Db → ℕ → Dict Text User
unfolding select_users
list_online_users db since = select_users (λ _ user. ltb since user.online_at) db

unfoldable pub get_users : Db → List Text → Dict Text User
unfolding is_in select_users
get_users db user_ids = select_users (λ id _. is_in id user_ids) db

unfoldable pub get_user : Db → Text → Option User
get_user db user_id = Option.map detail_columns (lookup user_id db.users)

-- The screenshot, nil for an unknown user.
unfoldable pub get_user_screenshot : Db → Text → Text
get_user_screenshot db user_id = elim (lookup user_id db.users) [
  | none ↦ []
  | some user ↦ user.screenshot
]

-- The node of the user, empty for an unknown one.
unfoldable pub get_user_node_id : Db → Text → Text
get_user_node_id db user_id = elim (lookup user_id db.users) [
  | none ↦ []
  | some user ↦ user.node_id
]

-- `SELECT id FROM "node" WHERE online AND online_at > ?` has the id.
unfoldable pub is_live_node : Db → ℕ → Text → Bool
is_live_node db stale_before id = elim (lookup id db.nodes) [
  | none ↦ false
  | some node ↦ node.online && ltb stale_before node.online_at
]

-- The condition userNodeGone.
unfoldable pub user_node_gone : Db → ℕ → User → Bool
user_node_gone db stale_before user =
    user.node_id == [] || not (is_live_node db stale_before user.node_id)

-- The assignment of the heartbeat's statement: every expression sees the old row.
unfoldable pub beat_user : Db → Text → ℕ → ℕ → User → User
beat_user db node_id stale_before now user =
    let gone = user_node_gone db stale_before user in
    record user {
      online_at = now;
      modified_at = if gone then now else user.modified_at;
      node_id = if gone then node_id else user.node_id;
    }

unfoldable pub mark_users_online : Db → List Text → Text → ℕ → ℕ → Db
mark_users_online db user_ids node_id node_stale_after now =
    if node_id == []
    then update_users (λ id _. is_in id user_ids) (λ user. record user { online_at = now }) db
    else update_users (λ id _. is_in id user_ids)
        (beat_user db node_id (now - node_stale_after) now) db

unfoldable pub clear_user_node_id : Db → Text → Text → ℕ → Db
clear_user_node_id db user_id node_id now =
    update_users (λ id user. id == user_id && user.node_id == node_id)
      (λ user. record user { node_id = []; modified_at = now }) db

-- The row that a first login inserts, and the assignment on a conflict.
unfoldable pub login_row : Text → Text → Text → ℕ → User
login_row ip location node_id now = record zero_user {
  created_at = now;
  modified_at = now;
  ip = ip;
  location = location;
  node_id = node_id;
  online_at = now;
}

unfoldable pub login_update : Text → Text → Text → ℕ → User → User
login_update ip location node_id now user = record user {
  modified_at = now;
  ip = ip;
  location = location;
  node_id = if user.disabled then user.node_id else node_id;
  online_at = if user.disabled then user.online_at else now;
}

-- The row that a login stores.
unfoldable pub logged_in : Db → Text → Text → Text → Text → ℕ → User
unfolding login_row login_update
logged_in db user_id ip location node_id now = elim (lookup user_id db.users) [
  | none ↦ login_row ip location node_id now
  | some old ↦ login_update ip location node_id now old
]

-- Every connection logs in through this one statement, which returns the light columns of the row.
unfoldable pub upsert_user_on_connect : Db → Text → Text → Text → Text → ℕ → Db × User
unfolding logged_in
upsert_user_on_connect db user_id ip location node_id now =
    let user = logged_in db user_id ip location node_id now in
    (record db { users = insert user_id user db.users }, list_columns user)

-- A report for a row that vanished is an error.
unfoldable pub update_user_column : (User → User) → Db → Text → ℕ → Result Db
update_user_column set db user_id now = elim (lookup user_id db.users) [
  | none ↦ err record_not_found
  | some user ↦
      ok (update_users (λ id _. id == user_id) (λ user. record (set user) { modified_at = now }) db)
]

unfoldable pub update_user_status : Db → Text → Text → ℕ → Result Db
update_user_status db user_id status =
    update_user_column (λ user. record user { status = status }) db user_id

unfoldable pub update_user_screenshot : Db → Text → Text → ℕ → Result Db
update_user_screenshot db user_id screenshot =
    update_user_column (λ user. record user { screenshot = screenshot }) db user_id

-- The locked read, modification and write of one transaction.
unfoldable pub put_user : Db → Text → (User → Result User) → ℕ → Result (Db × User)
put_user db user_id modifier now = do
  let found = lookup user_id db.users
  user ← modifier (Option.get_or found zero_user)
  let user' = record user {
    created_at = elim found [ none ↦ now | some _ ↦ user.created_at ];
    modified_at = now;
  }
  ok (record db { users = insert user_id user' db.users }, user')

unfoldable pub list_nodes : Db → Dict Text Node
list_nodes db = db.nodes

unfoldable pub get_node : Db → Text → Option Node
get_node db node_id = lookup node_id db.nodes

unfoldable pub put_node : Db → Text → (Node → Result Node) → ℕ → Result (Db × Node)
put_node db node_id modifier now = do
  let found = lookup node_id db.nodes
  node ← modifier (Option.get_or found zero_node)
  let node' = record node {
    created_at = elim found [ none ↦ now | some _ ↦ node.created_at ];
    modified_at = now;
  }
  ok (record db { nodes = insert node_id node' db.nodes }, node')
