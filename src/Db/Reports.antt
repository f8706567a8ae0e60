-- ===== src/Db/Reports.antt =====
-- The reporting statements of db/users.go.
use gatewaysshd.Common.{ℕ, ◌≡◌, ◌≢◌, none, some, Text, ◌==◌, text_key, if◌then◌else◌, arith}
use gatewaysshd.Common.Dict.{lookup, lookup-insert}
use gatewaysshd.Errors.{Result, ok}
use gatewaysshd.Db.{
  User, Db, get_user_screenshot, update_user_column, put_user, update_user_screenshot, update_users,
}
use gatewaysshd.Db.Presence.{lookup-update_users}

-- A screenshot that was reported is the one served, and the screenshots of the others stay.
pub get_user_screenshot-update_user_screenshot :
    (db : Db) (user_id screenshot : Text) (now : ℕ) {db' : Db} (id : Text)
    → update_user_screenshot db user_id screenshot now ≡ ok db'
    → get_user_screenshot db' id ≡ (if id == user_id then screenshot else get_user_screenshot db id)
unfolding update_user_screenshot update_user_column get_user_screenshot
get_user_screenshot-update_user_screenshot db user_id screenshot now id e = ground (
  arith,
  lookup-update_users (λ id _. id == user_id)
      (λ user. record user { screenshot = screenshot; modified_at = now }) db id,
)

-- A modified row is stored under its id and no other row changes. Its times are set by the
-- statement: the creation of a new row, and the last modification of any.
pub put_user_lem :
    (db : Db) (user_id : Text) (modifier : User → Result User) (now : ℕ) {db' : Db} {user : User}
    → put_user db user_id modifier now ≡ ok (db', user)
    → (id : Text)
    → (lookup id db'.users ≡ (if user_id == id then some user else lookup id db.users))
      × (user.modified_at ≡ now)
      × (lookup user_id db.users ≡ none → user.created_at ≡ now)
unfolding put_user
put_user_lem db user_id modifier now {db'} {user} e id =
    ground (arith, lookup-insert user_id id user db.users)

-- A report leaves the rows of the other users alone.
pub update_user_column_other :
    (set : User → User) (db : Db) (user_id : Text) (now : ℕ) (id : Text) {db' : Db}
    → id ≢ user_id
    → update_user_column set db user_id now ≡ ok db'
    → lookup id db'.users ≡ lookup id db.users
unfolding update_user_column
update_user_column_other set db user_id now id other e = ground (
  arith,
  lookup-update_users (λ id _. id == user_id) (λ user. record (set user) { modified_at = now }) db
      id,
)

-- A report leaves the rows of the nodes alone.
pub update_user_column_nodes :
    (set : User → User) (db : Db) (user_id : Text) (now : ℕ) {db' : Db}
    → update_user_column set db user_id now ≡ ok db'
    → db'.nodes ≡ db.nodes
unfolding update_user_column update_users
update_user_column_nodes set db user_id now e = ground arith
