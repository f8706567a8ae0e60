-- ===== src/Db/Login.antt =====
-- The login statement of db/users.go.
use gatewaysshd.Common.{refl, ℕ, ◌≡◌, false, none, some, Text, ◌==◌, text_key, if◌then◌else◌, arith}
use gatewaysshd.Common.Dict.{lookup, lookup-insert}
use gatewaysshd.Db.{
  User, Db, login_row, login_update, logged_in, list_columns, upsert_user_on_connect,
}

-- A login stores the row, returns its light columns, and leaves every other row as it was.
pub upsert_user_on_connect_lem :
    (db : Db) (user_id ip location node_id : Text) (now : ℕ) (id : Text)
    → let after = upsert_user_on_connect db user_id ip location node_id now in
      let user = logged_in db user_id ip location node_id now in
      (lookup id after.0.users ≡ (if user_id == id then some user else lookup id db.users))
      × (after.1 ≡ list_columns user)
unfolding upsert_user_on_connect
upsert_user_on_connect_lem db user_id ip location node_id now id =
    (lookup-insert user_id id _ _, refl)

-- A login grants nothing: in the stored row of a known user the flags, the comment and the reports
-- stay. A disabled user gets no presence, and any other user is online on the node now.
pub upsert_user_on_connect_known :
    (db : Db) (user_id ip location node_id : Text) (now : ℕ) (old : User)
    → lookup user_id db.users ≡ some old
    → (user : User) × (lookup user_id
          (upsert_user_on_connect db user_id ip location node_id now).0.users
        ≡ some user)
      × (user.administrator ≡ old.administrator)
      × (user.disabled ≡ old.disabled)
      × (user.comment ≡ old.comment)
      × (user.status ≡ old.status)
      × (user.screenshot ≡ old.screenshot)
      × (user.created_at ≡ old.created_at)
      × (user.node_id ≡ (if old.disabled then old.node_id else node_id))
      × (user.online_at ≡ (if old.disabled then old.online_at else now))
unfolding upsert_user_on_connect login_update logged_in
upsert_user_on_connect_known db user_id ip location node_id now old e =
    let stored = upsert_user_on_connect_lem db user_id ip location node_id now user_id in
    let user = login_update ip location node_id now old in
    let row : logged_in db user_id ip location node_id now ≡ user = ground (arith, e) in
    (user, ground (arith, stored, row), refl, refl, refl, refl, refl, refl, refl, refl)

-- An unknown user is created with no rights, enabled, and online on the node.
pub upsert_user_on_connect_new :
    (db : Db) (user_id ip location node_id : Text) (now : ℕ)
    → lookup user_id db.users ≡ none
    → let user = (upsert_user_on_connect db user_id ip location node_id now).1 in
      (user.administrator ≡ false)
      × (user.disabled ≡ false)
      × (user.node_id ≡ node_id)
      × (user.online_at ≡ now)
unfolding upsert_user_on_connect login_row logged_in
upsert_user_on_connect_new db user_id ip location node_id now e = ground arith
