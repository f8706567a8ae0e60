-- ===== src/Db/Presence.antt =====
-- The presence columns of db/users.go: who is online, and on which node.
use mathlib.Core.Option
use gatewaysshd.Common.{
  ℕ, ◌-◌, ◌≡◌, ◌≢◌, ◌↔◌, refl, sym, Member, ==_eq, ==_refl, Bool, true, ◌&&◌, List, [], ◌∷◌, some,
  Text, ◌==◌, text_key, if◌then◌else◌, arith, Bool-cases, inl, inr,
}
use gatewaysshd.Common.Dict.{lookup, lookup-map_values}
use gatewaysshd.Db.{
  User, Db, is_in, update_users, mark_users_online, clear_user_node_id, user_node_gone, beat_user,
  get_user_node_id,
}

pub lookup-update_users :
    (where' : Text → User → Bool) (set : User → User) (db : Db) (id : Text)
    → lookup id (update_users where' set db).users
      ≡ Option.map (λ user. if where' id user then set user else user) (lookup id db.users)
unfolding update_users
lookup-update_users where' set db id =
    lookup-map_values (λ id user. if where' id user then set user else user) id db.users

pub nodes-mark_users_online :
    (db : Db) (user_ids : List Text) (node_id : Text) (stale_after now : ℕ)
    → (mark_users_online db user_ids node_id stale_after now).nodes ≡ db.nodes
unfolding mark_users_online update_users
nodes-mark_users_online db user_ids node_id stale_after now = ground arith

-- A beat of a node in the mesh marks the users of its batch online. It takes over those of them
-- whose own node is gone, leaves the others on their node, and leaves every other row as it was.
pub mark_users_online_lem :
    (db : Db) (user_ids : List Text) (node_id : Text) (stale_after now : ℕ) (id : Text)
    (user : User)
    → node_id ≢ []
    → lookup id db.users ≡ some user
    → lookup id (mark_users_online db user_ids node_id stale_after now).users
      ≡ some (
          if is_in id user_ids
          then (record user {
            online_at = now;
            modified_at =
                if user_node_gone db (now - stale_after) user then now else user.modified_at;
            node_id = if user_node_gone db (now - stale_after) user then node_id else user.node_id;
          })
          else user)
unfolding mark_users_online beat_user
mark_users_online_lem db user_ids node_id stale_after now id user mesh e = ground (
  arith,
  lookup-update_users (λ id _. is_in id user_ids) (beat_user db node_id (now - stale_after) now) db
      id,
)

-- A release takes the user off the node it names, and moves no user of another node.
pub node-clear_user_node_id :
    (db : Db) (user_id node_id : Text) (now : ℕ) (id : Text)
    → get_user_node_id (clear_user_node_id db user_id node_id now) id ≡ (
        if (id == user_id) && (get_user_node_id db id == node_id)
        then []
        else get_user_node_id db id)
unfolding clear_user_node_id get_user_node_id
node-clear_user_node_id db user_id node_id now id = ground (
  arith,
  lookup-update_users (λ id user. id == user_id && user.node_id == node_id)
      (λ user. record user { node_id = []; modified_at = now }) db id,
)

pub is_in_iff : (id : Text) (ids : List Text) → (is_in id ids ≡ true) ↔ Member id ids
unfolding is_in
is_in_iff id [] = ((λ h. cc), (λ m. absurd m))
is_in_iff id (x ∷ xs) =
    let rest = is_in_iff id xs in
    (
      (λ h. elim (Bool-cases (x == id)) [
        | inl hit ↦ inl (sym (==_eq x id hit))
        | inr miss ↦ inr (rest.0 (ground arith))
      ]),
      elim [ inl e ↦ rw (e, ==_refl x) refl | inr m ↦ ground (arith, rest.1 m) ],
    )
