-- ===== src/Heartbeat/Online.antt =====
-- Two ways to see who is online: in the program, and in the query.
use gatewaysshd.Common.{
  ℕ, ◌-◌, ◌≤◌, ◌≡◌, refl, ◌↔◌, ◌⊎◌, ◌≢◌, Member, Bool, true, ◌||◌, [], none, some, Text, text_key,
  nat_key, if◌then◌else◌, ltb, arith, Bool-cases, inl, inr,
}
use gatewaysshd.Common.Dict.{
  Distinct, lookup, retain, retain_all, map_values, lookup-retain, lookup-map_values,
}
use gatewaysshd.Db.{User, Db, list_online_users, list_users, select_users, list_columns, is_in}
use gatewaysshd.Db.Presence.{is_in_iff}
use gatewaysshd.Gateway.{Gateway, connected_user_ids}
use gatewaysshd.Gateway.Index.{IsIndexed, connected_user_ids_iff}
use gatewaysshd.Heartbeat.{is_user_online, list_online, online_stale_threshold, list_users_online}

query_agrees :
    (now : ℕ) (user : User)
    → online_stale_threshold ≤ now
    → ltb (now - online_stale_threshold) user.online_at ≡ is_user_online now user
unfolding is_user_online
query_agrees now user h = ground arith

or_true : (b : Bool) → (b || true) ≡ true
or_true b = ground arith

-- The query and the program agree: a user is listed as online exactly when the row's heartbeat is
-- fresh, if the clock stands at least the threshold past the zero time and no row is stored twice.
pub lookup-list_online :
    (db : Db) (now : ℕ) (user_id : Text) (user : User)
    → Distinct db.users
    → online_stale_threshold ≤ now
    → lookup user_id db.users ≡ some user
    → lookup user_id (list_online db now)
      ≡ (if is_user_online now user then some (list_columns user) else none)
unfolding list_online list_online_users select_users
lookup-list_online db now user_id user d h e =
    let fresh : Text → User → Bool = λ _ user. ltb (now - online_stale_threshold) user.online_at in
    ground (
      arith,
      query_agrees now user h,
      lookup-retain fresh user_id user db.users d e,
      lookup-map_values (λ (_ : Text) (user : User). list_columns user) user_id
          (retain fresh db.users),
    )

-- Where the index of connections equals the list, ListUsers shows each user of the table, as online
-- exactly if one of the user's connections is on this node or the row's heartbeat is fresh.
pub list_users_online_lem :
    (self : Gateway) (db : Db) (now : ℕ) (user_id : Text) (user : User)
    → IsIndexed self
    → lookup user_id db.users ≡ some user
    → (online : Bool) × (lookup user_id (list_users_online self db now)
        ≡ some (list_columns user, online))
      × ((online ≡ true) ↔ (
          ((user_id ≢ [])
            × ((c : ℕ) × Member c self.connections_list × ((self.store c).user ≡ user_id)))
          ⊎ (is_user_online now user ≡ true)))
unfolding list_users_online list_users select_users is_user_online
list_users_online_lem self db now user_id user v e =
    let local = is_in user_id (connected_user_ids self) in
    let connected = connected_user_ids_iff self user_id v in
    let agree = is_in_iff user_id (connected_user_ids self) in
    let shown : Text → User → User × Bool =
      λ id user. (user, is_in id (connected_user_ids self) || is_user_online now user) in
    let light : Text → User → User = λ _ user. list_columns user in
    (
      local || is_user_online now user,
      ground (
        arith,
        e,
        retain_all db.users,
        lookup-map_values shown user_id (map_values light (retain (λ _ _. true) db.users)),
        lookup-map_values light user_id (retain (λ _ _. true) db.users),
      ),
      (
        (λ h. elim (Bool-cases local) [
          | inl here ↦ inl (connected.0 (agree.0 here))
          | inr away ↦ inr (ground arith)
        ]),
        elim [
          | inl here ↦ rw (agree.1 (connected.1 here)) refl
          | inr beating ↦ rw beating (or_true local)
        ],
      ),
    )
