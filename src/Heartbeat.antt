-- ===== src/Heartbeat.antt =====
-- The online heartbeat of gateway/gateway.go, over the tables of Db. A beat takes the registry three
-- times: as the batch is read, as it is read again, and as each user is released. No other statement
-- comes between those of a beat.
pub mod Release
pub mod Online
use gatewaysshd.Common.{
  ℕ, ◌-◌, ◌*◌, Bool, true, false, not, ◌&&◌, ◌||◌, List, [], ◌∷◌, Option, none, some, Text, ◌==◌,
  text_key, nat_key, if◌then◌else◌, ltb, length, select,
}
use gatewaysshd.Common.Dict.{Dict, lookup, retain, map_values}
use gatewaysshd.RouteCache.{second}
use gatewaysshd.Gateway.{Gateway, connections_of, connected_user_ids}
use gatewaysshd.Db.{
  User, Db, is_in, list_users, list_online_users, get_users, mark_users_online, clear_user_node_id,
}

abbrev pub online_heartbeat_interval : ℕ
online_heartbeat_interval = 30 * second

abbrev pub online_stale_threshold : ℕ
online_stale_threshold = 90 * second

-- The zero time is the time 0. A heartbeat of the future counts as fresh.
unfoldable pub is_heartbeat_fresh : ℕ → ℕ → Bool
is_heartbeat_fresh now online_at =
    not (online_at == 0) && ltb (now - online_at) online_stale_threshold

unfoldable pub is_user_online : ℕ → User → Bool
unfolding is_heartbeat_fresh
is_user_online now user = is_heartbeat_fresh now user.online_at

-- The users of ListUsers, each with its field Online.
unfoldable pub list_users_online : Gateway → Db → ℕ → Dict Text (User × Bool)
list_users_online self db now =
    let connected = connected_user_ids self in
    map_values (λ id user. (user, is_in id connected || is_user_online now user)) (list_users db)

-- The users of ListOnlineUsers.
unfoldable pub list_online : Db → ℕ → Dict Text User
list_online db now = list_online_users db (now - online_stale_threshold)

-- The users of ListLocalOnlineUsers; no user needs no query.
unfoldable pub list_local_online : Gateway → Db → Dict Text User
list_local_online self db = get_users db (connected_user_ids self)

-- `remaining` is the registry as the lock is taken, `db` the tables as the statement reaches them, if
-- it does: its error is only logged.
unfoldable pub release_user_node : Text → Bool → Gateway → Db → Text → ℕ → Db
release_user_node node_id reachable remaining db user_id now =
    if node_id == [] || user_id == []
    then db
    else if ltb 0 (length (connections_of remaining user_id))
    then db
    else if reachable
    then clear_user_node_id db user_id node_id now
    else db

-- `reaches` says for which users the statement of the release reaches the database, and `remaining`
-- is the registry as the release of a user takes the lock.
unfoldable pub release_all :
    Text → (Text → Bool) → (Text → Gateway) → List Text → Db → List Text → ℕ → Db
release_all node_id reaches remaining still_connected db [] now = db
release_all node_id reaches remaining still_connected db (user_id ∷ user_ids) now =
    release_all node_id reaches remaining still_connected
      (if is_in user_id still_connected
        then db
        else release_user_node node_id (reaches user_id) (remaining user_id) db user_id now)
      user_ids now

-- One round of runOnlineHeartbeat, whose first statement reaches the database or not.
unfoldable pub beat :
    Text → Bool → (Text → Bool) → Gateway → Gateway → (Text → Gateway) → Db → ℕ → Db
beat node_id reachable reaches before after remaining db now =
    let user_ids = connected_user_ids before in
    if length user_ids == 0
    then db
    else if reachable
    then release_all node_id reaches remaining (connected_user_ids after)
        (mark_users_online db user_ids node_id online_stale_threshold now) user_ids now
    else db
