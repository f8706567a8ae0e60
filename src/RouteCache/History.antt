-- ===== src/RouteCache/History.antt =====
-- gateway/routecache.go against a cache that forgets nothing: the answers are those of the history.
use gatewaysshd.Common.{
  ℕ, ◌+◌, ◌≤◌, ◌<◌, ◌≡◌, Option, none, some, Text, ltb, if◌then◌else◌, length, arith, ◌==◌,
  text_key, ◌≢◌, List, [], ◌∷◌, Bool-cases, Option-cases, inl, inr,
}
use gatewaysshd.Common.Dict.{
  Dict, retain, lookup, lookup-insert, lookup-delete, lookup-retain_keeps,
}
use gatewaysshd.RouteCache.{
  RouteCache, RouteCacheEntry, route_cache_max_entries, route_cache_time_to_live, new_route_cache,
  get, invalidate, make_room, put,
}
use gatewaysshd.RouteCache.Bounds.{
  IsBounded, new_route_cache-IsBounded, put-IsBounded, invalidate-IsBounded, make_room_sound, fresh,
}

-- The calls that change the cache, with the clock readings of each.
pub data Call : Type 0 where
  puts : Text → Text → ℕ → ℕ → Call
  invalidates : Text → Call

unfoldable pub step : RouteCache → Call → RouteCache
step self (puts user_id node_id now stamp) = put self user_id node_id now stamp
step self (invalidates user_id) = invalidate self user_id

-- The latest call comes first.
unfoldable pub run : List Call → RouteCache
run [] = new_route_cache
run (call ∷ earlier) = step (run earlier) call

-- What a cache of unlimited size and lifetime would hold: the last route stored for the user, if
-- it was not invalidated since, with the time at which it was stored.
unfoldable pub recall : Text → List Call → Option (Text × ℕ)
recall user_id [] = none
recall user_id (puts user node_id now stamp ∷ earlier) =
    if user == user_id then some (node_id, stamp) else recall user_id earlier
recall user_id (invalidates user ∷ earlier) =
    if user == user_id then none else recall user_id earlier

run-IsBounded : (calls : List Call) → IsBounded (run calls)
unfolding run step
run-IsBounded [] = new_route_cache-IsBounded
run-IsBounded (puts user_id node_id now stamp ∷ earlier) =
    put-IsBounded (run earlier) user_id node_id now stamp (run-IsBounded earlier)
run-IsBounded (invalidates user_id ∷ earlier) =
    invalidate-IsBounded (run earlier) user_id (run-IsBounded earlier)

lookup-put :
    (self : RouteCache) (user_id node_id : Text) (now stamp : ℕ) (user : Text)
    → lookup user (put self user_id node_id now stamp).entries ≡ (
        if user_id == user
        then some (record { node_id = node_id; expires_at = stamp + route_cache_time_to_live })
        else lookup user (make_room self.entries now))
unfolding put
lookup-put self user_id node_id now stamp user = lookup-insert user_id user _ _

lookup-invalidate :
    (self : RouteCache) (user_id user : Text)
    → lookup user (invalidate self user_id).entries
      ≡ (if user_id == user then none else lookup user self.entries)
unfolding invalidate
lookup-invalidate self user_id user = lookup-delete user_id user self.entries

new_route_cache-empty :
    (user_id : Text) {entry : RouteCacheEntry} → lookup user_id new_route_cache.entries ≢ some entry
unfolding new_route_cache lookup
new_route_cache-empty user_id = λ e. cc

make_room_idle :
    (entries : Dict Text RouteCacheEntry) (now : ℕ)
    → length entries < route_cache_max_entries
    → make_room entries now ≡ entries
unfolding make_room
make_room_idle entries now h = ground arith

held-recall :
    (calls : List Call) (user_id : Text) {entry : RouteCacheEntry}
    → lookup user_id (run calls).entries ≡ some entry
    → (stamp : ℕ) × (recall user_id calls ≡ some (entry.node_id, stamp))
      × (entry.expires_at ≡ stamp + route_cache_time_to_live)
unfolding run step recall
held-recall [] user_id h = absurd (new_route_cache-empty user_id h)
held-recall (puts user node_id now stamp ∷ earlier) user_id {entry} h =
    let stored = lookup-put (run earlier) user node_id now stamp user_id in
    elim (Bool-cases (user == user_id)) [
      | inl hit ↦ (stamp, ground arith, ground arith)
      | inr miss ↦ rw miss (
          held-recall earlier user_id {entry = entry} (
            make_room_sound (run earlier).entries now user_id (run-IsBounded earlier).distinct
              (ground arith)))
    ]
held-recall (invalidates user ∷ earlier) user_id {entry} h =
    let left = lookup-invalidate (run earlier) user user_id in
    elim (Bool-cases (user == user_id)) [
      | inl hit ↦ absurd (ground arith)
      | inr miss ↦ rw miss (held-recall earlier user_id {entry = entry} (ground arith))
    ]

-- An answer of the cache is the last route stored for the user, not invalidated since and not
-- older than its time to live, after any history of calls.
pub get-run_sound :
    (calls : List Call) (user_id : Text) (now : ℕ) {node_id : Text}
    → get (run calls) user_id now ≡ some node_id
    → (stamp : ℕ) × (recall user_id calls ≡ some (node_id, stamp))
      × (now ≤ stamp + route_cache_time_to_live)
unfolding get
get-run_sound calls user_id now {node_id} h =
    elim (Option-cases (lookup user_id (run calls).entries)) [
      | inl miss ↦ absurd (ground arith)
      | inr (entry, hit) ↦
          let (stamp, e, expiry) = held-recall calls user_id {entry = entry} hit in
          (stamp, ground arith, ground arith)
    ]

-- A stored route is found until its time to live is over, and not after. While the cache has
-- room, the routes of the other users are what they were.
pub get-put :
    (self : RouteCache) (user_id node_id : Text) (now stamp : ℕ) (user : Text) (later : ℕ)
    → length self.entries < route_cache_max_entries
    → get (put self user_id node_id now stamp) user later ≡ (
        if user_id == user
        then (if ltb (stamp + route_cache_time_to_live) later then none else some node_id)
        else get self user later)
unfolding get
get-put self user_id node_id now stamp user later room =
    ground (arith, lookup-put self user_id node_id now stamp user, make_room_idle self.entries now)

-- Storing a route keeps every fresh route of another user, however full the cache is, as long as
-- the fresh routes do not take every slot.
pub get-put_full :
    (self : RouteCache) (user_id node_id : Text) (now stamp : ℕ) (user : Text) {node : Text}
    → user_id ≢ user
    → length (retain (fresh now) self.entries) < route_cache_max_entries
    → get self user now ≡ some node
    → get (put self user_id node_id now stamp) user now ≡ some node
unfolding get make_room
get-put_full self user_id node_id now stamp user {node} other room h =
    elim (Option-cases (lookup user self.entries)) [
      | inl miss ↦ absurd (ground arith)
      | inr (entry, hit) ↦ ground (
        arith,
        lookup-put self user_id node_id now stamp user,
        lookup-retain_keeps (fresh now) user {v = entry} self.entries hit,
      )
    ]

-- An invalidated route is gone, and no other route changes.
pub get-invalidate :
    (self : RouteCache) (user_id user : Text) (now : ℕ)
    → get (invalidate self user_id) user now ≡ (if user_id == user then none else get self user now)
unfolding get
get-invalidate self user_id user now = ground (arith, lookup-invalidate self user_id user)
