-- ===== src/RouteCache/Bounds.antt =====
-- The bound of gateway/routecache.go, and what one `put` does to the entries.
use gatewaysshd.Common.{ℕ, ◌+◌, ◌≤◌, ◌<◌, ◌≡◌, Bool, some, Text, ltb, not, length, arith, text_key}
use gatewaysshd.Common.Dict.{
  Dict, Distinct, lookup, length-insert-le, length-delete-le, insert-Distinct, delete-Distinct,
  retain-Distinct, lookup-retain_sound,
}
use gatewaysshd.RouteCache.{
  RouteCache, RouteCacheEntry, route_cache_max_entries, route_cache_time_to_live, new_route_cache,
  invalidate, make_room, put,
}

pub record IsBounded (self : RouteCache) : Type 0 where
  pub size : length self.entries ≤ route_cache_max_entries
  pub distinct : Distinct self.entries

pub new_route_cache-IsBounded : IsBounded new_route_cache
unfolding new_route_cache
new_route_cache-IsBounded = record { size = omega arith; distinct = tt }

-- What the sweep keeps.
abbrev pub fresh : ℕ → Text → RouteCacheEntry → Bool
fresh now _ entry = not (ltb entry.expires_at now)

length-make_room-lt :
    (entries : Dict Text RouteCacheEntry) (now : ℕ)
    → length (make_room entries now) < route_cache_max_entries
unfolding make_room
length-make_room-lt entries now = ground arith

make_room-Distinct :
    (entries : Dict Text RouteCacheEntry) (now : ℕ)
    → Distinct entries
    → Distinct (make_room entries now)
unfolding make_room
make_room-Distinct entries now d = ground (arith, retain-Distinct (fresh now) entries d)

-- An entry that a full cache keeps was there before.
pub make_room_sound :
    (entries : Dict Text RouteCacheEntry) (now : ℕ) (user_id : Text) {entry : RouteCacheEntry}
    → Distinct entries
    → lookup user_id (make_room entries now) ≡ some entry
    → lookup user_id entries ≡ some entry
unfolding make_room lookup
make_room_sound entries now user_id {entry} d h =
    ground (arith, lookup-retain_sound (fresh now) user_id {v = entry} entries d)

-- Storing a route never lets the cache outgrow its limit or hold a user twice.
pub put-IsBounded :
    (self : RouteCache) (user_id node_id : Text) (now stamp : ℕ)
    → IsBounded self
    → IsBounded (put self user_id node_id now stamp)
unfolding put
put-IsBounded self user_id node_id now stamp v = record {
  size = omega (
    arith,
    length-make_room-lt self.entries now,
    length-insert-le user_id
        (record { node_id = node_id; expires_at = stamp + route_cache_time_to_live })
        (make_room self.entries now),
  );
  distinct = insert-Distinct user_id _ _ (make_room-Distinct self.entries now v.distinct);
}

-- Nor does invalidating one.
pub invalidate-IsBounded :
    (self : RouteCache) (user_id : Text) → IsBounded self → IsBounded (invalidate self user_id)
unfolding invalidate
invalidate-IsBounded self user_id v = record {
  size = omega (arith, length-delete-le user_id self.entries, v.size);
  distinct = delete-Distinct user_id self.entries v.distinct;
}
