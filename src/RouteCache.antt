-- ===== src/RouteCache.antt =====
-- gateway/routecache.go: the bounded cache of mesh routes. The clock is an argument: `put` reads it
-- once for the sweep (`now`) and once for the new entry (`stamp`).
pub mod Bounds
pub mod History
use gatewaysshd.Common.{
  ℕ, ◌+◌, ◌*◌, ◌^◌, Bool, List, [], Option, none, some, Text, ltb, leb, if◌then◌else◌, not, length,
  text_key,
}
use gatewaysshd.Common.Dict.{Dict, lookup, insert, delete, retain}

abbrev pub second : ℕ
second = 10 ^ 9

abbrev pub route_cache_time_to_live : ℕ
route_cache_time_to_live = 15 * second

abbrev pub route_cache_max_entries : ℕ
route_cache_max_entries = 4096

pub record RouteCacheEntry : Type 0 where
  pub node_id : Text
  pub expires_at : ℕ

pub record RouteCache : Type 0 where
  pub entries : Dict Text RouteCacheEntry

unfoldable pub new_route_cache : RouteCache
new_route_cache = record { entries = [] }

-- The entry is usable unless `time.Now().After(entry.expiresAt)`.
unfoldable pub get : RouteCache → Text → ℕ → Option Text
get self user_id now = elim (lookup user_id self.entries) [
  | none ↦ none
  | some entry ↦ if ltb entry.expires_at now then none else some entry.node_id
]

unfoldable pub invalidate : RouteCache → Text → RouteCache
invalidate self user_id = record self { entries = delete user_id self.entries }

-- The sweep at a full cache: drop the expired entries, and all of them if that frees nothing.
unfoldable pub make_room : Dict Text RouteCacheEntry → ℕ → Dict Text RouteCacheEntry
make_room entries now =
    if leb route_cache_max_entries (length entries)
    then (let kept = retain (λ _ entry. not (ltb entry.expires_at now)) entries in
        if leb route_cache_max_entries (length kept) then [] else kept)
    else entries

unfoldable pub put : RouteCache → Text → Text → ℕ → ℕ → RouteCache
put self user_id node_id now stamp = record self {
  entries =
      insert user_id (record { node_id = node_id; expires_at = stamp + route_cache_time_to_live })
        (make_room self.entries now);
}
