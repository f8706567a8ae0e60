-- ===== src/Gateway.antt =====
-- gateway/gateway.go: the registry of connections. A pointer to a connection is a number, and
-- `store` is the memory that it points into.
pub mod Index
pub mod Lookup
pub mod Kick
use gatewaysshd.Common.{
  ℕ, ◌+◌, ◌-◌, Bool, true, false, not, ◌||◌, List, [], ◌∷◌, ◌++◌, Option, none, some, Text, ◌==◌,
  text_key, nat_key, if◌then◌else◌, select, find_map, range, length, take, drop, split, join, ltb,
}
use gatewaysshd.Common.Dict.{Dict, lookup, insert}
use gatewaysshd.Connection.{Connection, lookup_service}

pub record Gateway : Type 0 where
  pub connections_index : Dict Text (List ℕ)
  pub connections_list : List ℕ
  pub store : ℕ → Connection

-- `self.connectionsIndex[user]`, which is nil for a missing user.
unfoldable pub connections_of : Gateway → Text → List ℕ
connections_of self user = elim (lookup user self.connections_index) [
  | none ↦ []
  | some connections ↦ connections
]

unfoldable pub add_connection : Gateway → ℕ → Gateway
add_connection self added =
    let user = (self.store added).user in
    record self {
      connections_index = insert user (added ∷ connections_of self user) self.connections_index;
      connections_list = added ∷ self.connections_list;
    }

unfoldable pub delete_connection : Gateway → ℕ → Gateway
delete_connection self deleted =
    let user = (self.store deleted).user in
    let keep = λ (connection : ℕ). not (connection == deleted) in
    record self {
      connections_index =
          insert user (select keep (connections_of self user)) self.connections_index;
      connections_list = select keep self.connections_list;
    }

abbrev is_empty {ℓ} : {A : Type ℓ} → List A → Bool
is_empty [] = true
is_empty (x ∷ xs) = false

unfoldable pub users_in : Dict Text (List ℕ) → List Text
users_in [] = []
users_in ((user_id, connections) ∷ index) =
    let rest = users_in index in
    if user_id == [] || is_empty connections then rest else user_id ∷ rest

unfoldable pub connected_user_ids : Gateway → List Text
unfolding users_in
connected_user_ids self = users_in self.connections_index

-- The connections of a `gatherStatus` report, of one user or, for an empty name, of all.
unfoldable pub status_connections : Gateway → Text → List ℕ
status_connections self user =
    select (λ connection. user == [] || (self.store connection).user == user) self.connections_list

abbrev pub write : (ℕ → Connection) → ℕ → Connection → ℕ → Connection
write store pointer connection p = if p == pointer then connection else store p

-- A method of a connection writes to it.
abbrev pub change_connection : ℕ → (Connection → Connection) → Gateway → Gateway
change_connection pointer change self = record self {
  store = write self.store pointer (change (self.store pointer));
}

-- `connection.close`, which closes the channel `done` once.
unfoldable pub close_connection : Gateway → ℕ → Gateway
close_connection self pointer = record self {
  store = write self.store pointer (record (self.store pointer) { closed = true });
}

-- The closes of a kick, where each of them returns.
unfoldable pub close_all : Gateway → List ℕ → Gateway
close_all self [] = self
close_all self (connection ∷ rest) = close_all (close_connection self connection) rest

-- Connections are closed one after another, and each close waits for the goroutines of its
-- connection: behind one that never returns, none is looked at any more. The Boolean says whether all
-- have returned.
unfoldable pub close_each : (ℕ → Bool) → Gateway → List ℕ → Gateway × Bool
close_each returns self [] = (self, true)
close_each returns self (connection ∷ rest) =
    let closed = close_connection self connection in
    let others = close_each returns closed rest in
    if returns connection then others else (closed, false)

-- `used_at` is the connection's last use and `now` the time as the loop looks at it. A connection idle
-- for longer than the timeout is closed.
unfoldable pub scavenge_connections : (ℕ → Bool) → (ℕ → ℕ) → (ℕ → ℕ) → Gateway → ℕ → Gateway × Bool
scavenge_connections returns used_at now self timeout =
    close_each returns self (
      select (λ connection. ltb timeout (now connection - used_at connection))
        self.connections_list)

-- `revoke` is the optional callback into the login cache `S`.
unfoldable pub kick_user {ℓ} :
    {S : Type ℓ} → Option (Text → S → S) → Gateway × S → Text → Gateway × S
kick_user {S = S} revoke (self, flags) user =
    let flags' : S = elim revoke [ none ↦ flags | some f ↦ f user flags ] in
    (
      close_all self
          (select (λ connection. (self.store connection).user == user) self.connections_list),
      flags',
    )

-- The two parts of a host name that is cut before the part number `index`.
abbrev pub dot : ℕ
dot = b'.'

abbrev pub host_at : Text → ℕ → Text
host_at host index = join dot (take index (split dot host))

abbrev pub user_at : Text → ℕ → Text
user_at host index = join dot (drop index (split dot host))

abbrev pub part_indexes : Text → List ℕ
part_indexes host = range (length (split dot host))

unfoldable pub serve : Gateway → Text → ℕ → ℕ → Option (ℕ × Text)
serve self host port connection =
    if lookup_service (self.store connection) host port then some (connection, host) else none

-- The connection that serves the host, with the host name that it knows.
unfoldable pub lookup_connection_service : Gateway → Text → ℕ → Option (ℕ × Text)
unfolding serve
lookup_connection_service self host port =
    find_map
      (λ index.
        find_map (serve self (host_at host index) port) (connections_of self (user_at host index)))
      (part_indexes host)
