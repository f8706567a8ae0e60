-- ===== src/Mesh.antt =====
-- gateway/peer.go and the mesh routing of gateway/gateway.go: the peers of this node, and the search
-- for the node of a user. A pointer to a peer is a number; a lookup reads the clock once.
pub mod Peers
pub mod Routing
pub mod Routes
pub mod Discovery
pub mod Peering
pub mod Rounds
pub mod Dialing
use gatewaysshd.Common.{
  ℕ, Bool, true, false, not, ◌&&◌, ◌||◌, List, [], ◌∷◌, Option, none, some, Text, ◌==◌, text_key,
  nat_key, if◌then◌else◌, map,
}
use gatewaysshd.Common.Dict.{Dict, lookup, insert, delete}
use gatewaysshd.Errors.{Result, ok, err}
use gatewaysshd.RouteCache.{RouteCache}
use gatewaysshd.RouteCache
use gatewaysshd.Gateway.{user_at, part_indexes}

pub record Peer : Type 0 where
  pub pointer : ℕ
  pub node_id : Text

pub record Mesh : Type 0 where
  pub peers : Dict Text Peer
  pub routes : RouteCache

unfoldable pub get_peer : Mesh → Text → Option Peer
get_peer self node_id = lookup node_id self.peers

unfoldable pub add_peer : Mesh → Peer → Mesh × Bool
add_peer self peer = elim (lookup peer.node_id self.peers) [
  | none ↦ (record self { peers = insert peer.node_id peer self.peers }, true)
  | some _ ↦ (self, false)
]

-- The pointers are compared: a peer that has been replaced removes nothing.
unfoldable pub remove_peer : Mesh → Peer → Mesh
remove_peer self peer = elim (lookup peer.node_id self.peers) [
  | none ↦ self
  | some current ↦
      if current.pointer == peer.pointer
      then record self { peers = delete peer.node_id self.peers }
      else self
]

-- The users that a host name names, the whole of it first.
unfoldable pub candidates : Text → List Text
candidates host = map (user_at host) (part_indexes host)

-- One round of lookupRemotePeer. `query` is the answer of the database for a user. `none` means
-- that the loop goes on.
module _ (node_id : Text) (query : Text → Result Text) (now : ℕ) where
  -- The node of the user: the cached one, or the database's.
  unfoldable pub route_of : RouteCache → Text → Result Text
  route_of routes user = elim (RouteCache.get routes user now) [
    | some node ↦ ok node
    | none ↦ query user
  ]

  -- Only usable routes are remembered, and a cached one whose peer is gone is forgotten.
  unfoldable pub try_node : Mesh → Text → Text → Mesh × Option Peer
  try_node self user node =
      let cached = RouteCache.get self.routes user now in
      elim (get_peer self node) [
        | some peer ↦ (
          elim cached [
            | some _ ↦ self
            | none ↦ record self { routes = RouteCache.put self.routes user node now now }
          ],
          some peer,
        )
        | none ↦ (
          elim cached [
            | some _ ↦ record self { routes = RouteCache.invalidate self.routes user }
            | none ↦ self
          ],
          none,
        )
      ]

  unfoldable pub try_user : Mesh → Text → Mesh × Option Peer
  try_user self user = if user == [] then (self, none) else elim (route_of self.routes user) [
    | err _ ↦ (self, none)
    | ok node ↦ if node == [] || node == node_id then (self, none) else try_node self user node
  ]

  unfoldable pub find_peer : Mesh → List Text → Mesh × Option Peer
  find_peer self [] = (self, none)
  find_peer self (user ∷ users) =
      let tried = try_user self user in
      elim tried.1 [ some peer ↦ (tried.0, some peer) | none ↦ find_peer tried.0 users ]

  -- An empty node id disables the mesh.
  unfoldable pub lookup_remote_peer : Mesh → Text → Mesh × Option Peer
  lookup_remote_peer self host =
      if node_id == [] then (self, none) else find_peer self (candidates host)

unfoldable pub invalidate_users : RouteCache → List Text → RouteCache
invalidate_users routes [] = routes
invalidate_users routes (user ∷ users) =
    invalidate_users (if user == [] then routes else RouteCache.invalidate routes user) users

unfoldable pub invalidate_routes : Mesh → Text → Mesh
invalidate_routes self host = record self {
  routes = invalidate_users self.routes (candidates host);
}
