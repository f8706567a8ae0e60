-- ===== src/Tests.antt =====
-- A small node, on which the tests below this module run: the user alice is connected and exposes
-- the service web, and the node n2 is a peer.
mod Registry
mod Tunnels
mod Logins
mod Routes
mod Presence
mod Sessions
mod Forwarding
mod Proxy
mod Upgrades
mod Starts
mod Lives
mod Pages
mod Nodes
mod Closings
mod Runs
mod Dials
mod Pairs
mod Services
use gatewaysshd.Common.{
  ℕ, ◌*◌, Bool, true, false, List, [], ◌∷◌, Option, none, some, Text, codes, text_discrete,
  ℕ_discrete,
}
use gatewaysshd.Common.Dict.{lookup, insert, delete, retain, map_values}
use gatewaysshd.Common.{split, join}
use gatewaysshd.Errors.{Result, ok}
use gatewaysshd.RouteCache
use gatewaysshd.RouteCache.{RouteCache, second}
use gatewaysshd.Connection.{
  Connection, lookup_service, register_service, deregister_service, add_tunnel, delete_tunnel,
}
use gatewaysshd.Gateway
use gatewaysshd.Gateway.{
  Gateway, connections_of, add_connection, delete_connection, users_in, connected_user_ids,
  lookup_connection_service, serve,
}
use gatewaysshd.Db.{
  User, Db, Node, zero_user, is_in, is_live_node, user_node_gone, beat_user, update_users,
  get_user_node_id,
}
use gatewaysshd.Mesh.{Peer, Mesh, get_peer, route_of}
use gatewaysshd.Auth
use gatewaysshd.Channels.{new_connection}

-- What the tests compute with.
unfoldable pub program : Unit {0}
unfolding text_discrete ℕ_discrete lookup insert delete retain map_values split join lookup_service
    register_service deregister_service add_tunnel delete_tunnel connections_of add_connection
    delete_connection users_in connected_user_ids lookup_connection_service serve is_in is_live_node
    user_node_gone beat_user update_users get_user_node_id get_peer route_of RouteCache.get
    RouteCache.put RouteCache.make_room RouteCache.invalidate new_connection
program = tt

abbrev pub alice : Text
alice = codes "alice"

abbrev pub bob : Text
bob = codes "bob"

abbrev pub web : Text
web = codes "web"

abbrev pub n1 : Text
n1 = codes "n1"

abbrev pub n2 : Text
n2 = codes "n2"

abbrev pub alices_connection : Connection
alices_connection = record {
  user = alice;
  node_id = [];
  remote_address = codes "192.0.2.7";
  permit_port_forwarding = true;
  administrator = false;
  tunnels = [];
  tunnels_opened = 0;
  tunnels_closed = 0;
  services = (web, (80, true) ∷ []) ∷ [];
  closed = false;
}

abbrev pub bobs_connection : Connection
bobs_connection = record alices_connection {
  user = bob;
  permit_port_forwarding = false;
  services = [];
}

abbrev pub empty_gateway : Gateway
empty_gateway = record {
  connections_index = [];
  connections_list = [];
  store = λ c. elim (ℕ_discrete c 7) [ yes _ ↦ alices_connection | no _ ↦ bobs_connection ];
}

-- Alice's connection is number 7.
abbrev pub gateway : Gateway
gateway = record empty_gateway {
  connections_index = (alice, 7 ∷ []) ∷ [];
  connections_list = 7 ∷ [];
}

abbrev pub peer_n2 : Peer
peer_n2 = record { pointer = 3; node_id = n2 }

abbrev pub mesh : Mesh
mesh = record { peers = (n2, peer_n2) ∷ []; routes = record { entries = [] } }

-- The database puts bob on the node n2, and does not know anyone else.
abbrev pub bob_on_n2 : Text → Result Text
bob_on_n2 user = elim (text_discrete user bob) [ yes _ ↦ ok n2 | no _ ↦ ok [] ]

abbrev pub bobs_row : User
bobs_row = record zero_user { node_id = n2; online_at = 100 * second }

abbrev pub db : Db
db = record {
  users = (bob, bobs_row) ∷ (alice, zero_user) ∷ [];
  nodes =
      (
        n2,
        record {
          created_at = 1;
          modified_at = 1;
          address = codes "n2:22";
          host_public_key = codes "key";
          online = true;
          online_at = 100 * second;
        },
      )
      ∷ [];
}
