-- ===== src/Connection.antt =====
-- gateway/connection.go: a ssh connection, with the services that it advertises and its tunnels.
-- A pointer to a tunnel is a number.
pub mod Services
pub mod Tunnels
pub mod Requests
pub mod Usage
pub mod Status
use gatewaysshd.Common.{
  ℕ, ◌+◌, ◌%◌, ◌^◌, Bool, true, false, not, List, [], ◌∷◌, Option, none, some, Text, ◌==◌, text_key,
  nat_key, if◌then◌else◌, select,
}
use gatewaysshd.Common.Dict.{Dict, lookup, insert, delete}
use gatewaysshd.Errors.{Result, ok, err, service_already_registered}

pub record Tunnel : Type 0 where
  pub pointer : ℕ
  pub channel_type : Text

pub record Connection : Type 0 where
  pub user : Text
  -- set on an inbound connection from a peer node
  pub node_id : Text
  pub remote_address : Text
  pub permit_port_forwarding : Bool
  pub administrator : Bool
  pub tunnels : List Tunnel
  pub tunnels_opened : ℕ
  pub tunnels_closed : ℕ
  pub services : Dict Text (Dict ℕ Bool)
  -- whether `done` is closed
  pub closed : Bool

-- A peer connection is one that carries the identity of a node.
abbrev pub is_peer : Connection → Bool
is_peer self = not (self.node_id == [])

-- A map's zero value stands for a missing key.
abbrev pub or_false : Option Bool → Bool
or_false none = false
or_false (some b) = b

unfoldable pub lookup_service : Connection → Text → ℕ → Bool
lookup_service self host port = elim (lookup host self.services) [
  | none ↦ false
  | some ports ↦ or_false (lookup port ports)
]

abbrev pub ports_of : Connection → Text → Dict ℕ Bool
ports_of self host = elim (lookup host self.services) [ none ↦ [] | some ports ↦ ports ]

unfoldable pub register_service : Connection → Text → ℕ → Connection × Result (Unit {0})
register_service self host port =
    let ports = ports_of self host in
    if or_false (lookup port ports)
    then (
      record self { services = insert host ports self.services },
      err service_already_registered,
    )
    else (record self { services = insert host (insert port true ports) self.services }, ok tt)

unfoldable pub deregister_service : Connection → Text → ℕ → Connection
deregister_service self host port = elim (lookup host self.services) [
  | none ↦ self
  | some ports ↦ record self { services = insert host (delete port ports) self.services }
]

-- The counters are uint64.
abbrev pub uint64 : ℕ → ℕ
uint64 n = n % 2 ^ 64

unfoldable pub add_tunnel : Connection → Tunnel → Connection
add_tunnel self opened = record self {
  tunnels = opened ∷ self.tunnels;
  tunnels_opened = uint64 (self.tunnels_opened + 1);
}

unfoldable pub delete_tunnel : Connection → Tunnel → Connection
delete_tunnel self closed = record self {
  tunnels = select (λ tunnel. not (tunnel.pointer == closed.pointer)) self.tunnels;
  tunnels_closed = uint64 (self.tunnels_closed + 1);
}
