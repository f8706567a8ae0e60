-- ===== src/Channels/Delivery.antt =====
-- gateway/connection.go and gateway/gateway.go: a tunnel reaches the service that it names.
use gatewaysshd.Common.{
  ℕ, ◌≤◌, ◌≡◌, ◌⊎◌, inl, inr, Bool, true, false, Option, none, Text, codes, text_key, nat_key,
  arith, Option-cases, Member,
}
use gatewaysshd.Errors.{ok}
use gatewaysshd.Connection.{Connection, is_peer, lookup_service}
use gatewaysshd.Gateway.{Gateway, connections_of, lookup_connection_service}
use gatewaysshd.Gateway.Lookup.{
  Names, lookup_connection_service_sound, lookup_connection_service_complete,
}
use gatewaysshd.Mesh.{Mesh, Peer, lookup_remote_peer}
use gatewaysshd.Mesh.Routing.{Leads, lookup_remote_peer_sound}
use gatewaysshd.Channels.{
  Environment, NewChannel, TunnelData, Bridge, to_connection, to_peer, accepts, handle_channel,
  handle_tunnel_channel, route_tunnel, unmarshal_tunnel_data, open_service_tunnel,
}

-- The connection serves what the host name asks of one of the users that it names.
abbrev pub Reaches : Gateway → Text → ℕ → ℕ → Text → Type 0
Reaches gateway host port found service =
    (user : Text) × Names host service user
    × Member found (connections_of gateway user)
    × (lookup_service (gateway.store found) service port ≡ true)

pub unmarshal_port :
    (unmarshal : Text → Option TunnelData) (payload : Text) {data' : TunnelData}
    → unmarshal_tunnel_data unmarshal payload ≡ ok data'
    → (data'.port ≤ 65535) × (data'.origin_port ≤ 65535)
unfolding unmarshal_tunnel_data
unmarshal_port unmarshal payload {data'} h = elim (Option-cases (unmarshal payload)) [
  | inl bad ↦ absurd (ground arith)
  | inr (d, good) ↦ ground arith
]

pub route_tunnel_delivers :
    (env : Environment) (self : Connection) (gateway : Gateway) (mesh : Mesh) (data' : TunnelData)
    (service user : Text) (c : ℕ)
    → env.can_accept ≡ true
    → data'.port ≤ 65535
    → Names data'.host service user
    → Member c (connections_of gateway user)
    → lookup_service (gateway.store c) service data'.port ≡ true
    → (found : ℕ) × (host : Text) × (route_tunnel env self gateway mesh data'
        ≡ (mesh, accepts (to_connection found (record data' { host = host }))))
      × Reaches gateway data'.host data'.port found host
unfolding route_tunnel
route_tunnel_delivers env self gateway mesh data' service user c a bound n held served =
    elim (Option-cases (lookup_connection_service gateway data'.host data'.port)) [
      | inl missed ↦ absurd (
          lookup_connection_service_complete gateway data'.host data'.port service user c n held
            served missed)
      | inr ((found, host), hit) ↦ (
        found,
        host,
        ground arith,
        lookup_connection_service_sound gateway data'.host data'.port hit,
      )
    ]

-- A user who may forward ports and asks for a service that a connection of this node serves is
-- connected to one that serves it, under the name that it knows the service by, at the port asked
-- for and with the origin given, if the channel can be accepted.
pub handle_channel_delivers :
    (env : Environment) (self : Connection) (gateway : Gateway) (mesh : Mesh) (channel : NewChannel)
    (data' : TunnelData) (service user : Text) (c : ℕ)
    → channel.channel_type ≡ codes "direct-tcpip"
    → env.can_accept ≡ true
    → unmarshal_tunnel_data env.unmarshal channel.extra_data ≡ ok data'
    → self.permit_port_forwarding ≡ true
    → is_peer self ≡ false
    → Names data'.host service user
    → Member c (connections_of gateway user)
    → lookup_service (gateway.store c) service data'.port ≡ true
    → (found : ℕ) × (host : Text) × (handle_channel env self gateway mesh channel
        ≡ (mesh, accepts (to_connection found (record data' { host = host }))))
      × Reaches gateway data'.host data'.port found host
unfolding handle_channel handle_tunnel_channel
handle_channel_delivers env self gateway mesh channel data' service user c t a u permitted named n
      held served =
    let bound = unmarshal_port env.unmarshal channel.extra_data {data' = data'} u in
    let (found, host, routed, reached) =
      route_tunnel_delivers env self gateway mesh data' service user c a bound.0 n held served in
    (found, host, ground (arith, routed), reached)

-- A proxy's client that is let through is connected to a connection that serves the name, or, where
-- none does, to the peer of a node where a user that it names is.
pub open_service_tunnel_sound :
    (env : Environment) (opens : Bridge → Bool) (gateway : Gateway) (mesh : Mesh)
    (data' : TunnelData) {bridge : Bridge}
    → (open_service_tunnel env opens gateway mesh data').1 ≡ ok bridge
    → ((found : ℕ) × (host : Text) × (bridge ≡ to_connection found (record data' { host = host }))
        × Reaches gateway data'.host data'.port found host)
      ⊎ ((lookup_connection_service gateway data'.host data'.port ≡ none)
          × ((peer : Peer) × (bridge ≡ to_peer peer data')
              × ((user service : Text) × Names data'.host service user
                  × ((node : Text) × Leads env.node_id env.query env.now mesh user node peer))))
unfolding open_service_tunnel
open_service_tunnel_sound env opens gateway mesh data' {bridge} h =
    elim (Option-cases (lookup_connection_service gateway data'.host data'.port)) [
      | inr ((found, host), hit) ↦ inl (
        found,
        host,
        ground arith,
        lookup_connection_service_sound gateway data'.host data'.port hit,
      )
      | inl missed ↦
          elim (Option-cases (lookup_remote_peer env.node_id env.query env.now mesh data'.host).1) [
            | inl nowhere ↦ absurd (ground arith)
            | inr (peer, led) ↦ inr (
              missed,
              (
                peer,
                ground arith,
                lookup_remote_peer_sound env.node_id env.query env.now mesh data'.host peer led,
              ),
            )
          ]
    ]
