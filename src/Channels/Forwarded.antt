-- ===== src/Channels/Forwarded.antt =====
-- gateway/connection.go, handleTunnelChannel, with gateway/utils.go and db/ssh.go: what a node sends to
-- the other end of a tunnel, and what the node that it is sent to does with it. `marshal` stands for
-- ssh.Marshal of the tunnel data, and the field `unmarshal` of the other node for ssh.Unmarshal.
use gatewaysshd.Common.{
  ℕ, ◌≤◌, ◌≡◌, ◌≢◌, ◌∙◌, refl, subst, inl, inr, true, false, ◌&&◌, Option, none, some, [], Text,
  codes, ◌==◌, text_key, nat_key, if◌then◌else◌, arith, Member, text_discrete, ℕ_discrete,
}
use gatewaysshd.Errors.{ok, Result-cases, permission_denied, ssh_failed}
use gatewaysshd.Connection.{Connection, is_peer, lookup_service}
use gatewaysshd.Gateway.{Gateway, connections_of}
use gatewaysshd.Gateway.Lookup.{Names}
use gatewaysshd.Mesh.{Mesh, Peer}
use gatewaysshd.Channels.{
  Environment, NewChannel, TunnelData, Bridge, postgres, to_connection, to_peer, accepts, fails,
  handle_channel, handle_tunnel_channel, route_tunnel, route_remote, unmarshal_tunnel_data,
  handle_postgres_channel, handle_session_channel,
}
use gatewaysshd.Channels.Safety.{IsSafe, handle_channel-IsSafe}
use gatewaysshd.Channels.Delivery.{Reaches, unmarshal_port, route_tunnel_delivers}

-- target.openTunnel: the channel that is asked for at the other end, if there is one.
module _ (marshal : TunnelData → Text) where
  unfoldable pub opened_channel : Bridge → Option NewChannel
  opened_channel (to_peer peer data') =
      some (record { channel_type = codes "direct-tcpip"; extra_data = marshal data' })
  opened_channel (to_connection c data') =
      some (record { channel_type = codes "forwarded-tcpip"; extra_data = marshal data' })
  opened_channel bridge = none

-- dialPostgresViaPeer: the channel that a node asks a peer for to reach the database.
abbrev pub postgres_data : TunnelData
postgres_data = record {
  host = codes "postgres";
  port = 5432;
  origin_address = codes "localhost";
  origin_port = 0;
}

unfoldable pub dial_postgres_via_peer : (TunnelData → Text) → NewChannel
dial_postgres_via_peer marshal = record {
  channel_type = codes "direct-tcpip";
  extra_data = marshal postgres_data;
}

-- ssh.Unmarshal reads what ssh.Marshal wrote of ports that fit.
abbrev pub Reads : (TunnelData → Text) → Environment → Type 0
Reads marshal env =
    (data' : TunnelData)
    → data'.port ≤ 65535
    → data'.origin_port ≤ 65535
    → env.unmarshal (marshal data') ≡ some data'

unmarshal-marshal :
    (marshal : TunnelData → Text) (env : Environment) (data' : TunnelData)
    → Reads marshal env
    → data'.port ≤ 65535
    → data'.origin_port ≤ 65535
    → unmarshal_tunnel_data env.unmarshal (marshal data') ≡ ok data'
unfolding unmarshal_tunnel_data
unmarshal-marshal marshal env data' law low low_origin = ground (arith, law data' low low_origin)

-- A channel that goes to a peer is a user's, and what is sent there is what the user asked for.
route_tunnel-to_peer :
    (env : Environment) (self : Connection) (gateway : Gateway) (mesh : Mesh)
    (data' sent : TunnelData) (peer : Peer)
    → (route_tunnel env self gateway mesh data').1 ≡ accepts (to_peer peer sent)
    → sent ≡ data'
unfolding route_tunnel route_remote
route_tunnel-to_peer env self gateway mesh data' sent peer h = ground arith

handle_channel-to_peer :
    (env : Environment) (self : Connection) (gateway : Gateway) (mesh : Mesh) (channel : NewChannel)
    (peer : Peer) (sent : TunnelData)
    → (handle_channel env self gateway mesh channel).1 ≡ accepts (to_peer peer sent)
    → unmarshal_tunnel_data env.unmarshal channel.extra_data ≡ ok sent
unfolding handle_channel handle_tunnel_channel handle_postgres_channel handle_session_channel
handle_channel-to_peer env self gateway mesh channel peer sent h =
    elim (Result-cases (unmarshal_tunnel_data env.unmarshal channel.extra_data)) [
      | inl (e, bad) ↦ absurd (ground arith)
      | inr (data', good) ↦
          ground (arith, route_tunnel-to_peer env self gateway mesh data' sent peer)
    ]

-- A peer's connection asks for a tunnel that is not one to the database.
handle_channel-peer :
    (env : Environment) (self : Connection) (gateway : Gateway) (mesh : Mesh) (payload : Text)
    (data' : TunnelData)
    → is_peer self ≡ true
    → unmarshal_tunnel_data env.unmarshal payload ≡ ok data'
    → ((data'.host == codes "postgres") && (data'.port == 5432)) ≡ false
    → handle_channel env self gateway mesh
        (record { channel_type = codes "direct-tcpip"; extra_data = payload })
      ≡ route_tunnel env self gateway mesh data'
unfolding handle_channel handle_tunnel_channel text_discrete ℕ_discrete
handle_channel-peer env self gateway mesh payload data' peer good other = ground arith

-- A peer's connection asks for a tunnel to the database.
handle_channel-postgres :
    (env : Environment) (self : Connection) (gateway : Gateway) (mesh : Mesh) (payload : Text)
    (data' : TunnelData)
    → is_peer self ≡ true
    → unmarshal_tunnel_data env.unmarshal payload ≡ ok data'
    → data'.host ≡ codes "postgres"
    → data'.port ≡ 5432
    → handle_channel env self gateway mesh
        (record { channel_type = codes "direct-tcpip"; extra_data = payload })
      ≡ (mesh, handle_postgres_channel env self)
unfolding handle_channel handle_tunnel_channel text_discrete ℕ_discrete
handle_channel-postgres env self gateway mesh payload data' peer good host port = ground arith

-- A tunnel that a node forwards to a peer is asked for there by a channel that the peer's node,
-- which serves the name at that port to a user of its own, connects to a connection that serves it;
-- with the port and the origin that the client asked for. The name is not that of the database.
pub forwarded_tunnel_delivers :
    (marshal : TunnelData → Text) (near far : Environment) (self far_self : Connection)
    (gateway far_gateway : Gateway) (mesh far_mesh : Mesh) (channel : NewChannel) (peer : Peer)
    (sent : TunnelData) (service user : Text) (c : ℕ)
    → Reads marshal far
    → (handle_channel near self gateway mesh channel).1 ≡ accepts (to_peer peer sent)
    → is_peer far_self ≡ true
    → far.can_accept ≡ true
    → ((sent.host == codes "postgres") && (sent.port == 5432)) ≡ false
    → Names sent.host service user
    → Member c (connections_of far_gateway user)
    → lookup_service (far_gateway.store c) service sent.port ≡ true
    → (asked : NewChannel) × (opened_channel marshal (to_peer peer sent) ≡ some asked)
      × (unmarshal_tunnel_data near.unmarshal channel.extra_data ≡ ok sent)
      × ((found : ℕ) × (host : Text) × (handle_channel far far_self far_gateway far_mesh asked
            ≡ (far_mesh, accepts (to_connection found (record sent { host = host }))))
          × Reaches far_gateway sent.host sent.port found host)
unfolding opened_channel
forwarded_tunnel_delivers marshal near far self far_self gateway far_gateway mesh far_mesh channel
      peer sent service user c law forwarded is_peers a other n held served =
    let asked_for = handle_channel-to_peer near self gateway mesh channel peer sent forwarded in
    let bound = unmarshal_port near.unmarshal channel.extra_data {data' = sent} asked_for in
    let read = unmarshal-marshal marshal far sent law bound.0 bound.1 in
    let (found, host, routed, reached) =
      route_tunnel_delivers far far_self far_gateway far_mesh sent service user c a bound.0 n held
        served in
    let arrives =
      handle_channel-peer far far_self far_gateway far_mesh (marshal sent) sent is_peers read
        other in
    (_, refl, asked_for, (found, host, arrives ∙ routed, reached))

-- A user's tunnel to the name "postgres" at the port 5432 that a node forwards to a peer, since a user
-- of that name is there, is connected to the database of the peer's node, if it has one.
pub forwarded_postgres :
    (marshal : TunnelData → Text) (near far : Environment) (self far_self : Connection)
    (gateway far_gateway : Gateway) (mesh far_mesh : Mesh) (channel : NewChannel) (peer : Peer)
    (sent : TunnelData)
    → Reads marshal far
    → (handle_channel near self gateway mesh channel).1 ≡ accepts (to_peer peer sent)
    → is_peer far_self ≡ true
    → far.can_accept ≡ true
    → sent.host ≡ codes "postgres"
    → sent.port ≡ 5432
    → far.postgres_address ≢ []
    → (asked : NewChannel) × (opened_channel marshal (to_peer peer sent) ≡ some asked)
      × (is_peer self ≡ false)
      × (handle_channel far far_self far_gateway far_mesh asked
          ≡ (far_mesh, accepts (postgres far.postgres_address)))
unfolding opened_channel handle_postgres_channel
forwarded_postgres marshal near far self far_self gateway far_gateway mesh far_mesh channel peer
      sent law forwarded is_peers a host port has_database =
    let asked_for = handle_channel-to_peer near self gateway mesh channel peer sent forwarded in
    let bound = unmarshal_port near.unmarshal channel.extra_data {data' = sent} asked_for in
    let read = unmarshal-marshal marshal far sent law bound.0 bound.1 in
    let allowed =
      subst (IsSafe near self) forwarded (handle_channel-IsSafe near self gateway mesh channel) in
    let arrives =
      handle_channel-postgres far far_self far_gateway far_mesh (marshal sent) sent is_peers read
        host port in
    (_, refl, allowed.1, ground (arith, arrives))

-- What a node asks its peer for to reach the database is accepted there on the connection of a peer
-- at a node that has the database, as a bridge to that, and refused as not permitted at one that
-- reaches the database through a peer itself.
pub dial_postgres_via_peer_lem :
    (marshal : TunnelData → Text) (far : Environment) (far_self : Connection) (gateway : Gateway)
    (mesh : Mesh)
    → Reads marshal far
    → is_peer far_self ≡ true
    → handle_channel far far_self gateway mesh (dial_postgres_via_peer marshal) ≡ (
      mesh,
      if far.postgres_address == []
          then fails permission_denied
          else if far.can_accept
          then accepts (postgres far.postgres_address)
          else fails ssh_failed,
    )
unfolding dial_postgres_via_peer handle_postgres_channel
dial_postgres_via_peer_lem marshal far far_self gateway mesh law is_peers =
    let read = unmarshal-marshal marshal far postgres_data law (omega arith) (omega arith) in
    let arrives =
      handle_channel-postgres far far_self gateway mesh (marshal postgres_data) postgres_data
        is_peers read refl refl in
    ground (arith, arrives)
