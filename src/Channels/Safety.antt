-- ===== src/Channels/Safety.antt =====
-- gateway/connection.go: what a channel may lead to.
use gatewaysshd.Common.{◌≡◌, ◌≢◌, ◌⊎◌, inl, inr, true, false, [], text_key, nat_key, arith}
use gatewaysshd.Errors.{Result-cases}
use gatewaysshd.Connection.{Connection, is_peer}
use gatewaysshd.Gateway.{Gateway}
use gatewaysshd.Mesh.{Mesh}
use gatewaysshd.Channels.{
  Environment, NewChannel, TunnelData, Bridge, session, postgres, to_connection, to_peer, Decision,
  fails, rejects, accepts, handle_channel, handle_tunnel_channel, handle_session_channel,
  handle_postgres_channel, route_tunnel, route_remote, unmarshal_tunnel_data,
}

-- What the connection must be for a bridge: a session is a user's, postgres a peer node's, and a
-- tunnel is for users who may forward ports and for peer nodes. Only a user's is forwarded again.
abbrev pub Allowed : Environment → Connection → Bridge → Type 0
Allowed env self session = is_peer self ≡ false
Allowed env self (postgres address) =
    (is_peer self ≡ true) × (address ≡ env.postgres_address) × (address ≢ [])
Allowed env self (to_connection connection data') =
    (self.permit_port_forwarding ≡ true) ⊎ (is_peer self ≡ true)
Allowed env self (to_peer peer data') =
    (self.permit_port_forwarding ≡ true) × (is_peer self ≡ false)

-- A decision is safe if whatever it accepts is allowed.
abbrev pub IsSafe : Environment → Connection → Decision → Type 0
IsSafe env self (fails e) = Unit
IsSafe env self (rejects rejection) = Unit
IsSafe env self (accepts bridge) = Allowed env self bridge

handle_session_channel-IsSafe :
    (env : Environment) (self : Connection) (channel : NewChannel)
    → is_peer self ≡ false
    → IsSafe env self (handle_session_channel env channel)
unfolding handle_session_channel
handle_session_channel-IsSafe env self channel h = ground arith

handle_postgres_channel-IsSafe :
    (env : Environment) (self : Connection) → IsSafe env self (handle_postgres_channel env self)
unfolding handle_postgres_channel
handle_postgres_channel-IsSafe env self = ground arith

route_remote-IsSafe :
    (env : Environment) (self : Connection) (mesh : Mesh) (data' : TunnelData)
    → (self.permit_port_forwarding ≡ true) ⊎ (is_peer self ≡ true)
    → IsSafe env self (route_remote env self mesh data').1
unfolding route_remote
route_remote-IsSafe env self mesh data' h = ground arith

route_tunnel-IsSafe :
    (env : Environment) (self : Connection) (gateway : Gateway) (mesh : Mesh) (data' : TunnelData)
    → (self.permit_port_forwarding ≡ true) ⊎ (is_peer self ≡ true)
    → IsSafe env self (route_tunnel env self gateway mesh data').1
unfolding route_tunnel
route_tunnel-IsSafe env self gateway mesh data' h =
    ground (arith, route_remote-IsSafe env self mesh data')

handle_tunnel_channel-IsSafe :
    (env : Environment) (self : Connection) (gateway : Gateway) (mesh : Mesh) (channel : NewChannel)
    → IsSafe env self (handle_tunnel_channel env self gateway mesh channel).1
unfolding handle_tunnel_channel
handle_tunnel_channel-IsSafe env self gateway mesh channel =
    elim (Result-cases (unmarshal_tunnel_data env.unmarshal channel.extra_data)) [
      | inl (e, bad) ↦ ground arith
      | inr (data', good) ↦ ground (
        arith,
        handle_postgres_channel-IsSafe env self,
        route_tunnel-IsSafe env self gateway mesh data',
      )
    ]

-- Whatever a client asks for, a channel is accepted only where the connection is allowed what it
-- leads to.
pub handle_channel-IsSafe :
    (env : Environment) (self : Connection) (gateway : Gateway) (mesh : Mesh) (channel : NewChannel)
    → IsSafe env self (handle_channel env self gateway mesh channel).1
unfolding handle_channel
handle_channel-IsSafe env self gateway mesh channel = ground (
  arith,
  handle_session_channel-IsSafe env self channel,
  handle_tunnel_channel-IsSafe env self gateway mesh channel,
)
