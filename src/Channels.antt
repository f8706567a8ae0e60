-- ===== src/Channels.antt =====
-- The channels of gateway/connection.go, with the tunnel data of gateway/utils.go and
-- openServiceTunnel of gateway/gateway.go: what becomes of a channel that a client asks for. What the
-- ssh library decodes, and whether it can accept or open a channel, are parameters.
pub mod Safety
pub mod Delivery
pub mod Identity
pub mod Bridging
pub mod Forwarded
pub mod Pairing
pub mod Replies
use mathlib.Core.Option
use gatewaysshd.Common.{
  ℕ, ◌+◌, ◌%◌, ◌^◌, Bool, true, false, not, ◌&&◌, ◌||◌, List, [], ◌∷◌, Option, none, some, Text,
  codes, ◌==◌, text_key, nat_key, if◌then◌else◌, ltb, length,
}
use gatewaysshd.Common.Dict.{Dict, lookup}
use gatewaysshd.Errors.{
  Error, Result, ok, err, ◌>>=◌, invalid_tunnel_data, extra_data_not_allowed, unknown_channel_type,
  permission_denied, service_not_found, ssh_failed,
}
use gatewaysshd.Auth.Ssh.{Extensions}
use gatewaysshd.Connection.{Connection, is_peer}
use gatewaysshd.Connection.Requests.{uint16}
use gatewaysshd.Gateway.{Gateway, lookup_connection_service}
use gatewaysshd.Mesh.{Mesh, Peer, lookup_remote_peer, invalidate_routes}

abbrev is_some {ℓ} : {A : Type ℓ} → Option A → Bool
is_some none = false
is_some (some a) = true

-- handleConnection: the connection that the permissions of a login make.
unfoldable pub new_connection : Extensions → Text → Text → Connection
new_connection extensions login_user remote_address =
    let peer = is_some (lookup (codes "peer") extensions) in
    record {
      user = if peer then [] else login_user;
      node_id = if peer then Option.get_or (lookup (codes "identity") extensions) [] else [];
      remote_address = remote_address;
      permit_port_forwarding = is_some (lookup (codes "permit-port-forwarding") extensions);
      administrator = is_some (lookup (codes "administrator") extensions);
      tunnels = [];
      tunnels_opened = 0;
      tunnels_closed = 0;
      services = [];
      closed = false;
    }

pub record TunnelData : Type 0 where
  pub host : Text
  pub port : ℕ
  pub origin_address : Text
  pub origin_port : ℕ

unfoldable pub unmarshal_tunnel_data : (Text → Option TunnelData) → Text → Result TunnelData
unmarshal_tunnel_data unmarshal payload = elim (unmarshal payload) [
  | none ↦ err ssh_failed
  | some data' ↦
      if ltb 65535 data'.port
      then err invalid_tunnel_data
      else if ltb 65535 data'.origin_port
      then err invalid_tunnel_data
      else ok data'
]

pub record NewChannel : Type 0 where
  pub channel_type : Text
  pub extra_data : Text

-- The reasons that the program gives to `ssh.RejectionReason`.
pub data Rejection : Type 0 where
  prohibited connection_failed : Rejection

-- Where an accepted channel leads: to a session, to the local postgres, to a connection by a
-- "forwarded-tcpip" channel, or to a peer by a "direct-tcpip" channel.
pub data Bridge : Type 0 where
  session : Bridge
  postgres : Text → Bridge
  to_connection : ℕ → TunnelData → Bridge
  to_peer : Peer → TunnelData → Bridge

-- An error ends the connection; a rejected channel is accepted and closed at once.
pub data Decision : Type 0 where
  fails : Error → Decision
  rejects : Rejection → Decision
  accepts : Bridge → Decision

-- The ssh server and the node's settings, and the database as one lookup reads it.
pub record Environment : Type 0 where
  pub unmarshal : Text → Option TunnelData
  pub can_accept : Bool
  pub can_close : Bool
  pub node_id : Text
  pub postgres_address : Text
  pub query : Text → Result Text
  pub now : ℕ

abbrev accept : Environment → Bridge → Decision
accept env bridge = if env.can_accept then accepts bridge else fails ssh_failed

unfoldable pub handle_postgres_channel : Environment → Connection → Decision
handle_postgres_channel env self =
    if not (is_peer self)
    then fails permission_denied
    else if env.postgres_address == []
    then fails permission_denied
    else accept env (postgres env.postgres_address)

unfoldable pub handle_session_channel : Environment → NewChannel → Decision
handle_session_channel env channel =
    if ltb 0 (length channel.extra_data) then fails extra_data_not_allowed else accept env session

-- The data sent to the connection that serves the tunnel.
abbrev pub resolved : TunnelData → Text → TunnelData
resolved data' host = record data' { host = host; port = uint16 data'.port }

-- The search of the mesh, made only if there is no local connection and the request is not a peer's.
unfoldable pub route_remote : Environment → Connection → Mesh → TunnelData → Mesh × Decision
route_remote env self mesh data' =
    if is_peer self
    then (mesh, rejects connection_failed)
    else (let found = lookup_remote_peer env.node_id env.query env.now mesh data'.host in
        (
          found.0,
          elim found.1 [
            | none ↦ rejects connection_failed
            | some peer ↦ accept env (to_peer peer data')
          ],
        ))

unfoldable pub route_tunnel :
    Environment → Connection → Gateway → Mesh → TunnelData → Mesh × Decision
route_tunnel env self gateway mesh data' =
    if ltb 65535 data'.port
    then (mesh, rejects connection_failed)
    else elim (lookup_connection_service gateway data'.host (uint16 data'.port)) [
      | some (connection, host) ↦
          (mesh, accept env (to_connection connection (resolved data' host)))
      | none ↦ route_remote env self mesh data'
    ]

unfoldable pub handle_tunnel_channel :
    Environment → Connection → Gateway → Mesh → NewChannel → Mesh × Decision
handle_tunnel_channel env self gateway mesh channel =
    elim (unmarshal_tunnel_data env.unmarshal channel.extra_data) [
      | err e ↦ (mesh, fails e)
      | ok data' ↦
          if is_peer self && (data'.host == codes "postgres") && (data'.port == 5432)
          then (mesh, handle_postgres_channel env self)
          else if not self.permit_port_forwarding && not (is_peer self)
          then (mesh, fails permission_denied)
          else route_tunnel env self gateway mesh data'
    ]

-- A channel of an unknown type is an error.
unfoldable pub handle_channel :
    Environment → Connection → Gateway → Mesh → NewChannel → Mesh × Decision
handle_channel env self gateway mesh channel =
    if channel.channel_type == codes "session"
    then (mesh, if is_peer self then rejects prohibited else handle_session_channel env channel)
    else if channel.channel_type == codes "direct-tcpip"
    then handle_tunnel_channel env self gateway mesh channel
    else (mesh, fails unknown_channel_type)

-- What an accepted tunnel leaves of the routes, if its other end was opened or not.
unfoldable pub after_open : Bool → Mesh → Bridge → Mesh
after_open opened mesh (to_peer peer data') =
    if opened then mesh else invalidate_routes mesh data'.host
after_open opened mesh bridge = mesh

-- openServiceTunnel, for a client of a proxy. `opens` says which channels can be opened.
unfoldable pub open_service_tunnel :
    Environment → (Bridge → Bool) → Gateway → Mesh → TunnelData → Mesh × Result Bridge
open_service_tunnel env opens gateway mesh data' =
    elim (lookup_connection_service gateway data'.host data'.port) [
      | some (connection, host) ↦
          (let bridge = to_connection connection (record data' { host = host }) in
            (mesh, if opens bridge then ok bridge else err ssh_failed))
      | none ↦
          (let found = lookup_remote_peer env.node_id env.query env.now mesh data'.host in
            elim found.1 [
              | none ↦ (found.0, err service_not_found)
              | some peer ↦
                  if opens (to_peer peer data')
                  then (found.0, ok (to_peer peer data'))
                  else (invalidate_routes found.0 data'.host, err ssh_failed)
            ])
    ]
