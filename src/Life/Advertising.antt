-- ===== src/Life/Advertising.antt =====
-- gateway/connection.go: from the login of a client that advertises a service to the tunnel of another
-- client to it.
use gatewaysshd.Common.{
  ℕ, ◌<◌, ◌≤◌, ◌≡◌, refl, sym, ap, ◌∙◌, subst, true, false, ◌∷◌, Option, some, Text, codes,
  text_key, nat_key, arith, inl, Member, ==_refl,
}
use gatewaysshd.Common.Dict.{lookup-insert}
use gatewaysshd.Errors.{ok}
use gatewaysshd.Auth.Ssh.{Extensions}
use gatewaysshd.Auth.Trust.{HasNoPeer}
use gatewaysshd.Connection.{Connection, is_peer, lookup_service}
use gatewaysshd.Connection.Requests.{
  ForwardRequest, Request, handle_request, handle_request_forward,
}
use gatewaysshd.Gateway.{Gateway, connections_of, add_connection, write}
use gatewaysshd.Gateway.Lookup.{Names}
use gatewaysshd.Channels.{
  Environment, NewChannel, TunnelData, to_connection, accepts, new_connection, handle_channel,
  unmarshal_tunnel_data,
}
use gatewaysshd.Channels.Identity.{new_connection_of_user}
use gatewaysshd.Channels.Delivery.{Reaches, handle_channel_delivers}
use gatewaysshd.Life.{State, publish, request, receive}

connections_of-add_connection :
    (self : Gateway) (c : ℕ)
    → connections_of (add_connection self c) (self.store c).user
      ≡ c ∷ connections_of self (self.store c).user
unfolding add_connection connections_of
connections_of-add_connection self c =
    let user = (self.store c).user in
    ground (arith, lookup-insert user user (c ∷ connections_of self user) self.connections_index)

store-publish :
    (c : ℕ) (extensions : Extensions) (user address : Text) (self : Gateway)
    → (publish c extensions user address self).store c ≡ new_connection extensions user address
unfolding publish add_connection
store-publish c extensions user address self = rw (==_refl c) refl

Member-publish :
    (c : ℕ) (extensions : Extensions) (user address : Text) (self : Gateway)
    → HasNoPeer extensions
    → Member c (connections_of (publish c extensions user address self) user)
unfolding publish
Member-publish c extensions user address self plain =
    let made = new_connection_of_user extensions user address plain in
    let added : Gateway = record self {
      store = write self.store c (new_connection extensions user address);
    } in
    let here : added.store c ≡ new_connection extensions user address = rw (==_refl c) refl in
    let owner : (added.store c).user ≡ user = ap (λ (x : Connection). x.user) here ∙ made.1 in
    subst (λ u. Member c (connections_of (add_connection added c) u)) owner
      (subst (Member c) (sym (connections_of-add_connection added c)) (inl refl))

connections_of-store :
    (self : Gateway) (store : ℕ → Connection) (user : Text)
    → connections_of (record self { store = store }) user ≡ connections_of self user
unfolding connections_of
connections_of-store self store user = refl

-- The service of an accepted request is served.
lookup_service-handle_request :
    (unmarshal : Text → Option ForwardRequest) (self : Connection) (r : Request)
    (service : ForwardRequest)
    → r.type ≡ codes "tcpip-forward"
    → unmarshal r.payload ≡ some service
    → 0 < service.port
    → service.port ≤ 65535
    → lookup_service (handle_request unmarshal true self r).connection service.host service.port
      ≡ true
lookup_service-handle_request unmarshal self r service t u low high =
    let after =
      handle_request_forward unmarshal true self r service service.host service.port t u low high
        refl in
    ground (arith, after.2, ==_refl service.host, ==_refl service.port)

-- A client that is let in as a user is published under a number, and sends a forward request for a
-- port from 1 to 65535, to which a reply can be sent. Then another user who may forward ports, and who
-- asks for that port of a name that names the service and the client's user, is connected to a
-- connection that serves it, if the channel can be accepted.
pub advertised_delivers :
    (unmarshal : Text → Option ForwardRequest) (env : Environment) (self : State) (c : ℕ)
    (extensions : Extensions) (user address : Text) (r : Request) (service : ForwardRequest)
    (visitor : Connection) (asked : NewChannel) (data' : TunnelData)
    → HasNoPeer extensions
    → r.type ≡ codes "tcpip-forward"
    → unmarshal r.payload ≡ some service
    → 0 < service.port
    → service.port ≤ 65535
    → asked.channel_type ≡ codes "direct-tcpip"
    → env.can_accept ≡ true
    → unmarshal_tunnel_data env.unmarshal asked.extra_data ≡ ok data'
    → visitor.permit_port_forwarding ≡ true
    → is_peer visitor ≡ false
    → Names data'.host service.host user
    → data'.port ≡ service.port
    → let published = record self { gateway = publish c extensions user address self.gateway } in
      let after = (receive unmarshal true env c (request (some r)) published).0 in
      (found : ℕ) × (host : Text) × (handle_channel env visitor after.gateway after.mesh asked
        ≡ (after.mesh, accepts (to_connection found (record data' { host = host }))))
      × Reaches after.gateway data'.host data'.port found host
unfolding receive
advertised_delivers unmarshal env self c extensions user address r service visitor asked data' plain
      t u low high ct a d permitted not_peer named same =
    let gateway = publish c extensions user address self.gateway in
    let handled = handle_request unmarshal true (gateway.store c) r in
    let after : Gateway = record gateway { store = write gateway.store c handled.connection } in
    let stored : after.store c ≡ handled.connection = rw (==_refl c) refl in
    let served : lookup_service (after.store c) service.host data'.port ≡ true =
      subst (λ port. lookup_service (after.store c) service.host port ≡ true) (sym same)
        (subst (λ (x : Connection). lookup_service x service.host service.port ≡ true) (sym stored)
          (lookup_service-handle_request unmarshal (gateway.store c) r service t u low high)) in
    let listed : Member c (connections_of after user) =
      subst (Member c) (sym (connections_of-store gateway after.store user))
        (Member-publish c extensions user address self.gateway plain) in
    handle_channel_delivers env visitor after self.mesh asked data' service.host user c ct a d
      permitted not_peer named listed served
