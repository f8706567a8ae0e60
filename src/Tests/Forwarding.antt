-- ===== src/Tests/Forwarding.antt =====
-- Tests of the channels.
use gatewaysshd.Common.{
  ℕ, ◌≡◌, refl, inl, inr, true, [], some, Text, codes, text_key, nat_key, Member,
}
use gatewaysshd.Errors.{ok}
use gatewaysshd.Connection.{lookup_service}
use gatewaysshd.Gateway.{connections_of}
use gatewaysshd.Mesh.{lookup_remote_peer, candidates, find_peer, try_user, try_node}
use gatewaysshd.Channels.{
  Environment, NewChannel, TunnelData, to_connection, to_peer, accepts, handle_channel,
  open_service_tunnel, unmarshal_tunnel_data,
}
use gatewaysshd.Channels.Safety.{IsSafe, handle_channel-IsSafe}
use gatewaysshd.Channels.Delivery.{Reaches, handle_channel_delivers}
use gatewaysshd.Tests.{
  program, alice, web, n1, alices_connection, gateway, mesh, peer_n2, bob_on_n2,
}

-- The data of a channel is its host, at the port 80.
abbrev pub at_80 : Text → TunnelData
at_80 host = record { host = host; port = 80; origin_address = []; origin_port = 0 }

abbrev pub environment : Environment
environment = record {
  unmarshal = λ payload. some (at_80 payload);
  can_accept = true;
  can_close = true;
  node_id = n1;
  postgres_address = codes "localhost:5432";
  query = bob_on_n2;
  now = 200;
}

abbrev pub channel : NewChannel
channel = record { channel_type = codes "direct-tcpip"; extra_data = codes "web.alice" }

program' : Unit {0}
unfolding program unmarshal_tunnel_data open_service_tunnel lookup_remote_peer find_peer try_user
    try_node candidates
program' = tt

handle_channel-IsSafe_example :
    IsSafe environment alices_connection
      (handle_channel environment alices_connection gateway mesh channel).1
handle_channel-IsSafe_example =
    handle_channel-IsSafe environment alices_connection gateway mesh channel

pub decoded :
    unmarshal_tunnel_data environment.unmarshal (codes "web.alice") ≡ ok (at_80 (codes "web.alice"))
unfolding program'
decoded = refl

listed : Member 7 (connections_of gateway alice)
unfolding program'
listed = inl refl

served : lookup_service (gateway.store 7) web 80 ≡ true
unfolding program'
served = refl

handle_channel_delivers_example :
    (found : ℕ) × (host : Text) × (handle_channel environment alices_connection gateway mesh channel
      ≡ (mesh, accepts (to_connection found (record (at_80 (codes "web.alice")) { host = host }))))
    × Reaches gateway (codes "web.alice") 80 found host
unfolding program'
handle_channel_delivers_example =
    handle_channel_delivers environment alices_connection gateway mesh channel
      (at_80 (codes "web.alice")) web alice 7 refl refl decoded refl refl (inr refl) listed served

forwarded :
    (open_service_tunnel environment (λ bridge. true) gateway mesh (at_80 (codes "web.bob"))).1
    ≡ ok (to_peer peer_n2 (at_80 (codes "web.bob")))
unfolding program'
forwarded = refl
