-- ===== src/Tests/Nodes.antt =====
-- Tests of a tunnel over two nodes: alice asks the node n1 for a service of bob, who is on n2.
use gatewaysshd.Common.{
  ℕ, ◌≡◌, refl, inl, inr, true, false, [], ◌∷◌, ◌++◌, Option, none, some, Text, codes, text_key,
  nat_key, ◌==◌, length, take, drop, take-length_append, drop-length_append, Member, if◌then◌else◌,
}
use gatewaysshd.Errors.{ok, permission_denied, ssh_failed}
use gatewaysshd.Connection.{Connection, lookup_service, is_peer}
use gatewaysshd.Gateway.{Gateway, connections_of}
use gatewaysshd.Mesh.{lookup_remote_peer, candidates, find_peer, try_user, try_node}
use gatewaysshd.Channels.{
  Environment, NewChannel, TunnelData, to_connection, to_peer, postgres, accepts, fails,
  handle_channel, unmarshal_tunnel_data, handle_tunnel_channel, route_tunnel, route_remote,
}
use gatewaysshd.Channels.Delivery.{Reaches}
use gatewaysshd.Channels.Forwarded.{
  Reads, opened_channel, dial_postgres_via_peer, forwarded_tunnel_delivers, forwarded_postgres,
  dial_postgres_via_peer_lem,
}
use gatewaysshd.Tests.{
  program, bob, web, n1, n2, alices_connection, gateway, mesh, peer_n2, bob_on_n2,
}

-- A form of the wire that keeps the length of the host.
wire : TunnelData → Text
wire data' =
    data'.port ∷ data'.origin_port ∷ length data'.host ∷ (data'.host ++ data'.origin_address)

unwire : Text → Option TunnelData
unwire (port ∷ origin_port ∷ n ∷ rest) = some (record {
  host = take n rest;
  port = port;
  origin_address = drop n rest;
  origin_port = origin_port;
})
unwire payload = none

-- Both nodes.
abbrev n1s : Environment
n1s = record {
  unmarshal = unwire;
  can_accept = true;
  can_close = true;
  node_id = n1;
  postgres_address = [];
  query = bob_on_n2;
  now = 200;
}

abbrev n2s : Environment
n2s = record n1s { node_id = n2; postgres_address = codes "localhost:5432" }

abbrev from_n1 : Connection
from_n1 = record alices_connection { user = []; node_id = n1; services = [] }

n2s-Reads : Reads wire n2s
unfolding wire unwire
n2s-Reads data' low low_origin =
    rw
      (
        take-length_append data'.host data'.origin_address,
        drop-length_append data'.host data'.origin_address,
      )
      refl

-- Bob's connection to n2 serves web.
abbrev far_gateway : Gateway
far_gateway = record {
  connections_index = (bob, 7 ∷ []) ∷ [];
  connections_list = 7 ∷ [];
  store = λ c. record alices_connection { user = bob };
}

abbrev asked : TunnelData
asked = record { host = codes "web.bob"; port = 80; origin_address = []; origin_port = 4000 }

abbrev channel : TunnelData → NewChannel
channel data' = record { channel_type = codes "direct-tcpip"; extra_data = wire data' }

goes_to_n2 :
    (handle_channel n1s alices_connection gateway mesh (channel asked)).1
    ≡ accepts (to_peer peer_n2 asked)
unfolding program handle_channel handle_tunnel_channel route_tunnel route_remote
    unmarshal_tunnel_data lookup_remote_peer find_peer try_user try_node candidates wire unwire
goes_to_n2 = refl

served : lookup_service (far_gateway.store 7) web 80 ≡ true
unfolding program
served = refl

listed : Member 7 (connections_of far_gateway bob)
unfolding program
listed = inl refl

forwarded_tunnel_delivers_example :
    (to : NewChannel) × (opened_channel wire (to_peer peer_n2 asked) ≡ some to)
    × (unmarshal_tunnel_data unwire (wire asked) ≡ ok asked)
    × ((found : ℕ) × (host : Text) × (handle_channel n2s from_n1 far_gateway mesh to
          ≡ (mesh, accepts (to_connection found (record asked { host = host }))))
        × Reaches far_gateway (codes "web.bob") 80 found host)
unfolding program
forwarded_tunnel_delivers_example =
    forwarded_tunnel_delivers wire n1s n2s alices_connection from_n1 gateway far_gateway mesh mesh
      (channel asked) peer_n2 asked web bob 7 n2s-Reads goes_to_n2 refl refl refl (inr refl) listed
      served

-- The user postgres is on n2.
abbrev n1_of_postgres : Environment
n1_of_postgres = record n1s { query = λ user. if user == codes "postgres" then ok n2 else ok [] }

abbrev database_asked : TunnelData
database_asked = record {
  host = codes "postgres";
  port = 5432;
  origin_address = [];
  origin_port = 4000;
}

postgres_goes_to_n2 :
    (handle_channel n1_of_postgres alices_connection gateway mesh (channel database_asked)).1
    ≡ accepts (to_peer peer_n2 database_asked)
unfolding program handle_channel handle_tunnel_channel route_tunnel route_remote
    unmarshal_tunnel_data lookup_remote_peer find_peer try_user try_node candidates wire unwire
postgres_goes_to_n2 = refl

forwarded_postgres_example :
    (to : NewChannel) × (opened_channel wire (to_peer peer_n2 database_asked) ≡ some to)
    × (is_peer alices_connection ≡ false)
    × (handle_channel n2s from_n1 far_gateway mesh to
        ≡ (mesh, accepts (postgres (codes "localhost:5432"))))
unfolding program
forwarded_postgres_example =
    forwarded_postgres wire n1_of_postgres n2s alices_connection from_n1 gateway far_gateway mesh
      mesh (channel database_asked) peer_n2 database_asked n2s-Reads postgres_goes_to_n2 refl refl
      refl refl (λ e. cc)

dial_postgres_via_peer_lem_example :
    handle_channel n2s from_n1 far_gateway mesh (dial_postgres_via_peer wire) ≡ (
      mesh,
      if n2s.postgres_address == []
          then fails permission_denied
          else if n2s.can_accept
          then accepts (postgres n2s.postgres_address)
          else fails ssh_failed,
    )
unfolding program
dial_postgres_via_peer_lem_example =
    dial_postgres_via_peer_lem wire n2s from_n1 far_gateway mesh n2s-Reads refl
