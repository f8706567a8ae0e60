-- ===== src/Tests/Proxy.antt =====
-- Tests of the proxies: a client asks for web.bob, which is on the node n2.
use gatewaysshd.Common.{
  ◌≡◌, refl, Bool, true, [], ◌∷◌, ◌++◌, none, some, Text, codes, nat_key, text_key, arith,
}
use gatewaysshd.Errors.{ok, err}
use gatewaysshd.Mesh.{lookup_remote_peer, candidates, find_peer, try_user, try_node}
use gatewaysshd.Channels.{Bridge, open_service_tunnel}
use gatewaysshd.Socks.{offers_no_auth}
use gatewaysshd.Proxy.{
  Address, tcp, requested, split_origin, handle_http_connect, handle_socks_connection,
}
use gatewaysshd.Proxy.Split.{
  parse_digits, parse_uint, split_host_port, cut_first, cut_last, holds, check_brackets,
  net_split_host_port,
}
use gatewaysshd.Proxy.Tunnels.{reply_bytes, client_bytes, handle_socks_connection_lem}
use gatewaysshd.Tests.{program, gateway, mesh}
use gatewaysshd.Tests.Forwarding.{environment}

abbrev client : Address
client = tcp (codes "192.0.2.9") 50000

abbrev every : Bridge → Bool
every bridge = true

abbrev web_bob : Text
web_bob = codes "web.bob"

program' : Unit {0}
unfolding program offers_no_auth open_service_tunnel lookup_remote_peer find_peer try_user try_node
    candidates split_origin parse_digits parse_uint split_host_port handle_http_connect cut_first
    cut_last holds check_brackets net_split_host_port
program' = tt

handle_socks_connection_lem_example :
    let opened =
      open_service_tunnel environment every gateway mesh
        (requested web_bob 443 (split_origin client)) in
    handle_socks_connection environment every gateway
      (λ bytes. bytes)
      mesh
      client
      (record {
        input = client_bytes (2 ∷ 0 ∷ []) web_bob 443 (codes "GET");
        output = [];
        can_write = true;
      })
    ≡ record {
      mesh = opened.0;
      conn = record {
        input = codes "GET";
        output = (5 ∷ 0 ∷ []) ++ reply_bytes (elim opened.1 [ ok bridge ↦ 0 | err e ↦ 4 ]);
        can_write = true;
      };
      bridge = elim opened.1 [ ok bridge ↦ some bridge | err e ↦ none ];
    }
unfolding program'
handle_socks_connection_lem_example =
    handle_socks_connection_lem environment every gateway (λ bytes. bytes) mesh client (2 ∷ 0 ∷ [])
      web_bob (codes "GET") 443 (ground arith) refl
