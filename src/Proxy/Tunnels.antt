-- ===== src/Proxy/Tunnels.antt =====
-- gateway/socks.go and gateway/httpproxy.go: a client of a proxy gets the tunnel that it asks for.
use gatewaysshd.Common.{
  ℕ, ◌/◌, ◌%◌, ◌<◌, ◌≡◌, ◌⊎◌, inl, inr, Bool, true, [], ◌∷◌, ◌++◌, none, some, Text, ◌∙◌, ap,
  nat_key, text_key, length, arith,
}
use gatewaysshd.Errors.{ok, err, Result-cases}
use gatewaysshd.Gateway.{Gateway, lookup_connection_service}
use gatewaysshd.Mesh.{Mesh, Peer}
use gatewaysshd.Mesh.Routing.{Leads}
use gatewaysshd.Gateway.Lookup.{Names}
use gatewaysshd.Channels.{Environment, Bridge, to_connection, to_peer, open_service_tunnel}
use gatewaysshd.Channels.Delivery.{Reaches, open_service_tunnel_sound}
use gatewaysshd.Socks.{offers_no_auth, send_reply}
use gatewaysshd.Socks.Roundtrip.{authenticate_lem, parse_request_lem}
use gatewaysshd.Proxy.{
  Address, Response, bridges, handle_http_connect, split_origin, requested, serve_socks,
  handle_socks_connection,
}
use gatewaysshd.Proxy.Split.{split_host_port}

-- The reply with its code, as it goes out.
abbrev pub reply_bytes : ℕ → Text
reply_bytes code = 5 ∷ code ∷ 0 ∷ 1 ∷ 0 ∷ 0 ∷ 0 ∷ 0 ∷ 0 ∷ 0 ∷ []

-- What a client writes that offers these methods and asks for the host and port.
abbrev pub client_bytes : Text → Text → ℕ → Text → Text
client_bytes methods name port rest =
    5
    ∷ length methods
    ∷ (methods ++ (5 ∷ 1 ∷ 0 ∷ 3 ∷ length name ∷ (name ++ (port / 256 ∷ port % 256 ∷ rest))))

module _ (env : Environment) (opens : Bridge → Bool) (gateway : Gateway) where
  -- A SOCKS client that offers to go without authentication and asks to be connected to a named host
  -- and port, on a connection that can be written to, gets the tunnel that the node opens for that
  -- host and port with the client's address as origin, and the reply 0; or the reply 4 and no tunnel,
  -- if the node opens none. The bytes behind the request are left for the tunnel.
  pub handle_socks_connection_lem :
      (ip_string : Text → Text) (mesh : Mesh) (address : Address) (methods name rest : Text)
      (port : ℕ)
      → port < 65536
      → offers_no_auth methods ≡ true
      → let opened =
          open_service_tunnel env opens gateway mesh (requested name port (split_origin address)) in
        handle_socks_connection env opens gateway ip_string mesh address
          (record { input = client_bytes methods name port rest; output = []; can_write = true })
        ≡ record {
          mesh = opened.0;
          conn = record {
            input = rest;
            output = (5 ∷ 0 ∷ []) ++ reply_bytes (elim opened.1 [ ok bridge ↦ 0 | err e ↦ 4 ]);
            can_write = true;
          };
          bridge = elim opened.1 [ ok bridge ↦ some bridge | err e ↦ none ];
        }
  unfolding handle_socks_connection serve_socks send_reply
  handle_socks_connection_lem ip_string mesh address methods name rest port low offered =
      let request = 5 ∷ 1 ∷ 0 ∷ 3 ∷ length name ∷ (name ++ (port / 256 ∷ port % 256 ∷ rest)) in
      ground (
        arith,
        authenticate_lem methods request [],
        parse_request_lem ip_string 1 port name rest (5 ∷ 0 ∷ []) low,
      )

  -- A CONNECT client is bridged only to a tunnel of the host and the port that its request names: to
  -- a connection of this node that serves them, or, where none does, to the peer of a node where a
  -- user that the host names is.
  pub handle_http_connect_sound :
      (mesh : Mesh) (response : Response) (host_port host : Text) (port : ℕ) (remote : Address)
      {bridge : Bridge}
      → split_host_port host_port 443 ≡ ok (host, port)
      → (handle_http_connect env opens gateway mesh response host_port remote).1 ≡ bridges bridge
      → let data' = requested host port (split_origin remote) in
        ((found : ℕ) × (service : Text) × (bridge
            ≡ to_connection found (record data' { host = service }))
          × Reaches gateway host port found service)
        ⊎ ((lookup_connection_service gateway host port ≡ none)
            × ((peer : Peer) × (bridge ≡ to_peer peer data')
                × ((user service : Text) × Names host service user
                    × ((node : Text) × Leads env.node_id env.query env.now mesh user node peer))))
  unfolding handle_http_connect
  handle_http_connect_sound mesh response host_port host port remote {bridge} named bridged =
      let data' = requested host port (split_origin remote) in
      elim (Result-cases (open_service_tunnel env opens gateway mesh data').1) [
        | inl (e, failed) ↦ absurd (ground arith)
        | inr (b, opened) ↦
            let same : b ≡ bridge = ground arith in
            open_service_tunnel_sound env opens gateway mesh data' {bridge = bridge}
              (opened ∙ ap ok same)
      ]
