-- ===== src/Proxy.antt =====
-- gateway/socks.go and gateway/httpproxy.go: the two proxies that reach the services of clients
-- without a login. What `net/http` reads of a request, and whether a response can be taken over and
-- written to, are parameters.
pub mod Split
pub mod HostPort
pub mod Tunnels
use gatewaysshd.Common.{
  ℕ, ◌+◌, ◌*◌, ◌-◌, Bool, true, false, not, ◌&&◌, ◌||◌, List, [], ◌∷◌, ◌++◌, Option, none, some,
  Text, codes, ◌==◌, nat_key, text_key, if◌then◌else◌, ltb, leb, length, drop,
}
use gatewaysshd.Errors.{Error, Result, ok, err, ◌>>=◌, bad_address}
use gatewaysshd.Gateway.{Gateway}
use gatewaysshd.Mesh.{Mesh}
use gatewaysshd.Channels.{Environment, Bridge, TunnelData, open_service_tunnel}
use Split.{split_host_port}
use gatewaysshd.Socks
use gatewaysshd.Socks.{Conn}

-- A `net.Addr`: of tcp, with its ip and port, or another one.
pub data Address : Type 0 where
  tcp : Text → ℕ → Address
  other : Text → Address

unfoldable pub split_origin : Address → Text × ℕ
split_origin (tcp ip port) = (ip, port)
split_origin (other text) = (text, 0)

-- The data of a tunnel for a proxy's client.
abbrev pub requested : Text → ℕ → Text × ℕ → TunnelData
requested host port origin = record {
  host = host;
  port = port;
  origin_address = origin.0;
  origin_port = origin.1;
}

-- The mesh afterwards, the client's connection, and the tunnel that it was bridged to.
pub record Served : Type 0 where
  pub mesh : Mesh
  pub conn : Conn
  pub bridge : Option Bridge

-- What the http proxy does with a request: answers with a status, gives up without one, bridges the
-- client to a tunnel, or hands the request to the reverse proxy.
pub data Answer : Type 0 where
  status : ℕ → Answer
  drops : Answer
  bridges : Bridge → Answer
  forwards : Answer

-- Whether a response can be taken over, and whether that succeeds and the client can be written to.
pub record Response : Type 0 where
  pub is_hijacker : Bool
  pub hijacks : Bool
  pub can_write : Bool

module _ (env : Environment) (opens : Bridge → Bool) (gateway : Gateway) where
  -- After the request was read.
  unfoldable pub serve_socks : Mesh → Address → Conn → Text → ℕ → Served
  unfolding split_origin
  serve_socks mesh address conn host port =
      let opened =
        open_service_tunnel env opens gateway mesh (requested host port (split_origin address)) in
      elim opened.1 [
        | err _ ↦ record {
          mesh = opened.0;
          conn = (Socks.send_reply conn Socks.host_unreachable).0;
          bridge = none;
        }
        | ok bridge ↦
            (let replied = Socks.send_reply conn Socks.succeeded in
              record {
                mesh = opened.0;
                conn = replied.0;
                bridge = elim replied.1 [ err _ ↦ none | ok _ ↦ some bridge ];
              })
      ]

  unfoldable pub handle_socks_connection : (Text → Text) → Mesh → Address → Conn → Served
  unfolding serve_socks
  handle_socks_connection ip_string mesh address conn =
      let greeted = Socks.authenticate conn in
      elim greeted.1 [
        | err _ ↦ record { mesh = mesh; conn = greeted.0; bridge = none }
        | ok _ ↦
            (let read = Socks.parse_request ip_string greeted.0 in
              elim read.1 [
                | err _ ↦ record { mesh = mesh; conn = read.0; bridge = none }
                | ok (host, port) ↦ serve_socks mesh address read.0 host port
              ])
      ]

  unfoldable pub handle_http_connect : Mesh → Response → Text → Address → Mesh × Answer
  unfolding split_origin
  handle_http_connect mesh response host_port remote = elim (split_host_port host_port 443) [
    | err _ ↦ (mesh, status 400)
    | ok (host, port) ↦
        (let opened =
            open_service_tunnel env opens gateway mesh
              (requested host port (split_origin remote)) in
          elim opened.1 [
            | err _ ↦ (opened.0, status 502)
            | ok bridge ↦ (
              opened.0,
              if not response.is_hijacker
                  then status 500
                  else if response.hijacks && response.can_write
                  then bridges bridge
                  else drops,
            )
          ])
  ]

  -- The handler of HTTPProxyHandler.
  unfoldable pub handle_http_proxy : Mesh → Response → Text → Bool → Text → Address → Mesh × Answer
  handle_http_proxy mesh response method is_absolute host_port remote =
      if method == codes "CONNECT"
      then handle_http_connect mesh response host_port remote
      else (mesh, if is_absolute then forwards else status 400)

  -- How the reverse proxy connects.
  unfoldable pub dial_service_context : Mesh → Text → Mesh × Result Bridge
  dial_service_context mesh address = elim (split_host_port address 80) [
    | err e ↦ (mesh, err e)
    | ok (host, port) ↦
        open_service_tunnel env opens gateway mesh (requested host port (codes "http-proxy", 0))
  ]
