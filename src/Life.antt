-- ===== src/Life.antt =====
-- gateway/connection.go, handleConnection: the life of a connection, from its entry in the registry
-- over what arrives on it to its end, with releaseUserNode of gateway/gateway.go.
pub mod Registry
pub mod Ending
pub mod Shutdown
pub mod Waiting
pub mod Advertising
use gatewaysshd.Common.{ℕ, Bool, true, false, ◌&&◌, Option, none, some, Text}
use gatewaysshd.Errors.{Result, ok, err}
use gatewaysshd.Auth.Ssh.{Extensions}
use gatewaysshd.Connection.{Connection, Tunnel, add_tunnel, delete_tunnel}
use gatewaysshd.Connection.Requests.{ForwardRequest, Request, handle_request}
use gatewaysshd.Gateway.{Gateway, write, add_connection, delete_connection, close_connection}
use gatewaysshd.Mesh.{Mesh}
use gatewaysshd.Db.{Db}
use gatewaysshd.Heartbeat.{release_user_node}
use gatewaysshd.Channels.{
  Environment, NewChannel, Decision, fails, rejects, new_connection, handle_channel,
}

pub record State : Type 0 where
  pub gateway : Gateway
  pub mesh : Mesh
  pub db : Db

-- What the loop selects: the end of the connection, a request, or a channel; `none` is the end of a
-- queue.
pub data Arrival : Type 0 where
  done : Arrival
  request : Option Request → Arrival
  channel : Option NewChannel → Arrival

-- handleConnection up to its goroutine: the connection number `c` is made and published.
unfoldable pub publish : ℕ → Extensions → Text → Text → Gateway → Gateway
publish c extensions login_user remote_address self =
    add_connection
      (record self {
        store = write self.store c (new_connection extensions login_user remote_address);
      })
      c

abbrev goes_on_after : Result (Unit {0}) → Bool
goes_on_after (ok _) = true
goes_on_after (err e) = false

-- A channel that is rejected is accepted and closed; the loop ends where either fails.
abbrev goes_on : Environment → Decision → Bool
goes_on env (fails e) = false
goes_on env (rejects e) = env.can_accept && env.can_close
goes_on env decision = true

-- One round of the loop, and whether there is another.
module _ (unmarshal : Text → Option ForwardRequest) (can_reply : Bool) (env : Environment) where
  unfoldable pub receive : ℕ → Arrival → State → State × Bool
  receive c done self = (self, false)
  receive c (request none) self = (self, false)
  receive c (request (some r)) self =
      let handled = handle_request unmarshal can_reply (self.gateway.store c) r in
      (
        record self {
          gateway = record self.gateway { store = write self.gateway.store c handled.connection };
        },
        goes_on_after handled.result,
      )
  receive c (channel none) self = (self, false)
  receive c (channel (some asked)) self =
      let handled = handle_channel env (self.gateway.store c) self.gateway self.mesh asked in
      (record self { mesh = handled.0 }, goes_on env handled.1)

-- The deferred calls of the goroutine: deleteConnection, then releaseUserNode, which reads the
-- registry, and clears the row in the database if it can be reached. Other goroutines and nodes run
-- before the read and between the read and the statement.
unfoldable pub unlist : ℕ → State → State
unlist c self = record self { gateway = delete_connection self.gateway c }

unfoldable pub release : Text → Bool → Gateway → Text → ℕ → State → State
release node_id reachable read user now self = record self {
  db = release_user_node node_id reachable read self.db user now;
}

unfoldable pub finish : Text → Bool → ℕ → ℕ → (State → State) → (State → State) → State → State
finish node_id reachable c now before_read before_clear self =
    let read = before_read (unlist c self) in
    release node_id reachable read.gateway (self.gateway.store c).user now (before_clear read)
