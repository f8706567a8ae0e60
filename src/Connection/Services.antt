-- ===== src/Connection/Services.antt =====
-- The services of gateway/connection.go as a set of endpoints.
use gatewaysshd.Common.{
  ℕ, ◌≡◌, true, false, ◌&&◌, Text, ◌==◌, text_key, nat_key, if◌then◌else◌, arith,
}
use gatewaysshd.Common.Dict.{lookup, insert, delete, lookup-insert, lookup-delete}
use gatewaysshd.Errors.{ok, err, service_already_registered}
use gatewaysshd.Connection.{
  Connection, lookup_service, register_service, deregister_service, ports_of,
}

-- A registration of a free endpoint adds it, and no other.
pub lookup_service-register_service :
    (self : Connection) (host : Text) (port : ℕ) (h : Text) (p : ℕ)
    → lookup_service (register_service self host port).0 h p
      ≡ (if (host == h) && (port == p) then true else lookup_service self h p)
unfolding lookup_service register_service lookup
lookup_service-register_service self host port h p = ground (
  arith,
  lookup-insert host h (ports_of self host) self.services,
  lookup-insert host h (insert port true (ports_of self host)) self.services,
  lookup-insert port p true (ports_of self host),
)

-- It is refused exactly when the endpoint is taken.
pub register_service_result :
    (self : Connection) (host : Text) (port : ℕ)
    → (register_service self host port).1
      ≡ (if lookup_service self host port then err service_already_registered else ok tt)
unfolding lookup_service register_service lookup
register_service_result self host port = ground arith

pub lookup_service-deregister_service :
    (self : Connection) (host : Text) (port : ℕ) (h : Text) (p : ℕ)
    → lookup_service (deregister_service self host port) h p
      ≡ (if (host == h) && (port == p) then false else lookup_service self h p)
unfolding lookup_service deregister_service
lookup_service-deregister_service self host port h p = ground (
  arith,
  lookup-insert host h (delete port (ports_of self host)) self.services,
  lookup-delete port p (ports_of self host),
)
