-- ===== src/Tests/Services.antt =====
-- Tests of a service from its advertisement to a tunnel: alice advertises web, and bob asks for it.
use gatewaysshd.Common.{ℕ, ◌≡◌, refl, inr, true, [], Option, some, Text, codes, arith}
use gatewaysshd.Connection.{Connection}
use gatewaysshd.Connection.Requests.{ForwardRequest, Request}
use gatewaysshd.Channels.{to_connection, accepts, handle_channel}
use gatewaysshd.Channels.Delivery.{Reaches}
use gatewaysshd.Life.{State, publish, request, receive}
use gatewaysshd.Life.Advertising.{advertised_delivers}
use gatewaysshd.Tests.{program, alice, web, bobs_connection, empty_gateway, mesh, db}
use gatewaysshd.Tests.Forwarding.{environment, channel, at_80, decoded}

abbrev empty_state : State
empty_state = record { gateway = empty_gateway; mesh = mesh; db = db }

abbrev decode : Text → Option ForwardRequest
decode payload = some (record { host = web; port = 80 })

abbrev advertisement : Request
advertisement = record { type = codes "tcpip-forward"; want_reply = true; payload = [] }

abbrev visitor : Connection
visitor = record bobs_connection { permit_port_forwarding = true }

abbrev published : State
published = record empty_state { gateway = publish 9 [] alice [] empty_gateway }

abbrev advertised : State
advertised = (receive decode true environment 9 (request (some advertisement)) published).0

advertised_delivers_example :
    (found : ℕ) × (host : Text) × (handle_channel environment visitor advertised.gateway
        advertised.mesh channel
      ≡ (
        advertised.mesh,
        accepts (to_connection found (record (at_80 (codes "web.alice")) { host = host })),
      ))
    × Reaches advertised.gateway (codes "web.alice") 80 found host
unfolding program
advertised_delivers_example =
    advertised_delivers decode environment empty_state 9 [] alice [] advertisement
      (record { host = web; port = 80 }) visitor channel (at_80 (codes "web.alice")) (refl, refl)
      refl refl (omega arith) (omega arith) refl refl decoded refl refl (inr refl) refl
