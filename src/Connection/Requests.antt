-- ===== src/Connection/Requests.antt =====
-- gateway/connection.go, handleRequest, with the decoding of gateway/utils.go. `ssh.Unmarshal` is a
-- parameter, and so is whether the reply can be sent.
use gatewaysshd.Common.{
  ℕ, ◌<◌, ◌≤◌, ◌≡◌, Bool, true, false, ◌&&◌, Option, none, some, Text, codes, ◌==◌, text_key,
  nat_key, if◌then◌else◌, ltb, arith, inl, inr, Option-cases, ◌%◌, ◌^◌,
}
use gatewaysshd.Errors.{
  Result, ok, err, invalid_forward_request, service_already_registered, port_out_of_range,
  ssh_failed,
}
use gatewaysshd.Connection.{Connection, lookup_service, register_service, deregister_service}
use gatewaysshd.Connection.Services.{
  lookup_service-register_service, lookup_service-deregister_service, register_service_result,
}

pub record ForwardRequest : Type 0 where
  pub host : Text
  pub port : ℕ

pub record Request : Type 0 where
  pub type : Text
  pub want_reply : Bool
  pub payload : Text

-- What handling a request leaves: the connection, the reply sent if any, and the returned error.
pub record Handled : Type 0 where
  pub connection : Connection
  pub reply : Option Bool
  pub result : Result (Unit {0})

abbrev pub uint16 : ℕ → ℕ
uint16 n = n % 2 ^ 16

module _ (unmarshal : Text → Option ForwardRequest) (can_reply : Bool) where
  unfoldable pub unmarshal_forward_request : Text → Result ForwardRequest
  unmarshal_forward_request payload = elim (unmarshal payload) [
    | none ↦ err ssh_failed
    | some request ↦ if ltb 65535 request.port then err invalid_forward_request else ok request
  ]

  -- The reply at the end of the handler.
  unfoldable pub answer : Connection → Request → Bool → Handled
  answer self request accepted =
      if request.want_reply
      then (if can_reply
          then record { connection = self; reply = some accepted; result = ok tt }
          else record { connection = self; reply = none; result = err ssh_failed })
      else record { connection = self; reply = none; result = ok tt }

  abbrev stop : Connection → Result (Unit {0}) → Handled
  stop self result = record { connection = self; reply = none; result = result }

  -- The case "tcpip-forward". For the port 0 the code returns `err`, which is nil there.
  unfoldable pub forward : Connection → Request → Handled
  forward self request = elim (unmarshal_forward_request request.payload) [
    | err e ↦ stop self (err e)
    | ok data' ↦
        if data'.port == 0
        then stop self (ok tt)
        else if ltb 65535 data'.port
        then stop self (err port_out_of_range)
        else (let registered = register_service self data'.host (uint16 data'.port) in
            elim registered.1 [
              | err e ↦ stop registered.0 (err e)
              | ok _ ↦ answer registered.0 request true
            ])
  ]

  -- The case "cancel-tcpip-forward".
  unfoldable pub cancel_forward : Connection → Request → Handled
  cancel_forward self request = elim (unmarshal_forward_request request.payload) [
    | err e ↦ stop self (err e)
    | ok data' ↦
        if ltb 65535 data'.port
        then stop self (err port_out_of_range)
        else answer (deregister_service self data'.host (uint16 data'.port)) request true
  ]

  unfoldable pub handle_request : Connection → Request → Handled
  handle_request self request =
      if request.type == codes "tcpip-forward"
      then forward self request
      else if request.type == codes "cancel-tcpip-forward"
      then cancel_forward self request
      else answer self request false

  -- The endpoints that clients reach have a port that fits 16 bits and is not 0.
  abbrev pub IsValid : Connection → Type 0
  IsValid self =
      (host : Text) (port : ℕ) → lookup_service self host port ≡ true → (0 < port) × (port < 65536)

  lookup-answer :
      (self : Connection) (request : Request) (accepted : Bool) (host : Text) (port : ℕ)
      → lookup_service (answer self request accepted).connection host port
        ≡ lookup_service self host port
  unfolding answer
  lookup-answer self request accepted host port = ground arith

  forward-IsValid :
      (self : Connection) (request : Request)
      → IsValid self
      → IsValid (forward self request).connection
  unfolding forward unmarshal_forward_request answer
  forward-IsValid self request v host port h = elim (Option-cases (unmarshal request.payload)) [
    | inl miss ↦ ground (arith, v host port)
    | inr (data', hit) ↦ ground (
      arith,
      v host port,
      lookup_service-register_service self data'.host (uint16 data'.port) host port,
    )
  ]

  cancel_forward-IsValid :
      (self : Connection) (request : Request)
      → IsValid self
      → IsValid (cancel_forward self request).connection
  unfolding cancel_forward unmarshal_forward_request answer
  cancel_forward-IsValid self request v host port h =
      elim (Option-cases (unmarshal request.payload)) [
        | inl miss ↦ ground (arith, v host port)
        | inr (data', hit) ↦ ground (
          arith,
          v host port,
          lookup_service-deregister_service self data'.host (uint16 data'.port) host port,
        )
      ]

  -- No request makes a connection advertise a port that is 0 or does not fit 16 bits.
  pub handle_request-IsValid :
      (self : Connection) (request : Request)
      → IsValid self
      → IsValid (handle_request self request).connection
  unfolding handle_request answer
  handle_request-IsValid self request v host port h = ground (
    arith,
    v host port,
    forward-IsValid self request v host port,
    cancel_forward-IsValid self request v host port,
  )

  -- A forward request for a port from 1 to 65535 that can be answered adds its endpoint and no other
  -- and is accepted, or, when the endpoint is taken, fails and changes no endpoint.
  pub handle_request_forward :
      (self : Connection) (request : Request) (data' : ForwardRequest) (host : Text) (port : ℕ)
      → request.type ≡ codes "tcpip-forward"
      → unmarshal request.payload ≡ some data'
      → 0 < data'.port
      → data'.port ≤ 65535
      → can_reply ≡ true
      → let after = handle_request self request in
        (after.result ≡ (
          if lookup_service self data'.host data'.port
          then err service_already_registered
          else ok tt))
        × (after.reply ≡ (
            if lookup_service self data'.host data'.port
            then none
            else if request.want_reply
            then some true
            else none))
        × (lookup_service after.connection host port ≡ (
            if (data'.host == host) && (data'.port == port)
            then true
            else lookup_service self host port))
  unfolding handle_request forward unmarshal_forward_request answer
  handle_request_forward self request data' host port t u low high c = ground (
    arith,
    register_service_result self data'.host data'.port,
    lookup_service-register_service self data'.host data'.port host port,
  )

  -- A forward request for the port 0 returns no error, changes nothing and is never answered, also
  -- when the client wants a reply.
  pub handle_request_port_zero :
      (self : Connection) (request : Request) (data' : ForwardRequest)
      → request.type ≡ codes "tcpip-forward"
      → unmarshal request.payload ≡ some data'
      → data'.port ≡ 0
      → handle_request self request ≡ record { connection = self; reply = none; result = ok tt }
  unfolding handle_request forward unmarshal_forward_request
  handle_request_port_zero self request data' t u z = ground arith
