-- ===== src/Tests/Tunnels.antt =====
-- Tests of the tunnels and the requests of a connection.
use gatewaysshd.Common.{
  ◌+◌, ◌-◌, ◌^◌, ◌≡◌, refl, inl, inr, [], ◌∷◌, Option, none, some, Text, codes, text_key, nat_key,
  arith, length,
}
use gatewaysshd.Connection.{Connection, Tunnel, add_tunnel, delete_tunnel, uint64}
use gatewaysshd.Connection.Tunnels.{Reach, here, next, opens, closes, tunnels_active}
use gatewaysshd.Connection.Requests.{ForwardRequest}
use gatewaysshd.Tests.{program, web, alices_connection}

abbrev first : Tunnel
first = record { pointer = 1; channel_type = codes "direct-tcpip" }

abbrev other : Tunnel
other = record { pointer = 2; channel_type = codes "direct-tcpip" }

abbrev two_opened : Connection
two_opened = add_tunnel (add_tunnel alices_connection first) other

-- Two tunnels are opened, and the first is closed.
path : Reach alices_connection (delete_tunnel two_opened first)
unfolding program
path =
    next
      (next (next here (opens alices_connection first (λ e. e)))
        (opens (add_tunnel alices_connection first) other (λ m. ground arith)))
      (closes two_opened first (inr (inl refl)))

tunnels_active_example :
    let self = delete_tunnel two_opened first in
    uint64 (length self.tunnels)
    ≡ uint64 (self.tunnels_opened + 2 ^ 64 - uint64 self.tunnels_closed)
tunnels_active_example =
    tunnels_active {start = alices_connection} {self = delete_tunnel two_opened first} refl refl
      refl path

-- A payload that is a port alone.
abbrev unmarshal : Text → Option ForwardRequest
unmarshal [] = none
unmarshal (port ∷ rest) = some (record { host = web; port = port })
