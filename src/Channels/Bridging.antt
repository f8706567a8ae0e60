-- ===== src/Channels/Bridging.antt =====
-- gateway/connection.go and gateway/tunnel.go: a forwarded tunnel from its two ends to its end. The
-- bytes that go through it are not modelled, only that one direction ends at last.
use gatewaysshd.Common.{
  ℕ, ◌≡◌, ◌≢◌, refl, Bool, true, false, Option, none, some, ◌==◌, nat_key, if◌then◌else◌, arith,
  Bool-cases, inl, inr,
}
use gatewaysshd.Connection.{Tunnel, add_tunnel, delete_tunnel}
use gatewaysshd.Connection.Tunnels.{Apart, select_absent}
use gatewaysshd.Gateway.{change_connection, Gateway}
use gatewaysshd.Mesh.{Mesh}
use gatewaysshd.Channels.{Bridge, session, postgres, to_connection, to_peer, after_open}

-- newTunnel; a tunnel of a peer has no connection.
unfoldable pub new_tunnel : Option ℕ → Tunnel → Gateway → Gateway
new_tunnel none opened self = self
new_tunnel (some c) opened self =
    change_connection c (λ connection. add_tunnel connection opened) self

-- The deferred call of tunnel.handleRequests.
unfoldable pub end_requests : Option ℕ → Tunnel → Gateway → Gateway
end_requests none closed self = self
end_requests (some c) closed self =
    change_connection c (λ connection. delete_tunnel connection closed) self

-- The connection at the other end.
abbrev pub other_end : Bridge → Option ℕ
other_end (to_connection c data') = some c
other_end (to_peer peer data') = none
other_end session = none
other_end (postgres address) = none

-- The goroutine of handleTunnelChannel: this end is tracked, the other one is opened, if it can be;
-- and both are closed when the copying ends, which ends their requests.
unfoldable pub run_tunnel : Bool → ℕ → Tunnel → Bridge → Tunnel → Gateway → Mesh → Gateway × Mesh
unfolding new_tunnel end_requests
run_tunnel opened c this_tunnel bridge other_tunnel gateway mesh =
    let tracked = new_tunnel (some c) this_tunnel gateway in
    (
      if opened
          then end_requests (some c) this_tunnel (
              end_requests (other_end bridge) other_tunnel
                (new_tunnel (other_end bridge) other_tunnel tracked))
          else end_requests (some c) this_tunnel tracked,
      after_open opened mesh bridge,
    )

-- No connection has the tunnel.
abbrev pub IsNew : Tunnel → Gateway → Type 0
IsNew t self = (c : ℕ) → Apart t.pointer (self.store c).tunnels

-- A tunnel that is opened and ended at one connection leaves the list of each as it was.
opened_and_ended :
    (end : Option ℕ) (t : Tunnel) (self : Gateway) (x : ℕ)
    → IsNew t self
    → ((end_requests end t (new_tunnel end t self)).store x).tunnels ≡ (self.store x).tunnels
unfolding new_tunnel end_requests add_tunnel delete_tunnel
opened_and_ended none t self x new = refl
opened_and_ended (some c) t self x new =
    ground (arith, select_absent t (self.store c).tunnels (new c))

still-IsNew :
    (c : ℕ) (t other : Tunnel) (self : Gateway)
    → t.pointer ≢ other.pointer
    → IsNew other self
    → IsNew other (new_tunnel (some c) t self)
unfolding new_tunnel add_tunnel
still-IsNew c t other self apart new x = elim (Bool-cases (x == c)) [
  | inl hit ↦ rw hit (apart, new c)
  | inr elsewhere ↦ rw elsewhere (new x)
]

-- What ends the first tunnel depends on the lists alone.
end_again :
    (c : ℕ) (t : Tunnel) (self before : Gateway) (x : ℕ)
    → ((y : ℕ) → (before.store y).tunnels ≡ ((new_tunnel (some c) t self).store y).tunnels)
    → IsNew t self
    → ((end_requests (some c) t before).store x).tunnels ≡ (self.store x).tunnels
unfolding new_tunnel end_requests add_tunnel delete_tunnel
end_again c t self before x same new =
    ground (arith, same x, same c, select_absent t (self.store c).tunnels (new c))

-- However a forwarded tunnel ends, and also if its other end cannot be opened, every connection lists
-- the tunnels that it listed before, if the two ends of it are new.
pub tunnels-run_tunnel :
    (opened : Bool) (c : ℕ) (this_tunnel other_tunnel : Tunnel) (bridge : Bridge)
    (gateway : Gateway) (mesh : Mesh) (x : ℕ)
    → IsNew this_tunnel gateway
    → IsNew other_tunnel gateway
    → this_tunnel.pointer ≢ other_tunnel.pointer
    → ((run_tunnel opened c this_tunnel bridge other_tunnel gateway mesh).0.store x).tunnels
      ≡ (gateway.store x).tunnels
unfolding run_tunnel new_tunnel end_requests add_tunnel delete_tunnel
tunnels-run_tunnel false c this_tunnel other_tunnel bridge gateway mesh x new _ apart =
    opened_and_ended (some c) this_tunnel gateway x new
tunnels-run_tunnel true c this_tunnel other_tunnel bridge gateway mesh x new new_other apart =
    let tracked = new_tunnel (some c) this_tunnel gateway in
    end_again c this_tunnel gateway
      (end_requests (other_end bridge) other_tunnel
        (new_tunnel (other_end bridge) other_tunnel tracked))
      x
      (λ y.
        opened_and_ended (other_end bridge) other_tunnel tracked y
          (still-IsNew c this_tunnel other_tunnel gateway apart new_other))
      new
