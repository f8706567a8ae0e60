-- ===== src/Tests/Lives.antt =====
-- Tests of the lives of connections and of peers.
use gatewaysshd.Common.{
  ◌≡◌, ◌≢◌, refl, inl, inr, true, not, ◌||◌, [], ◌∷◌, Option, none, Text, text_key, nat_key,
  if◌then◌else◌, Member, arith,
}
use gatewaysshd.Connection.Requests.{ForwardRequest}
use gatewaysshd.Gateway.Index.{IsIndexed}
use gatewaysshd.Db.{clear_user_node_id}
use gatewaysshd.Mesh.{add_peer, remove_peer}
use gatewaysshd.Mesh.Peering.{Peering, Reach, starts, dials, new_peer, take_in, close}
use gatewaysshd.Mesh.Peering.Live.{IsLive, Reach-IsLive}
use gatewaysshd.Life.{State, publish, receive, unlist, release, finish}
use gatewaysshd.Life.Registry
use gatewaysshd.Life.Registry.{Reach-IsIndexed}
use gatewaysshd.Life.Ending.{is_listed, finish_releases}
use gatewaysshd.Tests.{program, alice, n1, n2, empty_gateway, gateway, mesh, db}
use gatewaysshd.Tests.Registry.{gateway-IsIndexed, empty_gateway-IsIndexed}
use gatewaysshd.Tests.Forwarding.{environment}

abbrev empty_state : State
empty_state = record { gateway = empty_gateway; mesh = mesh; db = db }

abbrev decode : Text → Option ForwardRequest
decode payload = none

program' : Unit {0}
unfolding program publish receive unlist release finish take_in close add_peer remove_peer is_listed
program' = tt

abbrev published : State
published = record empty_state { gateway = publish 7 [] alice [] empty_gateway }

listed : Member 7 published.gateway.connections_list
unfolding program'
listed = inl refl

-- Alice connects, her connection ends, and she is released.
abbrev ended_state : State
ended_state = release n1 true (unlist 7 published).gateway alice 300 (unlist 7 published)

path : Registry.Reach decode true environment n1 empty_state ended_state
path =
    Registry.next
      (Registry.next (Registry.next Registry.here (Registry.publishes 7 [] alice [] (λ m. m)))
        (Registry.unlists 7 listed))
      (Registry.releases true (unlist 7 published).gateway alice 300)

Reach-IsIndexed_example : IsIndexed ended_state.gateway
Reach-IsIndexed_example =
    Reach-IsIndexed decode true environment n1 {start = empty_state} {self = ended_state} path
      empty_gateway-IsIndexed

-- Alice has the connections 7 and 8, and 8 ends.
abbrev two : State
two = record { gateway = publish 8 [] alice [] gateway; mesh = mesh; db = db }

two-IsIndexed : IsIndexed two.gateway
two-IsIndexed =
    Reach-IsIndexed decode true environment n1
      {start = record { gateway = gateway; mesh = mesh; db = db }} {self = two}
      (Registry.next Registry.here
        (Registry.publishes 8 [] alice [] (λ m. elim m [ inl e ↦ omega (arith, e) | inr n ↦ n ])))
      gateway-IsIndexed

-- The connection 7 ends as well before the registry is read, so that nothing is left of Alice.
abbrev seven_ends : State → State
seven_ends self = unlist 7 self

seven_is_listed : Member 7 (unlist 8 two).gateway.connections_list
unfolding program'
seven_is_listed = inl refl

both_end : Registry.Reach decode true environment n1 (unlist 8 two) (seven_ends (unlist 8 two))
both_end = Registry.next Registry.here (Registry.unlists 7 seven_is_listed)

alice_is_named : (two.gateway.store 8).user ≢ []
unfolding program'
alice_is_named e = ground (arith, e)

finish_releases_example :
    let user = (two.gateway.store 8).user in
    let read = seven_ends (unlist 8 two) in
    (finish n1 true 8 300 seven_ends (λ self. self) two).db ≡ (
      if is_listed read.gateway user read.gateway.connections_list || not true
      then read.db
      else clear_user_node_id read.db user n1 300)
finish_releases_example =
    finish_releases decode true environment n1 true 8 300 seven_ends (λ self. self) two
      two-IsIndexed both_end (λ e. ground arith) alice_is_named

abbrev nobody : Peering
nobody = record { mesh = record mesh { peers = [] }; dialed = 0; closed = [] }

-- The node n2 is dialed twice, and the second client is refused and closed.
reached : Reach (take_in n2 (take_in n2 nobody)) (new_peer n2 0 ∷ []) []
unfolding program'
reached = dials n2 (dials n2 (starts nobody refl refl))

Reach-IsLive_example : IsLive (take_in n2 (take_in n2 nobody)) (new_peer n2 0 ∷ []) []
Reach-IsLive_example = Reach-IsLive reached
