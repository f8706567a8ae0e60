-- ===== src/Life/Ending.antt =====
-- gateway/connection.go and gateway/gateway.go: what is left of a connection when it has ended.
use gatewaysshd.Common.{
  ℕ, ◌≡◌, ◌≢◌, refl, Bool, false, not, ◌||◌, List, [], ◌∷◌, Option, some, Text, ◌==◌, text_key,
  nat_key, if◌then◌else◌, select, Member, arith, subst, length, ltb, Member-select,
}
use gatewaysshd.Connection.Requests.{ForwardRequest}
use gatewaysshd.Channels.{Environment}
use gatewaysshd.Gateway.{Gateway, delete_connection, lookup_connection_service}
use gatewaysshd.Gateway.Index.{IsIndexed, delete_connection-IsIndexed}
use gatewaysshd.Gateway.Lookup.{lookup_connection_service_sound}
use gatewaysshd.Db.{clear_user_node_id}
use gatewaysshd.Heartbeat.{release_user_node}
use gatewaysshd.Life.{State, unlist, release, finish}
use gatewaysshd.Life.Registry.{Reach, Reach-IsIndexed}

-- A connection of the user is listed.
unfoldable pub is_listed : Gateway → Text → List ℕ → Bool
is_listed self user [] = false
is_listed self user (x ∷ xs) = ((self.store x).user == user) || is_listed self user xs

left_of_user :
    (self : Gateway) (user : Text) (xs : List ℕ)
    → ltb 0 (length (select (λ x. (self.store x).user == user) xs)) ≡ is_listed self user xs
unfolding is_listed
left_of_user self user [] = refl
left_of_user self user (x ∷ xs) = ground (arith, left_of_user self user xs)

-- Where the goroutine of a user's connection ends in a mesh, and the registry changes in any way
-- before it is read, the row of the user gives up this node if no connection of the user is listed
-- at the read and the database can be reached, and is left alone otherwise. What comes between the
-- read and the statement is not seen.
pub finish_releases :
    (unmarshal : Text → Option ForwardRequest) (can_reply : Bool) (env : Environment)
    (node_id : Text) (reachable : Bool) (c now : ℕ) (before_read before_clear : State → State)
    (self : State)
    → IsIndexed self.gateway
    → Reach unmarshal can_reply env node_id (unlist c self) (before_read (unlist c self))
    → node_id ≢ []
    → (self.gateway.store c).user ≢ []
    → let user = (self.gateway.store c).user in
      let read = before_read (unlist c self) in
      (finish node_id reachable c now before_read before_clear self).db ≡ (
        if is_listed read.gateway user read.gateway.connections_list || not reachable
        then (before_clear read).db
        else clear_user_node_id (before_clear read).db user node_id now)
unfolding finish unlist release release_user_node
finish_releases unmarshal can_reply env node_id reachable c now before_read before_clear self v run
      named user_named =
    let user = (self.gateway.store c).user in
    let read = before_read (unlist c self) in
    let kept =
      Reach-IsIndexed unmarshal can_reply env node_id run
        (delete_connection-IsIndexed self.gateway c v) in
    ground (arith, kept.indexed user, left_of_user read.gateway user read.gateway.connections_list)

-- Once a connection is taken out of the registry, a lookup finds no service at it any more, but only
-- at the other connections that were listed.
pub lookup_connection_service-unlist :
    (c : ℕ) (self : State)
    → IsIndexed self.gateway
    → (host service : Text) (port found : ℕ)
    → lookup_connection_service (unlist c self).gateway host port ≡ some (found, service)
    → (found ≢ c) × Member found self.gateway.connections_list
unfolding unlist delete_connection
lookup_connection_service-unlist c self v host service port found h =
    let after = delete_connection self.gateway c in
    let (user, _, held, _) =
      lookup_connection_service_sound after host port {found = found} {service = service} h in
    let listed =
      subst (Member found) ((delete_connection-IsIndexed self.gateway c v).indexed user) held in
    let kept =
      (Member-select (λ x. (self.gateway.store x).user == user) found
        (select (λ x. not (x == c)) self.gateway.connections_list) listed).0 in
    let (member, other) =
      Member-select (λ x. not (x == c)) found self.gateway.connections_list kept in
    ((λ e. ground (arith, other)), member)
