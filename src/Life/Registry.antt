-- ===== src/Life/Registry.antt =====
-- gateway/connection.go and gateway/gateway.go: the registry over any interleaving of connections.
use gatewaysshd.Common.{
  ℕ, ◌≡◌, refl, sym, ◌∙◌, ap, Bool, List, [], ◌∷◌, Option, none, some, Text, ◌==◌, text_key,
  nat_key, select, Member, arith, inl, inr, subst, Bool-cases,
}
use gatewaysshd.Auth.Ssh.{Extensions}
use gatewaysshd.Connection.{
  Connection, Tunnel, add_tunnel, delete_tunnel, register_service, deregister_service,
}
use gatewaysshd.Connection.Requests.{
  ForwardRequest, Request, handle_request, forward, cancel_forward, answer,
  unmarshal_forward_request,
}
use gatewaysshd.Gateway.{change_connection, Gateway, connections_of, write, close_connection}
use gatewaysshd.Gateway.Index.{IsIndexed, add_connection-IsIndexed, delete_connection-IsIndexed}
use gatewaysshd.Channels.{Environment}
use gatewaysshd.Life.{State, Arrival, done, request, channel, publish, receive, unlist, release}

select_agree :
    {A : Type 0} (p q : A → Bool) (xs : List A)
    → ((x : A) → Member x xs → p x ≡ q x)
    → select p xs ≡ select q xs
select_agree p q [] h = refl
select_agree p q (x ∷ xs) h =
    ground (arith, h x (inl refl), select_agree p q xs (λ y m. h y (inr m)))

-- The store may change where it keeps the users of the listed connections.
store-IsIndexed :
    (self : Gateway) (store : ℕ → Connection)
    → ((c : ℕ) → Member c self.connections_list → (store c).user ≡ (self.store c).user)
    → IsIndexed self
    → IsIndexed (record self { store = store })
unfolding connections_of
store-IsIndexed self store same v = record {
  indexed = λ user.
      v.indexed user
      ∙ select_agree (λ c. (self.store c).user == user) (λ c. (store c).user == user)
          self.connections_list (λ c m. ap (λ u. u == user) (sym (same c m)));
  distinct = v.distinct;
}

write-IsIndexed :
    (self : Gateway) (c : ℕ) (connection : Connection)
    → connection.user ≡ (self.store c).user
    → IsIndexed self
    → IsIndexed (record self { store = write self.store c connection })
write-IsIndexed self c connection same v =
    store-IsIndexed self (write self.store c connection)
      (λ x m. elim (Bool-cases (x == c)) [
        | inl hit ↦ ground (arith, same)
        | inr other ↦ ground arith
      ])
      v

user-handle_request :
    (unmarshal : Text → Option ForwardRequest) (can_reply : Bool) (self : Connection) (r : Request)
    → (handle_request unmarshal can_reply self r).connection.user ≡ self.user
unfolding handle_request forward cancel_forward answer unmarshal_forward_request register_service
    deregister_service
user-handle_request unmarshal can_reply self r = ground arith

pub publish-IsIndexed :
    (c : ℕ) (extensions : Extensions) (login_user remote_address : Text) (self : Gateway)
    → ¬ Member c self.connections_list
    → IsIndexed self
    → IsIndexed (publish c extensions login_user remote_address self)
unfolding publish
publish-IsIndexed c extensions login_user remote_address self fresh v =
    add_connection-IsIndexed _ c (
      store-IsIndexed self _
        (λ x m. elim (Bool-cases (x == c)) [
          | inl hit ↦ absurd (fresh (subst (λ y. Member y self.connections_list) (ground arith) m))
          | inr other ↦ ground arith
        ])
        v)

module _ (unmarshal : Text → Option ForwardRequest) (can_reply : Bool) (env : Environment)
    (node_id : Text) where
  -- What happens to the registry, in any order: a connection is published under a number that is not
  -- listed, something arrives on a connection, a tunnel is opened or closed, a connection is told to
  -- end by a kick or by the scavenger, its goroutine takes it out of the registry as it ends, or
  -- releases the user by what it has read of a registry.
  pub data Step (self : State) : State → Type 0 where
    publishes :
        (c : ℕ) (extensions : Extensions) (login_user remote_address : Text)
        → ¬ Member c self.gateway.connections_list
        → Step self
            (record self { gateway = publish c extensions login_user remote_address self.gateway })
    receives :
        (c : ℕ) (arrival : Arrival)
        → Member c self.gateway.connections_list
        → Step self (receive unmarshal can_reply env c arrival self).0
    opens :
        (c : ℕ) (t : Tunnel)
        → Step self (record self {
          gateway = change_connection c (λ connection. add_tunnel connection t) self.gateway;
        })
    closes :
        (c : ℕ) (t : Tunnel)
        → Step self (record self {
          gateway = change_connection c (λ connection. delete_tunnel connection t) self.gateway;
        })
    stops : (c : ℕ) → Step self (record self { gateway = close_connection self.gateway c })
    unlists : (c : ℕ) → Member c self.gateway.connections_list → Step self (unlist c self)
    releases :
        (reachable : Bool) (read : Gateway) (user : Text) (now : ℕ)
        → Step self (release node_id reachable read user now self)

  pub data Reach (start : State) : State → Type 0 where
    here : Reach start start
    next : {self after : State} → Reach start self → Step self after → Reach start after

  receive-IsIndexed :
      (c : ℕ) (arrival : Arrival) (self : State)
      → IsIndexed self.gateway
      → IsIndexed (receive unmarshal can_reply env c arrival self).0.gateway
  unfolding receive
  receive-IsIndexed c done self v = v
  receive-IsIndexed c (request none) self v = v
  receive-IsIndexed c (request (some r)) self v =
      write-IsIndexed self.gateway c _
        (user-handle_request unmarshal can_reply (self.gateway.store c) r) v
  receive-IsIndexed c (channel none) self v = v
  receive-IsIndexed c (channel (some asked)) self v = v

  Step-IsIndexed :
      {self after : State} → Step self after → IsIndexed self.gateway → IsIndexed after.gateway
  unfolding unlist release close_connection add_tunnel delete_tunnel
  Step-IsIndexed {self} (publishes c extensions login_user remote_address fresh) v =
      publish-IsIndexed c extensions login_user remote_address self.gateway fresh v
  Step-IsIndexed {self} (receives c arrival _) v = receive-IsIndexed c arrival self v
  Step-IsIndexed {self} (opens c t) v = write-IsIndexed self.gateway c _ refl v
  Step-IsIndexed {self} (closes c t) v = write-IsIndexed self.gateway c _ refl v
  Step-IsIndexed {self} (stops c) v = write-IsIndexed self.gateway c _ refl v
  Step-IsIndexed {self} (unlists c _) v = delete_connection-IsIndexed self.gateway c v
  Step-IsIndexed {self} (releases reachable read user now) v = v

  -- However connections are published, served, stopped and ended, in any interleaving, the index
  -- stays equal to the list, seen user by user, and holds no user twice.
  pub Reach-IsIndexed :
      {start self : State} → Reach start self → IsIndexed start.gateway → IsIndexed self.gateway
  Reach-IsIndexed here v = v
  Reach-IsIndexed (next r st) v = Step-IsIndexed st (Reach-IsIndexed r v)
