-- ===== src/Gateway/Kick.antt =====
-- gateway/gateway.go, kickUser and ScavengeConnections: which connections are closed.
use gatewaysshd.Common.{
  Bool-cases, ==_refl, inl, inr, ◌≢◌, ℕ, ◌-◌, ◌≡◌, refl, ap, ◌∙◌, Bool, true, false, ◌&&◌, ◌||◌,
  List, [], ◌∷◌, Option, none, some, Text, ◌==◌, text_key, nat_key, if◌then◌else◌, select, ltb,
  arith,
}
use gatewaysshd.Connection.{Connection}
use gatewaysshd.Gateway.{
  Gateway, close_connection, close_all, close_each, scavenge_connections, kick_user,
}

abbrev pub contains : List ℕ → ℕ → Bool
contains [] c = false
contains (x ∷ xs) c = x == c || contains xs c

abbrev pub closed_if : Bool → Connection → Connection
closed_if closing connection = if closing then record connection { closed = true } else connection

contains-select :
    (p : ℕ → Bool) (xs : List ℕ) (c : ℕ) → contains (select p xs) c ≡ (contains xs c && p c)
contains-select p [] c = refl
contains-select p (x ∷ xs) c = ground (arith, contains-select p xs c)

pub store-close_all :
    (self : Gateway) (xs : List ℕ) (c : ℕ)
    → (close_all self xs).store c ≡ closed_if (contains xs c) (self.store c)
unfolding close_all close_connection
store-close_all self [] c = refl
store-close_all self (x ∷ xs) c = ground (arith, store-close_all (close_connection self x) xs c)

registry-close_all :
    (self : Gateway) (xs : List ℕ)
    → ((close_all self xs).connections_list ≡ self.connections_list)
      × ((close_all self xs).connections_index ≡ self.connections_index)
unfolding close_all close_connection
registry-close_all self [] = (refl, refl)
registry-close_all self (x ∷ xs) = registry-close_all (close_connection self x) xs

-- A kick closes the listed connections of the user and changes nothing else of any connection. It
-- leaves the registry alone, and hands the user to the callback where one is set.
pub kick_user_lem {ℓ} :
    {S : Type ℓ} (revoke : Option (Text → S → S)) (self : Gateway) (flags : S) (user : Text) (c : ℕ)
    → let after = kick_user revoke (self, flags) user in
      (after.0.store c
        ≡ closed_if
            (contains self.connections_list c && ((self.store c).user == user))
            (self.store c))
      × (after.0.connections_list ≡ self.connections_list)
      × (after.0.connections_index ≡ self.connections_index)
      × (after.1 ≡ elim revoke [ none ↦ flags | some f ↦ f user flags ])
unfolding kick_user
kick_user_lem revoke self flags user c =
    let chosen = select (λ x. (self.store x).user == user) self.connections_list in
    (
      store-close_all self chosen c
          ∙ ap (λ b. closed_if b (self.store c))
              (contains-select (λ x. (self.store x).user == user) self.connections_list c),
      (registry-close_all self chosen).0,
      (registry-close_all self chosen).1,
      refl,
    )

-- Those that are told to end: up to the first whose close does not return.
unfoldable pub told : (ℕ → Bool) → List ℕ → List ℕ
told returns [] = []
told returns (x ∷ xs) = x ∷ (if returns x then told returns xs else [])

pub store-close_each :
    (returns : ℕ → Bool) (self : Gateway) (xs : List ℕ) (c : ℕ)
    → (close_each returns self xs).0.store c
      ≡ closed_if (contains (told returns xs) c) (self.store c)
unfolding close_each close_connection told
store-close_each returns self [] c = refl
store-close_each returns self (x ∷ xs) c =
    ground (arith, store-close_each returns (close_connection self x) xs c)

contains-told :
    (returns : ℕ → Bool) (xs : List ℕ) (c : ℕ)
    → contains xs c ≡ true
    → ((x : ℕ) → contains xs x ≡ true → x ≢ c → returns x ≡ true)
    → contains (told returns xs) c ≡ true
unfolding told
contains-told returns [] c m others = m
contains-told returns (x ∷ xs) c m others = elim (Bool-cases (x == c)) [
  | inl hit ↦ ground arith
  | inr apart ↦
      (let free = others x (ground (arith, ==_refl x)) (λ e. ground (arith, e)) in
        let rest =
          contains-told returns xs c (ground arith)
            (λ y listed. others y (ground (arith, listed))) in
        ground (arith, free, rest))
]

-- The scavenger closes a connection that is listed and was idle for longer than the timeout, if the
-- closes of the others return that are.
pub scavenge_connections_closes :
    (returns : ℕ → Bool) (used_at now : ℕ → ℕ) (self : Gateway) (timeout c : ℕ)
    → contains self.connections_list c ≡ true
    → ltb timeout (now c - used_at c) ≡ true
    → ((x : ℕ)
        → contains self.connections_list x ≡ true
        → ltb timeout (now x - used_at x) ≡ true
        → x ≢ c
        → returns x ≡ true)
    → ((scavenge_connections returns used_at now self timeout).0.store c).closed ≡ true
unfolding scavenge_connections
scavenge_connections_closes returns used_at now self timeout c listed idle others =
    let is_idle : ℕ → Bool = λ x. ltb timeout (now x - used_at x) in
    let chosen = select is_idle self.connections_list in
    let member = contains-select is_idle self.connections_list in
    let reached =
      contains-told returns chosen c (ground (arith, member c))
        (λ x m. others x (ground (arith, member x, m)) (ground (arith, member x, m))) in
    ground (arith, store-close_each returns self chosen c, reached)

-- It opens no connection again.
pub scavenge_connections_keeps :
    (returns : ℕ → Bool) (used_at now : ℕ → ℕ) (self : Gateway) (timeout c : ℕ)
    → (self.store c).closed ≡ true
    → ((scavenge_connections returns used_at now self timeout).0.store c).closed ≡ true
unfolding scavenge_connections
scavenge_connections_keeps returns used_at now self timeout c closed =
    let chosen = select (λ x. ltb timeout (now x - used_at x)) self.connections_list in
    ground (arith, store-close_each returns self chosen c)
