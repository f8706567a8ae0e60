-- ===== src/Gateway/Lookup.antt =====
-- gateway/gateway.go, lookupConnectionService: which connection serves a host name.
use gatewaysshd.Common.{
  ℕ, zero, suc, ◌<◌, ◌≡◌, ◌≢◌, ◌⊎◌, refl, sym, ◌∙◌, true, List, [], ◌∷◌, ◌++◌, Option, none, some,
  Text, length, length-append, split-append, take-length_append, drop-length_append, split-ne-nil,
  take, drop, split, find_map, Member, arith, inl, inr, find_map-some, find_map-none,
  Member-range_from_lt, Member-range_from, join-take-drop, join-split, subst, join, ap,
}
use gatewaysshd.Connection.{lookup_service}
use gatewaysshd.Gateway.{
  Gateway, connections_of, lookup_connection_service, serve, host_at, user_at, part_indexes, dot,
}

-- A host name names a user by the whole of it, or by what stands behind one of its dots; what
-- stands before that dot is the service.
abbrev pub Names : Text → Text → Text → Type 0
Names host service user = ((service ≡ []) × (user ≡ host)) ⊎ (service ++ (dot ∷ user) ≡ host)

pub Names-at :
    (host : Text) (index : ℕ)
    → index < length (split dot host)
    → Names host (host_at host index) (user_at host index)
unfolding join
Names-at host zero h = inl (refl, join-split dot host)
Names-at host (suc index) h = inr (join-take-drop dot (suc index) host (omega arith) h)

length-split-pos : (s : Text) → 0 < length (split dot s)
length-split-pos s = go (split dot s) (split-ne-nil dot s)
  where
    go : (parts : List Text) → parts ≢ [] → 0 < length parts
    go [] h = absurd (h refl)
    go (p ∷ ps) h = omega arith

-- Each way to read a host name is tried.
pub index_of_Names :
    (host service user : Text)
    → Names host service user
    → (index : ℕ) × (index < length (split dot host))
      × (host_at host index ≡ service)
      × (user_at host index ≡ user)
unfolding join
index_of_Names host service user (inl (no_service, whole)) =
    (0, length-split-pos host, sym no_service, join-split dot host ∙ sym whole)
index_of_Names host service user (inr e) =
    let parts = split dot service in
    let cut = ap (split dot) (sym e) ∙ split-append dot service user in
    (
      length parts,
      omega (arith, ap length cut, length-append parts (split dot user), length-split-pos user),
      ap (λ xs. join dot (take (length parts) xs)) cut
          ∙ ap (join dot) (take-length_append parts (split dot user))
          ∙ join-split dot service,
      ap (λ xs. join dot (drop (length parts) xs)) cut
          ∙ ap (join dot) (drop-length_append parts (split dot user))
          ∙ join-split dot user,
    )

serve-ne-none :
    (self : Gateway) (host : Text) (port c : ℕ)
    → lookup_service (self.store c) host port ≡ true
    → serve self host port c ≢ none
unfolding serve
serve-ne-none self host port c h e = ground arith

abbrev Serves : Gateway → Text → ℕ → ℕ → Text → Type 0
Serves self host port found service =
    (user : Text) × Names host service user
    × Member found (connections_of self user)
    × (lookup_service (self.store found) service port ≡ true)

serve-Serves :
    (self : Gateway) (host : Text) (port index c found : ℕ) (service : Text)
    → index < length (split dot host)
    → Member c (connections_of self (user_at host index))
    → serve self (host_at host index) port c ≡ some (found, service)
    → Serves self host port found service
unfolding serve
serve-Serves self host port index c found service bound held e =
    let same : c ≡ found = ground arith in
    let asked : host_at host index ≡ service = ground arith in
    let served : lookup_service (self.store c) (host_at host index) port ≡ true = ground arith in
    (
      user_at host index,
      subst (λ s. Names host s (user_at host index)) asked (Names-at host index bound),
      subst (λ x. Member x (connections_of self (user_at host index))) same held,
      subst (λ x. lookup_service (self.store x) service port ≡ true) same
          (subst (λ s. lookup_service (self.store c) s port ≡ true) asked served),
    )

-- The search among the connections of the user at one part.
abbrev search_at : Gateway → Text → ℕ → ℕ → Option (ℕ × Text)
search_at self host port index =
    find_map (serve self (host_at host index) port) (connections_of self (user_at host index))

-- The connection found is one of a user that the host name names, and it advertises the service
-- that the host name then asks it for, at the port.
pub lookup_connection_service_sound :
    (self : Gateway) (host : Text) (port : ℕ) {found : ℕ} {service : Text}
    → lookup_connection_service self host port ≡ some (found, service)
    → (user : Text) × Names host service user
      × Member found (connections_of self user)
      × (lookup_service (self.store found) service port ≡ true)
unfolding lookup_connection_service
lookup_connection_service_sound self host port {found} {service} h =
    let (index, listed, e) = find_map-some (search_at self host port) (part_indexes host) h in
    let (c, held, hit) =
      find_map-some (serve self (host_at host index) port)
        (connections_of self (user_at host index)) e in
    let bound = Member-range_from_lt index 0 (length (split dot host)) listed in
    serve-Serves self host port index c found service (omega (arith, bound)) held hit

-- No connection is missed: if one of a user that the host name names advertises the service,
-- some connection is found.
pub lookup_connection_service_complete :
    (self : Gateway) (host : Text) (port : ℕ) (service user : Text) (c : ℕ)
    → Names host service user
    → Member c (connections_of self user)
    → lookup_service (self.store c) service port ≡ true
    → lookup_connection_service self host port ≢ none
unfolding lookup_connection_service
lookup_connection_service_complete self host port service user c n held served none_found =
    let (index, bound, e, f) = index_of_Names host service user n in
    let listed = Member-range_from index 0 (length (split dot host)) (omega arith) (omega arith) in
    let missed =
      find_map-none (search_at self host port) (part_indexes host) index none_found listed in
    let refused =
      find_map-none (serve self (host_at host index) port)
        (connections_of self (user_at host index)) c missed
        (subst (λ u. Member c (connections_of self u)) (sym f) held) in
    serve-ne-none self (host_at host index) port c
      (subst (λ s. lookup_service (self.store c) s port ≡ true) (sym e) served) refused
