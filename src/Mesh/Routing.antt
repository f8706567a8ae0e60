-- ===== src/Mesh/Routing.antt =====
-- gateway/gateway.go, lookupRemotePeer: the peer that a tunnel is forwarded to.
use gatewaysshd.Common.{
  ◌≡◌, ◌≢◌, ◌⊎◌, inl, inr, refl, sym, subst, ap, ℕ, ◌∙◌, List, [], ◌∷◌, none, some, Text, text_key,
  arith, Member, Option-cases,
}
use gatewaysshd.Common.Dict.{lookup}
use gatewaysshd.Errors.{Result, ok, Result-cases}
use gatewaysshd.RouteCache
use gatewaysshd.RouteCache.{RouteCache}
use gatewaysshd.RouteCache.History.{get-invalidate}
use gatewaysshd.Gateway.Lookup.{Names}
use gatewaysshd.Mesh.{
  Peer, Mesh, get_peer, candidates, route_of, try_node, try_user, find_peer, lookup_remote_peer,
}
use gatewaysshd.Mesh.Routes.{candidates-Names, Names-candidates}

get_of_get-invalidate :
    (routes : RouteCache) (user other node : Text) (now : ℕ)
    → RouteCache.get (RouteCache.invalidate routes user) other now ≡ some node
    → RouteCache.get routes other now ≡ some node
get_of_get-invalidate routes user other node now h =
    ground (arith, get-invalidate routes user other now)

module _ (node_id : Text) (query : Text → Result Text) (now : ℕ) where
  -- The user is on another node, by the cache or the database, and that node's peer is here.
  pub record Leads (self : Mesh) (user : Text) (node : Text) (peer : Peer) : Type 0 where
    pub named : user ≢ []
    pub routed : (RouteCache.get self.routes user now ≡ some node) ⊎ (query user ≡ ok node)
    pub known : node ≢ []
    pub elsewhere : node ≢ node_id
    pub held : get_peer self node ≡ some peer

  route_of-cases :
      (routes : RouteCache) (user node : Text)
      → route_of node_id query now routes user ≡ ok node
      → (RouteCache.get routes user now ≡ some node) ⊎ (query user ≡ ok node)
  unfolding route_of
  route_of-cases routes user node h = elim (Option-cases (RouteCache.get routes user now)) [
    | inl missed ↦ inr (ground arith)
    | inr (cached, hit) ↦ inl (ground arith)
  ]

  try_user-some :
      (self : Mesh) (user : Text) (peer : Peer)
      → (try_user node_id query now self user).1 ≡ some peer
      → (node : Text) × Leads self user node peer
  unfolding try_user try_node
  try_user-some self user peer h =
      elim (Result-cases (route_of node_id query now self.routes user)) [
        | inl (e, failed) ↦ absurd (ground arith)
        | inr (node, routed) ↦ (
          node,
          record {
            named = ground arith;
            routed = route_of-cases self.routes user node routed;
            known = ground arith;
            elsewhere = ground arith;
            held = ground arith;
          },
        )
      ]

  -- A round that finds nothing leaves the peers, and adds no route.
  peers-try_user :
      (self : Mesh) (user : Text) → (try_user node_id query now self user).0.peers ≡ self.peers
  unfolding try_user try_node
  peers-try_user self user = ground arith

  try_user-none :
      (self : Mesh) (user other node : Text)
      → (try_user node_id query now self user).1 ≡ none
      → RouteCache.get (try_user node_id query now self user).0.routes other now ≡ some node
      → RouteCache.get self.routes other now ≡ some node
  unfolding try_user try_node
  try_user-none self user other node h =
      ground (arith, get_of_get-invalidate self.routes user other node now)

  -- Nor does it forget the route of a user whose node has a peer.
  try_user_keeps :
      (self : Mesh) (user other node : Text) (peer : Peer)
      → (try_user node_id query now self user).1 ≡ none
      → route_of node_id query now self.routes other ≡ ok node
      → get_peer self node ≡ some peer
      → route_of node_id query now (try_user node_id query now self user).0.routes other ≡ ok node
  unfolding try_user try_node route_of
  try_user_keeps self user other node peer h routed held =
      ground (arith, get-invalidate self.routes user other now)

  get_peer-try_user :
      (self : Mesh) (user node : Text)
      → get_peer (try_user node_id query now self user).0 node ≡ get_peer self node
  unfolding get_peer
  get_peer-try_user self user node = ap (lookup node) (peers-try_user self user)

  Leads-earlier :
      (self : Mesh) (user other node : Text) (peer : Peer)
      → (try_user node_id query now self user).1 ≡ none
      → Leads (try_user node_id query now self user).0 other node peer
      → Leads self other node peer
  Leads-earlier self user other node peer missed l = record {
    named = l.named;
    routed = elim l.routed [
      | inl cached ↦ inl (try_user-none self user other node missed cached)
      | inr read ↦ inr read
    ];
    known = l.known;
    elsewhere = l.elsewhere;
    held = sym (get_peer-try_user self user node) ∙ l.held;
  }

  try_user-ne-none :
      (self : Mesh) (user node : Text) (peer : Peer)
      → user ≢ []
      → route_of node_id query now self.routes user ≡ ok node
      → node ≢ []
      → node ≢ node_id
      → get_peer self node ≡ some peer
      → (try_user node_id query now self user).1 ≡ some peer
  unfolding try_user try_node
  try_user-ne-none self user node peer named routed known elsewhere held = ground arith

  find_peer-some :
      (self : Mesh) (users : List Text) (peer : Peer)
      → (find_peer node_id query now self users).1 ≡ some peer
      → (user : Text) × Member user users × ((node : Text) × Leads self user node peer)
  unfolding find_peer
  find_peer-some self [] peer h = cc
  find_peer-some self (user ∷ users) peer h =
      elim (Option-cases (try_user node_id query now self user).1) [
        | inl missed ↦
            let after = (try_user node_id query now self user).0 in
            let (u, m, (node, l)) = find_peer-some after users peer (ground arith) in
            (u, inr m, (node, Leads-earlier self user u node peer missed l))
        | inr (p, hit) ↦ (user, inl refl, try_user-some self user peer (ground arith))
      ]

  find_peer-ne-none :
      (self : Mesh) (users : List Text) (user node : Text) (peer : Peer)
      → Member user users
      → user ≢ []
      → route_of node_id query now self.routes user ≡ ok node
      → node ≢ []
      → node ≢ node_id
      → get_peer self node ≡ some peer
      → (find_peer node_id query now self users).1 ≢ none
  unfolding find_peer
  find_peer-ne-none self [] user node peer m named routed known elsewhere held h = absurd m
  find_peer-ne-none self (x ∷ xs) user node peer (inl e) named routed known elsewhere held h =
      let found =
        try_user-ne-none self x node peer (subst (λ u. u ≢ []) e named)
          (subst (λ u. route_of node_id query now self.routes u ≡ ok node) e routed) known elsewhere
          held in
      ground (arith, found)
  find_peer-ne-none self (x ∷ xs) user node peer (inr m) named routed known elsewhere held h =
      elim (Option-cases (try_user node_id query now self x).1) [
        | inl missed ↦
            find_peer-ne-none (try_user node_id query now self x).0 xs user node peer m named
              (try_user_keeps self x user node peer missed routed held) known elsewhere
              (get_peer-try_user self x node ∙ held) (ground arith)
        | inr (p, hit) ↦ absurd (ground arith)
      ]

  -- The peer that a tunnel is forwarded to leads to another node, where the cache or the database
  -- puts a user that the host name names.
  pub lookup_remote_peer_sound :
      (self : Mesh) (host : Text) (peer : Peer)
      → (lookup_remote_peer node_id query now self host).1 ≡ some peer
      → (user service : Text) × Names host service user
        × ((node : Text) × Leads self user node peer)
  unfolding lookup_remote_peer
  lookup_remote_peer_sound self host peer h =
      let (user, m, led) = find_peer-some self (candidates host) peer (ground arith) in
      let (service, n) = candidates-Names host user m in (user, service, n, led)

  -- An error of the database for one user does not hide another: in a mesh, if any user that the
  -- host name names is on another node that has a peer here, by the cache or by the database, a peer
  -- is found.
  pub lookup_remote_peer_complete :
      (self : Mesh) (host service user node : Text) (peer : Peer)
      → node_id ≢ []
      → Names host service user
      → user ≢ []
      → route_of node_id query now self.routes user ≡ ok node
      → node ≢ []
      → node ≢ node_id
      → get_peer self node ≡ some peer
      → (lookup_remote_peer node_id query now self host).1 ≢ none
  unfolding lookup_remote_peer
  lookup_remote_peer_complete self host service user node peer mesh n named routed known elsewhere
        held h =
      find_peer-ne-none self (candidates host) user node peer (Names-candidates host service user n)
        named routed known elsewhere held (ground arith)
