-- ===== src/Mesh/Rounds.antt =====
-- gateway/peer.go, runPeers: the rounds of a node that has an id. In each it registers itself again,
-- looks for nodes to connect to, and removes the peers that do not answer.
use gatewaysshd.Common.{
  ℕ, ◌+◌, ◌<◌, ◌≡◌, ◌≢◌, ◌⊎◌, refl, ap, ◌∙◌, subst, Bool, true, false, List, [], ◌∷◌, none, some,
  Text, ◌==◌, text_key, nat_key, if◌then◌else◌, arith, Member, inl, inr, Bool-cases,
  Member-select_keeps,
}
use gatewaysshd.Common.Dict.{Dict, lookup, lookup-delete, lookup-insert}
use gatewaysshd.Errors.{Result, ok, err}
use gatewaysshd.Db.{Node, Db, put_node, list_nodes}
use gatewaysshd.Heartbeat.{online_stale_threshold}
use gatewaysshd.Mesh.{Mesh, Peer, get_peer, remove_peer}
use gatewaysshd.Mesh.Peers.{get_peer-remove_peer}
use gatewaysshd.Mesh.Discovery.{
  Settings, register_node, discover_peers, evict_peers, registered, lookup-register_node, is_dialed,
  is_dialed-registered, lookup-Member,
}

unfoldable pub peers_in : Dict Text Peer → List Peer
peers_in [] = []
peers_in ((node_id, peer) ∷ rest) = peer ∷ peers_in rest

unfoldable pub list_peers : Mesh → List Peer
unfolding peers_in
list_peers self = peers_in self.peers

pub record Round : Type 0 where
  pub db : Db
  -- the nodes that are dialed, each in a goroutine of its own
  pub dialed : List (Text × Node)
  pub mesh : Mesh

abbrev written : Db → Result Db → Db
written db (ok db') = db'
written db (err e) = db

-- One round: an error is logged, and the round goes on. `reachable` says whether the database is.
unfoldable pub run_round : Settings → Bool → (Peer → Bool) → Mesh → Db → ℕ → Round
run_round settings reachable answers self db now =
    let db' = if reachable then written db (register_node settings db true now) else db in
    record {
      db = db';
      dialed = if reachable then discover_peers settings self db' now else [];
      mesh = evict_peers answers self (list_peers self);
    }

pub Member-peers_in :
    (node_id : Text) (peer : Peer) (peers : Dict Text Peer)
    → lookup node_id peers ≡ some peer
    → Member peer (peers_in peers)
unfolding lookup peers_in
Member-peers_in node_id peer [] h = cc
Member-peers_in node_id peer ((j, p) ∷ peers) h = ground (arith, Member-peers_in node_id peer peers)

remove_peer_free :
    (self : Mesh) (peer : Peer) (node_id : Text)
    → get_peer self node_id ≡ none
    → get_peer (remove_peer self peer) node_id ≡ none
unfolding remove_peer get_peer
remove_peer_free self peer node_id free =
    ground (arith, lookup-delete peer.node_id node_id self.peers)

stays_free :
    (answers : Peer → Bool) (self : Mesh) (peers : List Peer) (node_id : Text)
    → get_peer self node_id ≡ none
    → get_peer (evict_peers answers self peers) node_id ≡ none
unfolding evict_peers
stays_free answers self [] node_id free = free
stays_free answers self (peer ∷ peers) node_id free = elim (Bool-cases (answers peer)) [
  | inl alive ↦ rw alive (stays_free answers self peers node_id free)
  | inr silent ↦ rw silent (
      stays_free answers (remove_peer self peer) peers node_id
        (remove_peer_free self peer node_id free))
]

-- A peer is removed, or another one was and this one is still held.
remove_peer-cases :
    (self : Mesh) (p peer : Peer)
    → get_peer self peer.node_id ≡ some peer
    → (get_peer (remove_peer self p) peer.node_id ≡ none)
      ⊎ ((get_peer (remove_peer self p) peer.node_id ≡ some peer) × (peer ≢ p))
remove_peer-cases self p peer held =
    let removed = get_peer-remove_peer self p peer.node_id peer held in
    elim (Bool-cases (p.node_id == peer.node_id)) [
      | inr elsewhere ↦
          inr (ground (arith, removed), λ e. ground (arith, ap (λ (x : Peer). x.node_id) e))
      | inl hit ↦ elim (Bool-cases (peer.pointer == p.pointer)) [
        | inl same ↦ inl (ground (arith, removed))
        | inr other ↦
            inr (ground (arith, removed), λ e. ground (arith, ap (λ (x : Peer). x.pointer) e))
      ]
    ]

evicts :
    (answers : Peer → Bool) (self : Mesh) (peers : List Peer) (peer : Peer)
    → get_peer self peer.node_id ≡ some peer
    → Member peer peers
    → answers peer ≡ false
    → get_peer (evict_peers answers self peers) peer.node_id ≡ none
unfolding evict_peers
evicts answers self [] peer held m silent = absurd m
evicts answers self (p ∷ peers) peer held m silent = elim (Bool-cases (answers p)) [
  | inl alive ↦ elim m [
    | inl e ↦ absurd (ground (arith, ap answers e))
    | inr later ↦ rw alive (evicts answers self peers peer held later silent)
  ]
  | inr dead ↦ elim (remove_peer-cases self p peer held) [
    | inl gone ↦ rw dead (stays_free answers (remove_peer self p) peers peer.node_id gone)
    | inr (still, other) ↦ elim m [
      | inl e ↦ absurd (other e)
      | inr later ↦ rw dead (evicts answers (remove_peer self p) peers peer still later silent)
    ]
  ]
]

-- The registration of this node leaves the rows of the others.
other_row :
    (settings : Settings) (db : Db) (now : ℕ) (id : Text)
    → settings.node_id ≢ id
    → lookup id (written db (register_node settings db true now)).nodes ≡ lookup id db.nodes
unfolding register_node put_node
other_row settings db now id other =
    ground
      (arith, other, lookup-insert settings.node_id id (registered settings db true now) db.nodes)

-- A peer that does not answer in a round is removed in it; and if its node registered itself as online
-- past the zero time, at an address, then the next round in which the database is in reach dials that
-- node again, within the threshold, at the address and with the host key that it registered.
pub run_round_redials :
    (settings others : Settings) (answers answers_later : Peer → Bool) (reachable : Bool)
    (self : Mesh) (db db_then db' : Db) (now registered_at later : ℕ) (peer : Peer)
    → get_peer self peer.node_id ≡ some peer
    → answers peer ≡ false
    → register_node others db_then true registered_at ≡ ok db'
    → peer.node_id ≡ others.node_id
    → others.node_id ≢ []
    → others.node_address ≢ []
    → settings.node_id ≢ others.node_id
    → settings.peers_out ≡ true
    → 0 < registered_at
    → later < registered_at + online_stale_threshold
    → let first = run_round settings reachable answers self db now in
      (get_peer first.mesh peer.node_id ≡ none)
      × ((node : Node) × Member
            (others.node_id, node)
            (run_round settings true answers_later first.mesh db' later).dialed
          × (node.address ≡ others.node_address)
          × (node.host_public_key ≡ others.host_public_key))
unfolding run_round list_peers get_peer discover_peers list_nodes is_dialed register_node
run_round_redials settings others answers answers_later reachable self db db_then db' now
      registered_at later peer held silent e named id address other out start within =
    let gone =
      evicts answers self (peers_in self.peers) peer held
        (Member-peers_in peer.node_id peer self.peers held) silent in
    let free =
      subst (λ id. get_peer (evict_peers answers self (list_peers self)) id ≡ none) named gone in
    let node = registered others db_then true registered_at in
    let db'' = written db' (register_node settings db' true later) in
    let row =
      other_row settings db' later others.node_id other
      ∙ lookup-register_node others db_then true registered_at {db' = db'} id e in
    let due =
      is_dialed-registered others settings (evict_peers answers self (list_peers self)) db_then
        registered_at later address other free start within in
    (
      gone,
      (
        node,
        rw out (
            Member-select_keeps
              (is_dialed settings (evict_peers answers self (list_peers self)) later)
              (others.node_id, node) db''.nodes (lookup-Member others.node_id node db''.nodes row)
              due),
        refl,
        refl,
      ),
    )
