-- ===== src/Mesh/Discovery.antt =====
-- The registration and discovery of nodes in gateway/peer.go, over the table of nodes of Db.
use gatewaysshd.Common.{
  ℕ, ◌+◌, ◌<◌, ◌≡◌, ◌≢◌, refl, Bool, true, false, not, ◌&&◌, ◌||◌, List, [], ◌∷◌, none, some, Text,
  ◌==◌, text_key, nat_key, if◌then◌else◌, arith, select, Member, inl, inr, Member-select,
  Bool-cases, Member-select_keeps,
}
use gatewaysshd.Common.Dict.{Dict, lookup, lookup-insert}
use gatewaysshd.Errors.{Result, ok, err}
use gatewaysshd.Db.{Node, Db, put_node, list_nodes}
use gatewaysshd.Heartbeat.{is_heartbeat_fresh, online_stale_threshold}
use gatewaysshd.Mesh.{Mesh, Peer, get_peer, remove_peer}

pub record Settings : Type 0 where
  pub node_id : Text
  pub node_address : Text
  pub host_public_key : Text
  -- whether a node signer is set
  pub peers_out : Bool

-- registerNode; a node with no id is not registered.
unfoldable pub register_node : Settings → Db → Bool → ℕ → Result Db
register_node settings db online now =
    if settings.node_id == []
    then ok db
    else elim (put_node db settings.node_id
        (λ node. ok (record node {
          address = settings.node_address;
          host_public_key = settings.host_public_key;
          online = online;
          online_at = now;
        }))
        now) [ err e ↦ err e | ok (db', node) ↦ ok db' ]

unfoldable pub is_node_online : ℕ → Node → Bool
is_node_online now node = node.online && is_heartbeat_fresh now node.online_at

abbrev has_peer : Mesh → Text → Bool
has_peer self node_id = elim (get_peer self node_id) [ none ↦ false | some peer ↦ true ]

-- The test of the loop of discoverPeers.
unfoldable pub is_dialed : Settings → Mesh → ℕ → Text × Node → Bool
is_dialed settings self now (id, node) =
    not (not (is_node_online now node) || node.address == [] || id == settings.node_id)
    && not (has_peer self id)

-- The nodes that discoverPeers connects to.
unfoldable pub discover_peers : Settings → Mesh → Db → ℕ → List (Text × Node)
discover_peers settings self db now =
    if settings.peers_out then select (is_dialed settings self now) (list_nodes db) else []

-- The round of pings of runPeers: a peer that does not answer is removed.
unfoldable pub evict_peers : (Peer → Bool) → Mesh → List Peer → Mesh
evict_peers answers self [] = self
evict_peers answers self (peer ∷ peers) =
    evict_peers answers (if answers peer then self else remove_peer self peer) peers

pub lookup-Member :
    (id : Text) (node : Node) (m : Dict Text Node) → lookup id m ≡ some node → Member (id, node) m
unfolding lookup
lookup-Member id node [] h = cc
lookup-Member id node ((j, n) ∷ m) h = ground (arith, lookup-Member id node m)

-- The row that a registration writes over the old one.
abbrev pub registered : Settings → Db → Bool → ℕ → Node
registered settings db online now = record {
  created_at = elim (lookup settings.node_id db.nodes) [ none ↦ now | some old ↦ old.created_at ];
  modified_at = now;
  address = settings.node_address;
  host_public_key = settings.host_public_key;
  online = online;
  online_at = now;
}

pub lookup-register_node :
    (settings : Settings) (db : Db) (online : Bool) (now : ℕ) {db' : Db}
    → settings.node_id ≢ []
    → register_node settings db online now ≡ ok db'
    → lookup settings.node_id db'.nodes ≡ some (registered settings db online now)
unfolding register_node put_node
lookup-register_node settings db online now named e = ground (
  arith,
  lookup-insert settings.node_id settings.node_id (registered settings db online now) db.nodes,
)

pub is_dialed-registered :
    (settings others : Settings) (self : Mesh) (db : Db) (now later : ℕ)
    → settings.node_address ≢ []
    → others.node_id ≢ settings.node_id
    → get_peer self settings.node_id ≡ none
    → 0 < now
    → later < now + online_stale_threshold
    → is_dialed others self later (settings.node_id, registered settings db true now) ≡ true
unfolding is_dialed is_node_online is_heartbeat_fresh
is_dialed-registered settings others self db now later address other free start within =
    ground (arith, other)

-- A node that registered as online at an address, past the zero time, is dialed by another node that
-- makes outbound connections, with the address and the host key registered, at any time within the
-- threshold, if that node has no peer for it yet.
pub discover_peers-register_node :
    (settings others : Settings) (self : Mesh) (db : Db) (now later : ℕ) {db' : Db}
    → register_node settings db true now ≡ ok db'
    → settings.node_id ≢ []
    → settings.node_address ≢ []
    → others.node_id ≢ settings.node_id
    → others.peers_out ≡ true
    → get_peer self settings.node_id ≡ none
    → 0 < now
    → later < now + online_stale_threshold
    → (node : Node) × Member (settings.node_id, node) (discover_peers others self db' later)
      × (node.address ≡ settings.node_address)
      × (node.host_public_key ≡ settings.host_public_key)
unfolding discover_peers list_nodes is_dialed
discover_peers-register_node settings others self db now later {db'} e named address other out free
      start within =
    let node = registered settings db true now in
    let row = lookup-register_node settings db true now {db' = db'} named e in
    (
      node,
      rw out (
          Member-select_keeps (is_dialed others self later) (settings.node_id, node) db'.nodes
            (lookup-Member settings.node_id node db'.nodes row)
            (is_dialed-registered settings others self db now later address other free start
              within)),
      refl,
      refl,
    )

pub is_dialed_sound :
    (settings : Settings) (self : Mesh) (now : ℕ) (id : Text) (node : Node)
    → is_dialed settings self now (id, node) ≡ true
    → (node.online ≡ true)
      × (now < node.online_at + online_stale_threshold)
      × (node.address ≢ [])
      × (id ≢ settings.node_id)
      × (get_peer self id ≡ none)
unfolding is_dialed is_node_online is_heartbeat_fresh
is_dialed_sound settings self now id node h = ground arith

-- A node that is marked offline, that gives no address, or whose last heartbeat is as old as the
-- threshold, is not dialed; nor is this node itself, or one that has a peer here.
pub discover_peers_sound :
    (settings : Settings) (self : Mesh) (db : Db) (now : ℕ) (id : Text) (node : Node)
    → Member (id, node) (discover_peers settings self db now)
    → (node.online ≡ true)
      × (now < node.online_at + online_stale_threshold)
      × (node.address ≢ [])
      × (id ≢ settings.node_id)
      × (get_peer self id ≡ none)
unfolding discover_peers is_dialed
discover_peers_sound settings self db now id node m = elim (Bool-cases settings.peers_out) [
  | inl out ↦
      is_dialed_sound settings self now id node
        (Member-select (is_dialed settings self now) (id, node) (list_nodes db) (rw out at m)).1
  | inr alone ↦ absurd (rw alone at m)
]
