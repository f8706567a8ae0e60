-- ===== src/Life/Shutdown.antt =====
-- gateway/gateway.go, Open and Close, and listPeers of gateway/peer.go: the start and the end of a
-- node.
use gatewaysshd.Common.{
  ℕ, ◌≡◌, ◌≢◌, ap, Bool, true, false, not, ◌&&◌, List, [], ◌∷◌, some, Text, ◌==◌, text_key, nat_key,
  if◌then◌else◌, Member, arith, inl, inr, Bool-cases, Member-select, subst,
}
use gatewaysshd.Common.Dict.{Dict, Distinct, lookup, insert, insert-Distinct}
use gatewaysshd.Errors.{Result, ok, err, database_failed}
use gatewaysshd.Gateway.{Gateway, close_all}
use gatewaysshd.Gateway.Kick.{contains, closed_if, store-close_all}
use gatewaysshd.RouteCache.{new_route_cache}
use gatewaysshd.Db.{Db, Node, list_nodes, put_node}
use gatewaysshd.Mesh.{Mesh, Peer, get_peer}
use gatewaysshd.Mesh.Rounds.{peers_in, list_peers, Member-peers_in}
use gatewaysshd.Mesh.Discovery.{
  Settings, register_node, registered, lookup-register_node, discover_peers, is_dialed,
  is_dialed_sound,
}
use gatewaysshd.Mesh.Peering.{Peering, close, has_client}
use gatewaysshd.Connection.{Connection}

unfoldable pub close_peers : Peering → List Peer → Peering
close_peers self [] = self
close_peers self (peer ∷ peers) = close_peers (close peer self) peers

pub record LocalNode : Type 0 where
  pub gateway : Gateway
  pub peering : Peering
  pub db : Db

-- A node that cannot register does not start. `store` is the memory of connections to come.
unfoldable pub open_gateway : Settings → Bool → (ℕ → Connection) → Db → ℕ → Result LocalNode
open_gateway settings reachable store db now =
    if not (settings.node_id == []) && not reachable
    then err database_failed
    else elim (register_node settings db true now) [
      | err e ↦ err e
      | ok db' ↦ ok (record {
        gateway = record { connections_index = []; connections_list = []; store = store };
        peering = record {
          mesh = record { peers = []; routes = new_route_cache };
          dialed = 0;
          closed = [];
        };
        db = db';
      })
    ]

-- Whether the database is in reach at the end: if not, the node stays marked as online.
unfoldable pub close_gateway : Settings → Bool → LocalNode → ℕ → LocalNode
close_gateway settings reachable self now = record {
  gateway = close_all self.gateway self.gateway.connections_list;
  peering = close_peers self.peering (list_peers self.peering.mesh);
  db =
      if reachable
      then elim (register_node settings self.db false now) [ err e ↦ self.db | ok db' ↦ db' ]
      else self.db;
}

lookup-Distinct :
    {W : Type 0} (k : Text) (v : W) (m : Dict Text W)
    → Distinct m
    → Member (k, v) m
    → lookup k m ≡ some v
unfolding lookup
lookup-Distinct k v [] d h = absurd h
lookup-Distinct {W} k v ((j, w) ∷ m) (fresh, d) (inl e) =
    ground (arith, ap (λ (p : Text × W). p.0) e, ap (λ (p : Text × W). p.1) e)
lookup-Distinct k v ((j, w) ∷ m) (fresh, d) (inr n) =
    let later = lookup-Distinct k v m d n in ground (arith, later, fresh)

register_node-Distinct :
    (settings : Settings) (db : Db) (online : Bool) (now : ℕ) {db' : Db}
    → register_node settings db online now ≡ ok db'
    → Distinct db.nodes
    → Distinct db'.nodes
unfolding register_node put_node
register_node-Distinct settings db online now {db'} h d =
    ground (arith, insert-Distinct settings.node_id (registered settings db online now) db.nodes d)

-- The connections that are listed when a node is closed are closed, and no others.
pub store-close_gateway :
    (settings : Settings) (reachable : Bool) (self : LocalNode) (now c : ℕ)
    → (close_gateway settings reachable self now).gateway.store c
      ≡ closed_if (contains self.gateway.connections_list c) (self.gateway.store c)
unfolding close_gateway
store-close_gateway settings reachable self now c =
    store-close_all self.gateway self.gateway.connections_list c

Member-discover_peers :
    (others : Settings) (mesh : Mesh) (db : Db) (later : ℕ) (row : Text × Node)
    → Member row (discover_peers others mesh db later)
    → Member row db.nodes × (is_dialed others mesh later row ≡ true)
unfolding discover_peers list_nodes
Member-discover_peers others mesh db later row m = elim (Bool-cases others.peers_out) [
  | inl on ↦ Member-select (is_dialed others mesh later) row db.nodes (ground (arith, m, on))
  | inr off ↦ absurd (ground (arith, m, off))
]

registers :
    (settings : Settings) (db : Db) (online : Bool) (now : ℕ)
    → (db' : Db) × (register_node settings db online now ≡ ok db')
unfolding register_node put_node
registers settings db online now = elim (Bool-cases (settings.node_id == [])) [
  | inl unnamed ↦ (db, ground arith)
  | inr named ↦ (
    record db { nodes = insert settings.node_id (registered settings db online now) db.nodes },
    ground arith,
  )
]

stays_closed :
    (self : Peering) (peers : List Peer) (client : ℕ)
    → has_client self.closed client ≡ true
    → has_client (close_peers self peers).closed client ≡ true
unfolding close_peers close has_client
stays_closed self [] client h = h
stays_closed self (peer ∷ peers) client h =
    stays_closed (close peer self) peers client (ground (arith, h))

closed-close_peers :
    (self : Peering) (peers : List Peer) (peer : Peer)
    → Member peer peers
    → has_client (close_peers self peers).closed peer.pointer ≡ true
unfolding close_peers close has_client
closed-close_peers self [] peer m = absurd m
closed-close_peers self (p ∷ peers) peer (inl e) =
    stays_closed (close p self) peers peer.pointer (ground (arith, ap (λ (q : Peer). q.pointer) e))
closed-close_peers self (p ∷ peers) peer (inr m) = closed-close_peers (close p self) peers peer m

-- The client of each peer that is held when a node is closed is closed.
pub closed-close_gateway :
    (settings : Settings) (reachable : Bool) (self : LocalNode) (now : ℕ) (node_id : Text)
    (peer : Peer)
    → get_peer self.peering.mesh node_id ≡ some peer
    → has_client (close_gateway settings reachable self now).peering.closed peer.pointer ≡ true
unfolding close_gateway list_peers get_peer
closed-close_gateway settings reachable self now node_id peer held =
    closed-close_peers self.peering (peers_in self.peering.mesh.peers) peer
      (Member-peers_in node_id peer self.peering.mesh.peers held)

-- Once a node with an id is closed while the database is in reach, no other node dials it any more,
-- whatever peers that has and whenever it looks, until the node registers again; no row of a node
-- may be stored twice.
pub discover_peers-close_gateway :
    (settings others : Settings) (self : LocalNode) (mesh : Mesh) (now later : ℕ) (node : Node)
    → settings.node_id ≢ []
    → Distinct self.db.nodes
    → ¬ Member
        (settings.node_id, node)
        (discover_peers others mesh (close_gateway settings true self now).db later)
unfolding close_gateway
discover_peers-close_gateway settings others self mesh now later node named d m =
    let (db', stored) = registers settings self.db false now in
    let closed : (close_gateway settings true self now).db ≡ db' = ground (arith, stored) in
    let (held, dialed) =
      Member-discover_peers others mesh db' later (settings.node_id, node)
        (subst (λ db. Member (settings.node_id, node) (discover_peers others mesh db later)) closed
          m) in
    let row =
      lookup-Distinct settings.node_id node db'.nodes
        (register_node-Distinct settings self.db false now {db' = db'} stored d) held in
    let off = lookup-register_node settings self.db false now {db' = db'} named stored in
    let (on, _, _, _, _) = is_dialed_sound others mesh later settings.node_id node dialed in
    absurd (ground (arith, on, row, off))
