-- ===== src/Mesh/Peers.antt =====
-- The map of peers of gateway/peer.go: one live peer for a node.
use gatewaysshd.Common.{
  ◌≡◌, ◌≢◌, true, false, none, some, Text, ◌==◌, text_key, nat_key, if◌then◌else◌, arith,
}
use gatewaysshd.Common.Dict.{lookup-insert, lookup-delete}
use gatewaysshd.Mesh.{Peer, Mesh, get_peer, add_peer, remove_peer}

-- Each peer is held under the node that it leads to.
abbrev pub IsKeyed : Mesh → Type 0
IsKeyed self =
    (node_id : Text) (peer : Peer) → get_peer self node_id ≡ some peer → peer.node_id ≡ node_id

pub add_peer-IsKeyed : (self : Mesh) (peer : Peer) → IsKeyed self → IsKeyed (add_peer self peer).0
unfolding add_peer get_peer
add_peer-IsKeyed self peer v node_id p h =
    ground (arith, v node_id p, lookup-insert peer.node_id node_id peer self.peers)

pub remove_peer-IsKeyed :
    (self : Mesh) (peer : Peer) → IsKeyed self → IsKeyed (remove_peer self peer)
unfolding remove_peer get_peer
remove_peer-IsKeyed self peer v node_id p h =
    ground (arith, v node_id p, lookup-delete peer.node_id node_id self.peers)

-- A new peer is taken in only where its node has none, and no other node's peer changes.
pub get_peer-add_peer :
    (self : Mesh) (peer : Peer) (node_id : Text)
    → (get_peer (add_peer self peer).0 node_id ≡ elim (get_peer self node_id) [
      | some current ↦ some current
      | none ↦ if peer.node_id == node_id then some peer else none
    ])
      × ((add_peer self peer).1
          ≡ elim (get_peer self peer.node_id) [ none ↦ true | some _ ↦ false ])
unfolding add_peer get_peer
get_peer-add_peer self peer node_id =
    ground (arith, lookup-insert peer.node_id node_id peer self.peers)

-- A removal takes away that very peer, and never the one that replaced it.
pub get_peer-remove_peer :
    (self : Mesh) (peer : Peer) (node_id : Text) (current : Peer)
    → get_peer self node_id ≡ some current
    → get_peer (remove_peer self peer) node_id ≡ (
        if peer.node_id == node_id
        then (if current.pointer == peer.pointer then none else some current)
        else some current)
unfolding remove_peer get_peer
get_peer-remove_peer self peer node_id current e =
    ground (arith, lookup-delete peer.node_id node_id self.peers)

-- A refused duplicate is closed by its owner, and the peer that is held stays.
pub remove_peer-add_peer :
    (self : Mesh) (peer : Peer) (current : Peer) (node_id : Text)
    → get_peer self peer.node_id ≡ some current
    → current.pointer ≢ peer.pointer
    → get_peer (remove_peer (add_peer self peer).0 peer) node_id ≡ get_peer self node_id
unfolding add_peer remove_peer get_peer
remove_peer-add_peer self peer current node_id e ne = ground arith
