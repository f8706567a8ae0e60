-- ===== src/Mesh/Peering.antt =====
-- gateway/peer.go: the life of the peers, from connectToPeer to the end of their connections. A client
-- of the ssh library is a number, that of its peer.
pub mod Live
use gatewaysshd.Common.{
  ℕ, suc, ◌+◌, ◌<◌, ◌≡◌, ◌≢◌, ◌↔◌, ◌⊎◌, refl, sym, ◌∙◌, ap, subst, Bool, true, false, List, [], ◌∷◌,
  Option, none, some, Text, ◌==◌, text_key, nat_key, if◌then◌else◌, arith, Member, inl, inr,
  Option-cases, Bool-cases,
}
use gatewaysshd.Common.Dict.{Dict, lookup, insert, delete, lookup-insert, lookup-delete}
use gatewaysshd.Mesh.{Mesh, Peer, get_peer, add_peer, remove_peer}

pub record Peering : Type 0 where
  pub mesh : Mesh
  -- the number of clients that were made
  pub dialed : ℕ
  -- the clients that are closed
  pub closed : List ℕ

-- peer.close, of which the second call does nothing.
unfoldable pub close : Peer → Peering → Peering
close peer self = record self { closed = peer.pointer ∷ self.closed }

abbrev pub new_peer : Text → ℕ → Peer
new_peer node_id client = record { pointer = client; node_id = node_id }

-- connectToPeer once the node is dialed: the peer is taken in, or closed as a duplicate.
unfoldable pub take_in : Text → Peering → Peering
unfolding close
take_in node_id self =
    let peer = new_peer node_id self.dialed in
    let added = add_peer self.mesh peer in
    let self' = record self { mesh = added.0; dialed = suc self.dialed } in
    if added.1 then self' else close peer self'

-- The deferred calls of connectToPeer, when the connection of the client has ended.
unfoldable pub leave : Peer → Peering → Peering
unfolding close
leave peer self = let self' = close peer self in record self' { mesh = remove_peer self'.mesh peer }

-- A peer that does not answer the ping of runPeers.
unfoldable pub evict : Peer → Peering → Peering
unfolding close
evict peer self = close peer (record self { mesh = remove_peer self.mesh peer })

-- Whether a client is in a list of them.
unfoldable pub has_client : List ℕ → ℕ → Bool
has_client [] client = false
has_client (x ∷ xs) client = let rest = has_client xs client in if x == client then true else rest

-- What happens to the peers, in any order. `opened` are the peers that were taken in, `removed` the
-- clients for which removePeer was called: at the end of connectToPeer, or for want of an answer. A
-- client is closed then, too, before or after, and all are when the gateway closes.
pub data Reach : Peering → List Peer → List ℕ → Type 0 where
  starts : (self : Peering) → self.mesh.peers ≡ [] → self.dialed ≡ 0 → Reach self [] []
  dials :
      {self : Peering} {opened : List Peer} {removed : List ℕ} (node_id : Text)
      → Reach self opened removed
      → Reach
          (take_in node_id self)
          (if (add_peer self.mesh (new_peer node_id self.dialed)).1
            then new_peer node_id self.dialed ∷ opened
            else opened)
          removed
  closes :
      {self : Peering} {opened : List Peer} {removed : List ℕ} (peer : Peer)
      → Member peer opened
      → Reach self opened removed
      → Reach (close peer self) opened removed
  removes :
      {self : Peering} {opened : List Peer} {removed : List ℕ} (peer : Peer)
      → Member peer opened
      → Reach self opened removed
      → Reach (record self { mesh = remove_peer self.mesh peer }) opened (peer.pointer ∷ removed)

module _ {self : Peering} {opened : List Peer} {removed : List ℕ} (peer : Peer)
    (m : Member peer opened) (r : Reach self opened removed) where
  leave-Reach : Reach (leave peer self) opened (peer.pointer ∷ removed)
  unfolding leave
  leave-Reach = removes peer m (closes peer m r)

  evict-Reach : Reach (evict peer self) opened (peer.pointer ∷ removed)
  unfolding evict
  evict-Reach = closes peer m (removes peer m r)
