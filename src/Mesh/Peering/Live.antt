-- ===== src/Mesh/Peering/Live.antt =====
-- gateway/peer.go: which peer is found, whatever the order in which peers come and go.
use gatewaysshd.Common.{
  ℕ, suc, ◌<◌, ◌≡◌, ◌≢◌, ◌↔◌, ◌⊎◌, refl, sym, ◌∙◌, ap, true, false, List, ◌∷◌, none, some, Text,
  ◌==◌, text_key, nat_key, arith, Member, inl, inr, Option-cases, Bool-cases,
}
use gatewaysshd.Common.Dict.{lookup, insert, lookup-insert, lookup-delete}
use gatewaysshd.Mesh.{Mesh, Peer, get_peer, add_peer, remove_peer}
use gatewaysshd.Mesh.Peering.{
  Peering, new_peer, close, take_in, has_client, Reach, starts, dials, closes, removes,
}

-- A peer is held under its node from when it is taken in until it is removed, and at no other time;
-- no two peers have one client; and each client is that of a peer taken in, or is closed.
pub record IsLive (self : Peering) (opened : List Peer) (removed : List ℕ) : Type 0 where
  pub held :
      (node_id : Text) (peer : Peer)
      → (get_peer self.mesh node_id ≡ some peer) ↔ (
          Member peer opened × (has_client removed peer.pointer ≡ false) × (peer.node_id ≡ node_id))
  pub fresh : (peer : Peer) → Member peer opened → peer.pointer < self.dialed
  pub past : (client : ℕ) → has_client removed client ≡ true → client < self.dialed
  pub one_client : (p q : Peer) → Member p opened → Member q opened → p.pointer ≡ q.pointer → p ≡ q
  pub closed_or_opened :
      (client : ℕ)
      → client < self.dialed
      → (has_client self.closed client ≡ true)
        ⊎ ((p : Peer) × Member p opened × (p.pointer ≡ client))

close-IsLive :
    {self : Peering} {opened : List Peer} {removed : List ℕ} (peer : Peer)
    → IsLive self opened removed
    → IsLive (close peer self) opened removed
unfolding close has_client
close-IsLive {self} {opened} peer v = record {
  held = v.held;
  fresh = v.fresh;
  past = v.past;
  one_client = v.one_client;
  closed_or_opened = λ client low. elim (v.closed_or_opened client low) [
    | inl c ↦ inl (ground (arith, c))
    | inr o ↦ inr o
  ];
}

-- A removal takes away that client and no other.
get_peer_removed :
    (mesh : Mesh) (peer : Peer) (node_id : Text) (p : Peer)
    → (get_peer mesh node_id ≡ some p → p.pointer ≡ peer.pointer → peer.node_id ≡ node_id)
    → (get_peer (remove_peer mesh peer) node_id ≡ some p)
      ↔ ((get_peer mesh node_id ≡ some p) × ((peer.pointer == p.pointer) ≡ false))
unfolding remove_peer get_peer
get_peer_removed mesh peer node_id p keyed =
    let deleted = lookup-delete peer.node_id node_id mesh.peers in
    elim (Option-cases (lookup peer.node_id mesh.peers)) [
      | inl missing ↦
          ((λ e. ground (arith, e, missing, keyed)), (λ (e, ne). ground (arith, e, missing)))
      | inr (current, found) ↦ (
        (λ e. ground (arith, e, found, deleted, keyed)),
        (λ (e, ne). ground (arith, e, ne, found, deleted)),
      )
    ]

remove-IsLive :
    {self : Peering} {opened : List Peer} {removed : List ℕ} (peer : Peer)
    → Member peer opened
    → IsLive self opened removed
    → IsLive (record self { mesh = remove_peer self.mesh peer }) opened (peer.pointer ∷ removed)
unfolding remove_peer get_peer has_client
remove-IsLive {self} {opened} {removed} peer m v = record {
  held = λ node_id p.
      let cut = get_peer_removed self.mesh peer node_id p (λ e same.
        let (mp, _, at) = (v.held node_id p).0 e in
        sym (ap (λ (q : Peer). q.node_id) (v.one_client p peer mp m same)) ∙ at) in
      (
        (λ e.
            let (before, other) = cut.0 e in
            let (mp, kept, at) = (v.held node_id p).0 before in
            (mp, ground (arith, kept, other), at)),
        (λ (mp, kept, at).
            cut.1 ((v.held node_id p).1 (mp, ground (arith, kept), at), ground (arith, kept))),
      );
  fresh = v.fresh;
  past = λ client h. elim (Bool-cases (peer.pointer == client)) [
    | inl hit ↦ ground (arith, v.fresh peer m)
    | inr other ↦ v.past client (ground arith)
  ];
  one_client = v.one_client;
  closed_or_opened = v.closed_or_opened;
}

opened-IsLive :
    {self : Peering} {opened : List Peer} {removed : List ℕ} (node_id : Text)
    → lookup node_id self.mesh.peers ≡ none
    → IsLive self opened removed
    → let peer = new_peer node_id self.dialed in
      IsLive
        (record self {
          mesh = record self.mesh { peers = insert node_id peer self.mesh.peers };
          dialed = suc self.dialed;
        })
        (peer ∷ opened)
        removed
unfolding get_peer
opened-IsLive {self} {opened} {removed} node_id free v =
    let peer = new_peer node_id self.dialed in
    let unremoved : has_client removed self.dialed ≡ false =
      elim (Bool-cases (has_client removed self.dialed)) [
        | inl h ↦ absurd (omega (arith, v.past self.dialed h))
        | inr h ↦ h
      ] in
    record {
      held = λ at p.
          let inserted = lookup-insert node_id at peer self.mesh.peers in
          (
            (λ e. elim (Bool-cases (node_id == at)) [
              | inl hit ↦
                  let same : p ≡ peer = ground (arith, e, inserted) in
                  (inl same, rw same unremoved, rw same (ground arith))
              | inr other ↦
                  let (m, kept, named) = (v.held at p).0 (ground (arith, e, inserted)) in
                  (inr m, kept, named)
            ]),
            (λ (m, kept, named). elim m [
              | inl same ↦ ground (arith, inserted, ap (λ (q : Peer). q.node_id) same, named, same)
              | inr before ↦
                  let old = (v.held at p).1 (before, kept, named) in
                  ground (arith, inserted, old, free)
            ]),
          );
      fresh = λ p m. elim m [
        | inl same ↦ ground (arith, ap (λ (q : Peer). q.pointer) same)
        | inr before ↦ omega (arith, v.fresh p before)
      ];
      past = λ client h. omega (arith, v.past client h);
      one_client = λ p q mp mq same. elim mp [
        | inl ep ↦ elim mq [
          | inl eq ↦ ep ∙ sym eq
          | inr bq ↦ absurd (ground (arith, v.fresh q bq, ap (λ (r : Peer). r.pointer) ep, same))
        ]
        | inr bp ↦ elim mq [
          | inl eq ↦ absurd (ground (arith, v.fresh p bp, ap (λ (r : Peer). r.pointer) eq, same))
          | inr bq ↦ v.one_client p q bp bq same
        ]
      ];
      closed_or_opened = λ client low. elim (Bool-cases (client == self.dialed)) [
        | inl hit ↦ inr (peer, inl refl, ground arith)
        | inr other ↦ elim (v.closed_or_opened client (ground arith)) [
          | inl c ↦ inl c
          | inr (p, m, e) ↦ inr (p, inr m, e)
        ]
      ];
    }

refused-IsLive :
    {self : Peering} {opened : List Peer} {removed : List ℕ}
    → IsLive self opened removed
    → IsLive
        (record self { dialed = suc self.dialed; closed = self.dialed ∷ self.closed })
        opened
        removed
unfolding has_client
refused-IsLive {self} v = record {
  held = v.held;
  fresh = λ p m. omega (arith, v.fresh p m);
  past = λ client h. omega (arith, v.past client h);
  one_client = v.one_client;
  closed_or_opened = λ client low. elim (Bool-cases (self.dialed == client)) [
    | inl hit ↦ inl (ground arith)
    | inr other ↦ elim (v.closed_or_opened client (ground arith)) [
      | inl c ↦ inl (ground (arith, c))
      | inr o ↦ inr o
    ]
  ];
}

some-ne-none : {A : Type 0} {a : A} → some a ≢ none
some-ne-none e = cc

-- However peers are dialed, closed and removed, in any interleaving: a peer that was taken in is found
-- under its node until it is removed, and not from then on; the end of one peer never takes another
-- away; and no client is left open that was not taken in.
pub Reach-IsLive :
    {self : Peering} {opened : List Peer} {removed : List ℕ}
    → Reach self opened removed
    → IsLive self opened removed
unfolding take_in add_peer get_peer has_client close lookup
Reach-IsLive (starts self empty none_dialed) = record {
  held = λ node_id p. (
    (λ e.
        let nobody : lookup node_id self.mesh.peers ≡ none = rw empty refl in
        absurd (some-ne-none (sym e ∙ nobody))),
    (λ (m, _, _). absurd m),
  );
  fresh = λ p m. absurd m;
  past = λ client h. ground arith;
  one_client = λ p q mp mq same. absurd mp;
  closed_or_opened = λ client low. ground arith;
}
Reach-IsLive (dials {self} {opened} {removed} node_id r) =
    elim (Option-cases (lookup node_id self.mesh.peers)) [
      | inl free ↦ rw (free, take_in, add_peer) (opened-IsLive node_id free (Reach-IsLive r))
      | inr (current, taken) ↦ rw (taken, take_in, add_peer) (refused-IsLive (Reach-IsLive r))
    ]
Reach-IsLive (closes peer m r) = close-IsLive peer (Reach-IsLive r)
Reach-IsLive (removes peer m r) = remove-IsLive peer m (Reach-IsLive r)
