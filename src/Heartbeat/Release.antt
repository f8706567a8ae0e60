-- ===== src/Heartbeat/Release.antt =====
-- Who is left on the node after a beat of gateway/gateway.go.
use gatewaysshd.Common.{
  ℕ, ◌≡◌, ◌≢◌, refl, ◌∙◌, Bool, true, false, not, ◌&&◌, List, [], ◌∷◌, Text, ◌==◌, text_key,
  nat_key, if◌then◌else◌, ltb, arith, inl, inr, length, Member,
}
use gatewaysshd.Db.{Db, is_in, mark_users_online, get_user_node_id}
use gatewaysshd.Db.Presence.{node-clear_user_node_id}
use gatewaysshd.Gateway.{Gateway, connections_of, connected_user_ids}
use gatewaysshd.Heartbeat.{beat, release_user_node, release_all, online_stale_threshold}

module _ (node_id : Text) (reaches : Text → Bool) (remaining : Text → Gateway) (now : ℕ) where
  node-release_user_node :
      (db : Db) (user_id id : Text)
      → node_id ≢ []
      → get_user_node_id
          (release_user_node node_id (reaches user_id) (remaining user_id) db user_id now)
          id
        ≡ (if (id == user_id)
              && (get_user_node_id db id == node_id)
              && not (user_id == [])
              && not (ltb 0 (length (connections_of (remaining user_id) user_id)))
              && reaches user_id
            then []
            else get_user_node_id db id)
  unfolding release_user_node
  node-release_user_node db user_id id mesh =
      ground (arith, node-clear_user_node_id db user_id node_id now id)

  -- A user who is off the node stays off it.
  release_all_off :
      (still_connected : List Text) (db : Db) (user_ids : List Text) (id : Text)
      → node_id ≢ []
      → get_user_node_id db id ≢ node_id
      → get_user_node_id (release_all node_id reaches remaining still_connected db user_ids now) id
        ≢ node_id
  unfolding release_all
  release_all_off still_connected db [] id mesh off = off
  release_all_off still_connected db (x ∷ xs) id mesh off =
      release_all_off still_connected
        (if is_in x still_connected
          then db
          else release_user_node node_id (reaches x) (remaining x) db x now)
        xs id mesh (λ e. ground (arith, node-release_user_node db x id mesh))

  release_all_frees :
      (still_connected : List Text) (db : Db) (user_ids : List Text) (id : Text)
      → node_id ≢ []
      → id ≢ []
      → Member id user_ids
      → is_in id still_connected ≡ false
      → connections_of (remaining id) id ≡ []
      → reaches id ≡ true
      → get_user_node_id (release_all node_id reaches remaining still_connected db user_ids now) id
        ≢ node_id
  unfolding release_all
  release_all_frees still_connected db [] id mesh named m gone left reached = absurd m
  release_all_frees still_connected db (x ∷ xs) id mesh named (inl e) gone left reached =
      release_all_off still_connected
        (if is_in x still_connected
          then db
          else release_user_node node_id (reaches x) (remaining x) db x now)
        xs id mesh (λ on. ground (arith, node-release_user_node db x id mesh))
  release_all_frees still_connected db (x ∷ xs) id mesh named (inr m) gone left reached =
      release_all_frees still_connected
        (if is_in x still_connected
          then db
          else release_user_node node_id (reaches x) (remaining x) db x now)
        xs id mesh named m gone left reached

  -- A user who is still connected keeps what the beat wrote.
  release_all_keeps :
      (still_connected : List Text) (db : Db) (user_ids : List Text) (id : Text)
      → node_id ≢ []
      → is_in id still_connected ≡ true
      → get_user_node_id (release_all node_id reaches remaining still_connected db user_ids now) id
        ≡ get_user_node_id db id
  unfolding release_all
  release_all_keeps still_connected db [] id mesh here = refl
  release_all_keeps still_connected db (x ∷ xs) id mesh here =
      release_all_keeps still_connected
        (if is_in x still_connected
          then db
          else release_user_node node_id (reaches x) (remaining x) db x now)
        xs id mesh here
      ∙ ground (arith, node-release_user_node db x id mesh)

length-pos : (xs : List Text) (x : Text) → Member x xs → (length xs == 0) ≡ false
length-pos [] x m = absurd m
length-pos (y ∷ ys) x m = ground arith

-- A user who left while the beat was in flight is not left on this node: where the statement of the
-- heartbeat and that of the release of the user both reach the database, whoever was in the batch of
-- a beat of a node in the mesh, is not connected when the registry is read again, and has no
-- connection at the release, is then on no node or on another one.
pub beat_releases :
    (node_id : Text) (reaches : Text → Bool) (before after : Gateway) (remaining : Text → Gateway)
    (db : Db) (now : ℕ) (id : Text)
    → node_id ≢ []
    → id ≢ []
    → Member id (connected_user_ids before)
    → is_in id (connected_user_ids after) ≡ false
    → connections_of (remaining id) id ≡ []
    → reaches id ≡ true
    → get_user_node_id (beat node_id true reaches before after remaining db now) id ≢ node_id
unfolding beat
beat_releases node_id reaches before after remaining db now id mesh named m gone left reached =
    let marked =
      mark_users_online db (connected_user_ids before) node_id online_stale_threshold now in
    rw (length-pos (connected_user_ids before) id m) (
      release_all_frees node_id reaches remaining now (connected_user_ids after) marked
        (connected_user_ids before) id mesh named m gone left reached)

-- A user who is still connected when the registry is read again has the node that the heartbeat
-- statement wrote: the releases of the same beat do not touch it.
pub beat_keeps :
    (node_id : Text) (reaches : Text → Bool) (before after : Gateway) (remaining : Text → Gateway)
    (db : Db) (now : ℕ) (id : Text)
    → node_id ≢ []
    → Member id (connected_user_ids before)
    → is_in id (connected_user_ids after) ≡ true
    → get_user_node_id (beat node_id true reaches before after remaining db now) id
      ≡ get_user_node_id
          (mark_users_online db (connected_user_ids before) node_id online_stale_threshold now)
          id
unfolding beat
beat_keeps node_id reaches before after remaining db now id mesh m here =
    let marked =
      mark_users_online db (connected_user_ids before) node_id online_stale_threshold now in
    rw (length-pos (connected_user_ids before) id m) (
      release_all_keeps node_id reaches remaining now (connected_user_ids after) marked
        (connected_user_ids before) id mesh here)
