-- ===== src/Channels/Identity.antt =====
-- From the login of auth/auth.go to the connection of gateway/connection.go and its channels.
use gatewaysshd.Common.{
  ℕ, ◌≡◌, ◌≢◌, subst, Bool, true, false, [], ◌∷◌, some, Text, codes, text_key, nat_key, arith,
}
use gatewaysshd.Common.Dict.{lookup}
use gatewaysshd.Errors.{ok}
use gatewaysshd.Auth.Ssh.{SshLibrary, Extensions}
use gatewaysshd.Auth.{World, Meta, Settings, authenticate, peer_user}
use gatewaysshd.Auth.Trust.{HasNoPeer, authenticate_as_user, authenticate_as_peer}
use gatewaysshd.Connection.{is_peer}
use gatewaysshd.Gateway.{Gateway}
use gatewaysshd.Mesh.{Mesh, Peer}
use gatewaysshd.Channels.{
  Environment, NewChannel, TunnelData, session, to_peer, accepts, new_connection, handle_channel,
}
use gatewaysshd.Channels.Safety.{IsSafe, handle_channel-IsSafe}

pub new_connection_of_user :
    (extensions : Extensions) (user address : Text)
    → HasNoPeer extensions
    → (is_peer (new_connection extensions user address) ≡ false)
      × ((new_connection extensions user address).user ≡ user)
unfolding new_connection
new_connection_of_user extensions user address h = ground arith

pub new_connection_of_peer :
    (key_id user address : Text)
    → key_id ≢ []
    → let self =
        new_connection ((codes "peer", []) ∷ (codes "identity", key_id) ∷ []) user address in
      (self.node_id ≡ key_id)
      × (is_peer self ≡ true)
      × (self.user ≡ [])
      × (self.administrator ≡ false)
      × (self.permit_port_forwarding ≡ false)
unfolding new_connection lookup
new_connection_of_peer key_id user address h = ground arith

true≢false : {b : Bool} → b ≡ true → b ≡ false → ⊥
true≢false p q = cc

module _ (ssh : SshLibrary) where
  open ssh use {PublicKey, certificate_key_id}

  -- Whoever logs in under another name than the reserved one gets a connection under that name
  -- which is no peer's, so no user certificate makes a peer connection.
  pub connection_of_user :
      (settings : Settings ssh) (reachable : Bool) (self : World) (meta : Meta) (key : PublicKey)
      (now : ℕ) (address : Text) {extensions : Extensions}
      → meta.user ≢ peer_user
      → (authenticate ssh settings reachable self meta key now).result ≡ ok extensions
      → (is_peer (new_connection extensions meta.user address) ≡ false)
        × ((new_connection extensions meta.user address).user ≡ meta.user)
  connection_of_user settings reachable self meta key now address {extensions} named h =
      new_connection_of_user extensions meta.user address
        (authenticate_as_user ssh settings reachable self meta key now {extensions = extensions}
          named h).1

  -- The connection of a peer login belongs to the node of the certificate, to no user, and has no
  -- rights of a user.
  pub connection_of_peer :
      (settings : Settings ssh) (reachable : Bool) (self : World) (meta : Meta) (key : PublicKey)
      (now : ℕ) (address : Text) {extensions : Extensions}
      → meta.user ≡ peer_user
      → (authenticate ssh settings reachable self meta key now).result ≡ ok extensions
      → let connection = new_connection extensions meta.user address in
        (certificate_key_id key ≡ some connection.node_id)
        × (is_peer connection ≡ true)
        × (connection.user ≡ [])
        × (connection.administrator ≡ false)
        × (connection.permit_port_forwarding ≡ false)
  connection_of_peer settings reachable self meta key now address {extensions} named h =
      let (signed, (key_id, found, full, e), same) =
        authenticate_as_peer ssh settings reachable self meta key now {extensions = extensions}
          named h in
      let made = new_connection_of_peer key_id meta.user address full in
      ground (arith, made, e, found)

  -- No tunnel goes round the mesh: what arrives on the connection of a peer login is never
  -- forwarded to a peer, and opens no session.
  pub peer_never_forwards :
      (settings : Settings ssh) (reachable : Bool) (self : World) (meta : Meta) (key : PublicKey)
      (now : ℕ) (address : Text) (env : Environment) (gateway : Gateway) (mesh : Mesh)
      (channel : NewChannel) (peer : Peer) (data' : TunnelData) {extensions : Extensions}
      → meta.user ≡ peer_user
      → (authenticate ssh settings reachable self meta key now).result ≡ ok extensions
      → let connection = new_connection extensions meta.user address in
        let decision = (handle_channel env connection gateway mesh channel).1 in
        (decision ≢ accepts (to_peer peer data')) × (decision ≢ accepts session)
  peer_never_forwards settings reachable self meta key now address env gateway mesh channel peer
        data' {extensions} named h =
      let connection = new_connection extensions meta.user address in
      let safe = handle_channel-IsSafe env connection gateway mesh channel in
      let made =
        connection_of_peer settings reachable self meta key now address {extensions = extensions}
          named h in
      (
        (λ e. true≢false made.1 (subst (IsSafe env connection) e safe).1),
        (λ e. true≢false made.1 (subst (IsSafe env connection) e safe)),
      )
