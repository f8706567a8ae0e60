-- ===== src/Mesh/Dialing.antt =====
-- gateway/peer.go, connectToPeer, and util/sshconfig/sshconfig.go, NewPeerClientConfig: how a node
-- dials another one, and what the other one makes of it by auth/auth.go. The dial of the ssh library
-- and its parser of keys are parameters.
use gatewaysshd.Common.{
  ℕ, ◌≡◌, ◌≢◌, refl, Bool, true, false, List, [], ◌∷◌, Option, none, some, Text, codes, ◌==◌,
  text_key, nat_key, if◌then◌else◌, length, arith,
}
use gatewaysshd.Common.Dict.{lookup-insert}
use gatewaysshd.Errors.{ok}
use gatewaysshd.Auth.{
  World, Meta, Settings, is_authority, authenticate, authenticate_peer, peer_user,
}
use gatewaysshd.Auth.Ssh.{SshLibrary, Extensions}
use gatewaysshd.Connection.{is_peer}
use gatewaysshd.Channels.{new_connection}
use gatewaysshd.Channels.Identity.{new_connection_of_peer}
use gatewaysshd.Db.{Node}
use gatewaysshd.Mesh.{get_peer, add_peer}
use gatewaysshd.Mesh.Peering.{Peering, new_peer, take_in}
use gatewaysshd.Startup.{KeyLibrary}
use gatewaysshd.Startup.Settings.{check_pinned_host_key, published_key}
use gatewaysshd.Startup.Roles.{check_pinned_host_key-published_key}

-- What a dial takes of ssh.ClientConfig; the callback for the host key is CheckPinnedHostKey with the
-- pinned key.
pub record ClientConfig (PublicKey Signer : Type 0) : Type 0 where
  pub user : Text
  pub signer : Signer
  pub pinned_host_key : PublicKey

unfoldable pub new_peer_client_config :
    {PublicKey Signer : Type 0} → Signer → PublicKey → ClientConfig PublicKey Signer
new_peer_client_config signer pinned = record {
  user = peer_user;
  signer = signer;
  pinned_host_key = pinned;
}

-- A node whose key cannot be read, or that cannot be dialed, is left for the next round.
unfoldable pub connect_to_peer :
    {PublicKey Signer : Type 0}
    → (Text → Option PublicKey)
    → (Text → ClientConfig PublicKey Signer → Bool)
    → Signer
    → Text
    → Node
    → Peering
    → Peering
connect_to_peer parse_host_key dial node_signer node_id node self =
    elim (parse_host_key node.host_public_key) [
      | none ↦ self
      | some pinned ↦
          if dial node.address (new_peer_client_config node_signer pinned)
          then take_in node_id self
          else self
    ]

get_peer-take_in :
    (node_id : Text) (self : Peering)
    → get_peer self.mesh node_id ≡ none
    → get_peer (take_in node_id self).mesh node_id ≡ some (new_peer node_id self.dialed)
unfolding take_in add_peer get_peer
get_peer-take_in node_id self free =
    ground (arith, lookup-insert node_id node_id (new_peer node_id self.dialed) self.mesh.peers)

module _ (ssh : SshLibrary) where
  open ssh use {PublicKey, certificate_key_id, check_certificate, accepted_authority}

  authority_there :
      (cas : List PublicKey) (ca : PublicKey)
      → is_authority ssh cas ca ≡ true
      → (length cas == 0) ≡ false
  unfolding is_authority
  authority_there [] ca h = cc
  authority_there (c ∷ cas) ca h = ground arith

  -- A certificate of a peer authority for the reserved name, with a key id, is let in as that node.
  authenticate_accepts_peer :
      (settings : Settings ssh) (reachable : Bool) (self : World) (meta : Meta) (key : PublicKey)
      (now : ℕ) (key_id : Text) {permissions : Extensions}
      → meta.user ≡ peer_user
      → check_certificate (is_authority ssh settings.peer_ca_public_keys) meta.user key
        ≡ ok permissions
      → certificate_key_id key ≡ some key_id
      → key_id ≢ []
      → (authenticate ssh settings reachable self meta key now).result
        ≡ ok ((codes "peer", []) ∷ (codes "identity", key_id) ∷ [])
  unfolding authenticate authenticate_peer
  authenticate_accepts_peer settings reachable self meta key now key_id named checked has full =
      let (ca, signed, known) =
        accepted_authority (is_authority ssh settings.peer_ca_public_keys) meta.user key checked in
      ground (arith, authority_there settings.peer_ca_public_keys ca known)

module _ (ssh : SshLibrary) (keys : KeyLibrary ssh.PublicKey) (read_file : Text → Option Text) where
  open ssh use {PublicKey, certificate_key_id, check_certificate}
  open keys use {Signer, public_key}

  -- A node that has no peer for another one, and that dials it with the host key that the other one
  -- publishes, has a peer for it then, and is let in there under the key id of its certificate, on a
  -- connection of a peer without the rights of a user. Its certificate must be one of the other's
  -- peer authorities for the reserved name and have a key id; the published key must be read back as it
  -- is; and a dial must succeed once each side lets the other in.
  pub connect_to_peer_lem :
      (parse_host_key : Text → Option PublicKey)
      (dial : Text → ClientConfig PublicKey Signer → Bool) (node_signer host_signer : Signer)
      (far : Settings ssh) (reachable : Bool) (world : World)
      (ip location address key_id node_id : Text) (now : ℕ) (node : Node) (self : Peering)
      {permissions : Extensions}
      → parse_host_key node.host_public_key ≡ some (published_key ssh keys read_file host_signer)
      → ((config : ClientConfig PublicKey Signer) (extensions : Extensions)
          → check_pinned_host_key ssh keys read_file config.pinned_host_key (public_key host_signer)
            ≡ ok tt
          → (authenticate ssh far reachable world
              (record { user = config.user; ip = ip; location = location })
              (public_key config.signer)
              now).result
            ≡ ok extensions
          → dial node.address config ≡ true)
      → check_certificate
          (is_authority ssh far.peer_ca_public_keys)
          peer_user
          (public_key node_signer)
        ≡ ok permissions
      → certificate_key_id (public_key node_signer) ≡ some key_id
      → key_id ≢ []
      → get_peer self.mesh node_id ≡ none
      → (get_peer (connect_to_peer parse_host_key dial node_signer node_id node self).mesh node_id
          ≡ some (new_peer node_id self.dialed))
        × ((extensions : Extensions) × ((authenticate ssh far reachable world
                (record { user = peer_user; ip = ip; location = location })
                (public_key node_signer)
                now).result
              ≡ ok extensions)
            × ((new_connection extensions peer_user address).node_id ≡ key_id)
            × (is_peer (new_connection extensions peer_user address) ≡ true)
            × ((new_connection extensions peer_user address).administrator ≡ false)
            × ((new_connection extensions peer_user address).permit_port_forwarding ≡ false))
  unfolding connect_to_peer new_peer_client_config
  connect_to_peer_lem parse_host_key dial node_signer host_signer far reachable world ip location
        address key_id node_id now node self pinned dials checked has full free =
      let login : Meta = record { user = peer_user; ip = ip; location = location } in
      let let_in =
        authenticate_accepts_peer ssh far reachable world login (public_key node_signer) now key_id
          refl checked has full in
      let config =
        new_peer_client_config node_signer (published_key ssh keys read_file host_signer) in
      let connected =
        dials config _ (check_pinned_host_key-published_key ssh keys read_file host_signer)
          let_in in
      let made = new_connection_of_peer key_id peer_user address full in
      (
        ground (arith, connected, get_peer-take_in node_id self free),
        (_, let_in, made.0, made.1, made.3, made.4),
      )
