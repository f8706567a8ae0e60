-- ===== src/Tests/Logins.antt =====
-- Tests of the logins, with a small ssh library: a key is the text of its authority, its key id and
-- its extensions.
use gatewaysshd.Common.{
  ◌*◌, ◌≡◌, ◌≢◌, refl, Bool, true, false, [], ◌∷◌, none, some, Text, codes, text_key, if◌then◌else◌,
  arith,
}
use gatewaysshd.Common.Dict.{lookup}
use gatewaysshd.Errors.{Result, ok, err, invalid_credentials}
use gatewaysshd.RouteCache.{second}
use gatewaysshd.Db.{User, zero_user, upsert_user_on_connect, login_row, login_update, logged_in}
use gatewaysshd.Auth
use gatewaysshd.Auth.{
  World, Meta, Settings, authenticate, is_authority, peer_user, get_user_flags, login_fresh,
  record_login,
}
use gatewaysshd.Auth.Ssh.{SshLibrary, Extensions}
use gatewaysshd.Auth.Trust.{SignedBy, HasNoPeer, authenticate_as_user, authenticate_as_peer}
use gatewaysshd.Auth.Decision.{
  Passes, administrator, stored_user, authenticate_after_revoke, administrator_iff,
}
use gatewaysshd.Auth.Background.{authenticate_after_stale_record}
use gatewaysshd.Channels.{Environment, session, to_peer, accepts, new_connection, handle_channel}
use gatewaysshd.Channels.Identity.{peer_never_forwards}
use gatewaysshd.Tests.{program, alice, bob, web, n1, n2, db, gateway, mesh, peer_n2, bob_on_n2}

abbrev pub Key : Type 0
Key = Text × Text × Extensions

abbrev pub check : (Key → Bool) → Text → Key → Result Extensions
check is_user_authority user key =
    if is_user_authority (key.0, [], []) then ok key.2 else err invalid_credentials

pub check_authority :
    (is_user_authority : Key → Bool) (user : Text) (key : Key) {extensions : Extensions}
    → check is_user_authority user key ≡ ok extensions
    → (ca : Key) × (some (key.0, [], []) ≡ some ca) × (is_user_authority ca ≡ true)
check_authority is_user_authority user key h = ((key.0, [], []), refl, ground arith)

abbrev pub ssh : SshLibrary
ssh = record {
  PublicKey = Key;
  marshal = λ key. key.0;
  certificate_key_id = λ key. some key.1;
  signature_key = λ key. some (key.0, [], []);
  check_certificate = check;
  accepted_authority = check_authority;
}

abbrev pub settings : Settings ssh
settings = record {
  ca_public_keys = (codes "ca", [], []) ∷ [];
  peer_ca_public_keys = (codes "mesh", [], []) ∷ [];
  node_id = n1;
}

abbrev pub world : World
world = record { user_flags = []; db = db }

abbrev alice_logs_in : Meta
alice_logs_in = record { user = alice; ip = codes "192.0.2.7"; location = [] }

abbrev pub peer_logs_in : Meta
peer_logs_in = record alice_logs_in { user = peer_user }

-- A certificate that claims to be a peer's and an administrator's.
abbrev alices_key : Key
alices_key =
    (codes "ca", alice, (codes "peer", []) ∷ (administrator, []) ∷ (codes "identity", n2) ∷ [])

abbrev pub peers_key : Key
peers_key = (codes "mesh", n2, [])

program' : Unit {0}
unfolding program login_row login_update get_user_flags Auth.put_user_flags Auth.make_room
    Auth.revoke_user_flags is_authority authenticate Auth.authenticate_user Auth.authenticate_peer
    login_fresh record_login Auth.login_cached Auth.with_administrator Auth.without_peer
    upsert_user_on_connect logged_in
program' = tt

alice_ok :
    (authenticate ssh settings true world alice_logs_in alices_key 200).result
    ≡ ok ((administrator, []) ∷ [])
unfolding program'
alice_ok = refl

authenticate_as_user_example :
    SignedBy ssh ((codes "ca", [], []) ∷ []) alices_key × HasNoPeer ((administrator, []) ∷ [])
authenticate_as_user_example =
    authenticate_as_user ssh settings true world alice_logs_in alices_key 200 (λ e. ground arith)
      alice_ok

abbrev peers_permissions : Extensions
peers_permissions = (codes "peer", []) ∷ (codes "identity", n2) ∷ []

peer_ok :
    (authenticate ssh settings true world peer_logs_in peers_key 200).result ≡ ok peers_permissions
unfolding program'
peer_ok = refl

authenticate_as_peer_example :
    SignedBy ssh ((codes "mesh", [], []) ∷ []) peers_key
    × ((key_id : Text) × (some n2 ≡ some key_id)
        × (key_id ≢ [])
        × (peers_permissions ≡ (codes "peer", []) ∷ (codes "identity", key_id) ∷ []))
    × ((authenticate ssh settings true world peer_logs_in peers_key 200).world ≡ world)
authenticate_as_peer_example =
    authenticate_as_peer ssh settings true world peer_logs_in peers_key 200 refl peer_ok

alice-Passes : Passes ssh settings alice_logs_in alices_key alices_key.2
unfolding program'
alice-Passes = (ground arith, refl)

administrator_iff_example : lookup administrator ((administrator, []) ∷ []) ≡ (
    if (stored_user n1 world alice_logs_in 200).administrator
    then some []
    else lookup administrator alices_key.2)
unfolding program'
administrator_iff_example =
    administrator_iff ssh settings world alice_logs_in alices_key 200 alices_key.2 alice-Passes refl
      alice_ok

-- Bob is disabled, and the cache still holds that he was not.
abbrev disabled_bob : User
disabled_bob = record zero_user { disabled = true; node_id = n2; online_at = 100 * second }

abbrev bobs_world : World
bobs_world = record {
  user_flags = (bob, record { disabled = false; administrator = false; expires_at = 1000 }) ∷ [];
  db = record { users = (bob, disabled_bob) ∷ []; nodes = [] };
}

abbrev bob_logs_in : Meta
bob_logs_in = record alice_logs_in { user = bob }

abbrev bobs_key : Key
bobs_key = (codes "ca", bob, [])

bob-Passes : Passes ssh settings bob_logs_in bobs_key []
unfolding program'
bob-Passes = (ground arith, refl)

bobs_row : lookup bob bobs_world.db.users ≡ some disabled_bob
unfolding program'
bobs_row = refl

authenticate_after_revoke_example :
    let kicked = record bobs_world {
      user_flags = Auth.revoke_user_flags bob bobs_world.user_flags;
    } in
    let after = authenticate ssh settings true kicked bob_logs_in bobs_key 200 in
    (after.result ≡ err invalid_credentials)
    × ((user : User) × (lookup bob after.world.db.users ≡ some user)
        × (user.node_id ≡ n2)
        × (user.online_at ≡ 100 * second))
authenticate_after_revoke_example =
    authenticate_after_revoke ssh settings bobs_world bob_logs_in bobs_key 200 [] disabled_bob
      bob-Passes bobs_row refl

abbrev environment : Environment
environment = record {
  unmarshal = λ payload. none;
  can_accept = true;
  can_close = true;
  node_id = n1;
  postgres_address = codes "localhost:5432";
  query = bob_on_n2;
  now = 200;
}

peer_never_forwards_example :
    let connection =
      new_connection ((codes "peer", []) ∷ (codes "identity", n2) ∷ []) peer_user [] in
    let decision =
      (handle_channel environment connection gateway mesh
        (record { channel_type = codes "session"; extra_data = [] })).1 in
    (decision
      ≢ accepts (
          to_peer peer_n2 (record { host = web; port = 80; origin_address = []; origin_port = 0 })))
    × (decision ≢ accepts session)
peer_never_forwards_example =
    peer_never_forwards ssh settings true world peer_logs_in peers_key 200 [] environment gateway
      mesh (record { channel_type = codes "session"; extra_data = [] }) peer_n2
      (record { host = web; port = 80; origin_address = []; origin_port = 0 }) refl peer_ok

authenticate_after_stale_record_example :
    let kicked = Auth.revoke_user_flags bob bobs_world.user_flags in
    let recorded : World = record bobs_world {
      user_flags = Auth.put_user_flags kicked bob zero_user 100;
    } in
    (authenticate ssh settings true recorded bob_logs_in bobs_key 200).result
    ≡ ok (Auth.with_administrator false (Auth.without_peer []))
authenticate_after_stale_record_example =
    authenticate_after_stale_record ssh settings true bobs_world bob_logs_in bobs_key 100 200 []
      zero_user disabled_bob bob-Passes bobs_row refl refl (ground arith)
