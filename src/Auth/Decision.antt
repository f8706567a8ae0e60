-- ===== src/Auth/Decision.antt =====
-- auth/auth.go: what the flags of a user decide, and what a login records.
use gatewaysshd.Common.{
  ℕ, ◌≡◌, ◌≢◌, Bool, true, false, not, [], none, some, Text, codes, text_key, nat_key,
  if◌then◌else◌, arith,
}
use gatewaysshd.Common.Dict.{lookup, delete, lookup-insert, lookup-delete}
use gatewaysshd.Errors.{ok, err, invalid_credentials}
use gatewaysshd.Db.{User, upsert_user_on_connect}
use gatewaysshd.Db.Login.{upsert_user_on_connect_lem, upsert_user_on_connect_known}
use gatewaysshd.Auth.{
  World, Meta, Settings, FlagsCache, UserFlags, authenticate, authenticate_user, is_authority,
  peer_user, login_cached, login_fresh, with_administrator, without_peer, get_user_flags,
  record_login, revoke_user_flags,
}
use gatewaysshd.Auth.Flags.{get_user_flags-revoke_user_flags}
use gatewaysshd.Auth.Ssh.{SshLibrary, Extensions}

-- The extension that makes an administrator.
abbrev pub administrator : Text
administrator = codes "administrator"

-- The row that the login statement would return.
abbrev pub stored_user : Text → World → Meta → ℕ → User
stored_user node_id self meta now =
    (upsert_user_on_connect self.db meta.user meta.ip meta.location node_id now).1

revoked_missed :
    (self : FlagsCache) (user : Text) (now : ℕ)
    → (get_user_flags (revoke_user_flags user self) user now).1 ≡ none
revoked_missed self user now = ground (arith, get_user_flags-revoke_user_flags self user user now)

administrator-without_peer :
    (permissions : Extensions)
    → lookup administrator (without_peer permissions) ≡ lookup administrator permissions
unfolding without_peer
administrator-without_peer permissions = ground (
  arith,
  lookup-delete (codes "identity") administrator (delete (codes "peer") permissions),
  lookup-delete (codes "peer") administrator permissions,
)

module _ (ssh : SshLibrary) where
  open ssh use {PublicKey, check_certificate}

  -- The certificate passes, with these permissions.
  abbrev pub Passes : Settings ssh → Meta → PublicKey → Extensions → Type 0
  Passes settings meta key permissions =
      (meta.user ≢ peer_user)
      × (check_certificate (is_authority ssh settings.ca_public_keys) meta.user key
          ≡ ok permissions)

  -- With no fresh flags in the cache, the row in the database decides: a disabled user is refused,
  -- and any other is let in, as an administrator if the row or the certificate says so.
  pub authenticate_uncached :
      (settings : Settings ssh) (self : World) (meta : Meta) (key : PublicKey) (now : ℕ)
      (permissions : Extensions)
      → Passes settings meta key permissions
      → (get_user_flags self.user_flags meta.user now).1 ≡ none
      → let user = stored_user settings.node_id self meta now in
        let after = authenticate ssh settings true self meta key now in
        (after.result ≡ (
          if user.disabled
          then err invalid_credentials
          else ok (with_administrator user.administrator (without_peer permissions))))
        × (after.world.db
            ≡ (upsert_user_on_connect self.db meta.user meta.ip meta.location settings.node_id
                now).0)
        × (after.records_login ≡ false)
  unfolding authenticate authenticate_user login_fresh record_login
  authenticate_uncached settings self meta key now permissions (named, checked) missed =
      ground arith

  -- With fresh flags in the cache, they decide, and the database is not touched. Only a login that
  -- is let in is handed to the background to be recorded.
  pub authenticate_cached :
      (settings : Settings ssh) (reachable : Bool) (self : World) (meta : Meta) (key : PublicKey)
      (now : ℕ) (permissions : Extensions) (flags : UserFlags)
      → Passes settings meta key permissions
      → (get_user_flags self.user_flags meta.user now).1 ≡ some flags
      → let after = authenticate ssh settings reachable self meta key now in
        (after.result ≡ (
          if flags.disabled
          then err invalid_credentials
          else ok (with_administrator flags.administrator (without_peer permissions))))
        × (after.world.db ≡ self.db)
        × (after.records_login ≡ not flags.disabled)
  unfolding authenticate authenticate_user login_cached
  authenticate_cached settings reachable self meta key now permissions flags (named, checked) hit =
      ground arith

  -- A user who was disabled in the database and then kicked cannot come back: the next login with a
  -- certificate that passes, while the database answers, is refused whatever the cache held, and
  -- leaves the user's presence as it was.
  pub authenticate_after_revoke :
      (settings : Settings ssh) (self : World) (meta : Meta) (key : PublicKey) (now : ℕ)
      (permissions : Extensions) (old : User)
      → Passes settings meta key permissions
      → lookup meta.user self.db.users ≡ some old
      → old.disabled ≡ true
      → let kicked = record self { user_flags = revoke_user_flags meta.user self.user_flags } in
        let after = authenticate ssh settings true kicked meta key now in
        (after.result ≡ err invalid_credentials)
        × ((user : User) × (lookup meta.user after.world.db.users ≡ some user)
            × (user.node_id ≡ old.node_id)
            × (user.online_at ≡ old.online_at))
  authenticate_after_revoke settings self meta key now permissions old p e disabled =
      let kicked : World = record self {
        user_flags = revoke_user_flags meta.user self.user_flags;
      } in
      let missed = revoked_missed self.user_flags meta.user now in
      let (decided, stored, _) =
        authenticate_uncached settings kicked meta key now permissions p missed in
      let (user, held, _, barred, _, _, _, _, node, seen) =
        upsert_user_on_connect_known self.db meta.user meta.ip meta.location settings.node_id now
          old e in
      let row =
        upsert_user_on_connect_lem self.db meta.user meta.ip meta.location settings.node_id now
          meta.user in
      (
        ground (arith, decided, held, barred, row),
        (user, ground (arith, stored, held), ground (arith, node), ground (arith, seen)),
      )

  -- Of a user who is let in with no fresh flags in the cache, while the database answers, the
  -- administrator's extension is the empty one if the row returned says so, and what the certificate
  -- carries if not: a row without the mark does not take away what the certificate gives.
  pub administrator_iff :
      (settings : Settings ssh) (self : World) (meta : Meta) (key : PublicKey) (now : ℕ)
      (permissions : Extensions) {extensions : Extensions}
      → Passes settings meta key permissions
      → (get_user_flags self.user_flags meta.user now).1 ≡ none
      → (authenticate ssh settings true self meta key now).result ≡ ok extensions
      → lookup administrator extensions ≡ (
          if (stored_user settings.node_id self meta now).administrator
          then some []
          else lookup administrator permissions)
  unfolding with_administrator
  administrator_iff settings self meta key now permissions {extensions} p missed h =
      let decided = (authenticate_uncached settings self meta key now permissions p missed).0 in
      ground (
        arith,
        decided,
        lookup-insert administrator administrator [] (without_peer permissions),
        administrator-without_peer permissions,
      )
