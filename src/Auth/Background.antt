-- ===== src/Auth/Background.antt =====
-- auth/auth.go: the login that is recorded in the background, when it comes before or after a kick.
use gatewaysshd.Common.{
  ℕ, ◌+◌, ◌≤◌, ◌≡◌, ap, ◌∙◌, Bool, true, false, some, text_key, nat_key, arith,
}
use gatewaysshd.Common.Dict.{lookup}
use gatewaysshd.Errors.{ok, err, invalid_credentials}
use gatewaysshd.Db.{User, upsert_user_on_connect}
use gatewaysshd.Db.Login.{upsert_user_on_connect_lem, upsert_user_on_connect_known}
use gatewaysshd.Auth.{
  World, Meta, Settings, user_flags_time_to_live, flags_of, put_user_flags, revoke_user_flags,
  record_login, authenticate, with_administrator, without_peer,
}
use gatewaysshd.Auth.Flags.{get_user_flags-put_user_flags}
use gatewaysshd.Auth.Decision.{Passes, authenticate_cached}
use gatewaysshd.Auth.Ssh.{SshLibrary, Extensions}

module _ (ssh : SshLibrary) where
  open ssh use {PublicKey}

  -- A background login that finds the user disabled in the database closes the door: every login of
  -- the user within the minute is refused, without asking the database, and the presence in the row
  -- stays as it was.
  pub authenticate_after_record :
      (settings : Settings ssh) (reachable : Bool) (self : World) (meta : Meta) (key : PublicKey)
      (now later : ℕ) (permissions : Extensions) (old : User)
      → Passes ssh settings meta key permissions
      → lookup meta.user self.db.users ≡ some old
      → old.disabled ≡ true
      → later ≤ now + user_flags_time_to_live
      → let recorded = (record_login settings.node_id self meta now).0 in
        let after = authenticate ssh settings reachable recorded meta key later in
        (after.result ≡ err invalid_credentials)
        × ((user : User) × (lookup meta.user after.world.db.users ≡ some user)
            × (user.node_id ≡ old.node_id)
            × (user.online_at ≡ old.online_at))
  unfolding record_login
  authenticate_after_record settings reachable self meta key now later permissions old p e disabled
        soon =
      let recorded = (record_login settings.node_id self meta now).0 in
      let stored =
        upsert_user_on_connect self.db meta.user meta.ip meta.location settings.node_id now in
      let (user, row, _, off, _, _, _, _, node, online) =
        upsert_user_on_connect_known self.db meta.user meta.ip meta.location settings.node_id now
          old e in
      let returned =
        upsert_user_on_connect_lem self.db meta.user meta.ip meta.location settings.node_id now
          meta.user in
      let shut : stored.1.disabled ≡ true = ground (arith, returned, row, off, disabled) in
      let hit = get_user_flags-put_user_flags self.user_flags meta.user stored.1 now later in
      let (refused, kept, _) =
        authenticate_cached ssh settings reachable recorded meta key later permissions
          (flags_of stored.1 now) p (ground (arith, hit, soon)) in
      (
        ground (arith, refused, shut),
        (
          user,
          ap (λ db. lookup meta.user db.users) kept ∙ row,
          ground (arith, node, disabled),
          ground (arith, online, disabled),
        ),
      )

  -- A background login that read the row before the user was disabled, and stores its flags after a
  -- kick revoked those of the user, lets the user in again for a minute, though the row is disabled.
  pub authenticate_after_stale_record :
      (settings : Settings ssh) (reachable : Bool) (self : World) (meta : Meta) (key : PublicKey)
      (now later : ℕ) (permissions : Extensions) (stale row : User)
      → Passes ssh settings meta key permissions
      → lookup meta.user self.db.users ≡ some row
      → row.disabled ≡ true
      → stale.disabled ≡ false
      → later ≤ now + user_flags_time_to_live
      → let kicked = revoke_user_flags meta.user self.user_flags in
        let recorded = record self { user_flags = put_user_flags kicked meta.user stale now } in
        (authenticate ssh settings reachable recorded meta key later).result
        ≡ ok (with_administrator stale.administrator (without_peer permissions))
  authenticate_after_stale_record settings reachable self meta key now later permissions stale row p
        e disabled enabled soon =
      let kicked = revoke_user_flags meta.user self.user_flags in
      let recorded : World = record self {
        user_flags = put_user_flags kicked meta.user stale now;
      } in
      let hit = get_user_flags-put_user_flags kicked meta.user stale now later in
      let (accepted, _, _) =
        authenticate_cached ssh settings reachable recorded meta key later permissions
          (flags_of stale now) p (ground (arith, hit, soon)) in
      ground (arith, accepted, enabled)
