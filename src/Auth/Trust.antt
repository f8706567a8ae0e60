-- ===== src/Auth/Trust.antt =====
-- auth/auth.go: the two certificate authorities are kept apart.
use gatewaysshd.Common.{
  ℕ, ◌≡◌, ◌≢◌, inl, inr, sym, subst, Bool, true, List, [], ◌∷◌, Option, none, some, Text, codes,
  text_key, nat_key, arith, Option-cases,
}
use gatewaysshd.Common.Dict.{lookup, delete, lookup-insert, lookup-delete}
use gatewaysshd.Errors.{ok, Result-cases}
use gatewaysshd.Auth.{
  World, FlagsCache, Meta, Settings, is_authority, authenticate, authenticate_peer,
  authenticate_user, peer_user, login_cached, login_fresh, with_administrator, without_peer,
  get_user_flags, UserFlags, record_login,
}
use gatewaysshd.Auth.Ssh.{SshLibrary, Extensions}

abbrev pub HasNoPeer : Extensions → Type 0
HasNoPeer extensions =
    (lookup (codes "peer") extensions ≡ none) × (lookup (codes "identity") extensions ≡ none)

without_peer-HasNoPeer : (extensions : Extensions) → HasNoPeer (without_peer extensions)
unfolding without_peer
without_peer-HasNoPeer extensions = ground (
  arith,
  lookup-delete (codes "identity") (codes "peer") (delete (codes "peer") extensions),
  lookup-delete (codes "identity") (codes "identity") (delete (codes "peer") extensions),
  lookup-delete (codes "peer") (codes "peer") extensions,
)

with_administrator-HasNoPeer :
    (administrator : Bool) (extensions : Extensions)
    → HasNoPeer extensions
    → HasNoPeer (with_administrator administrator extensions)
unfolding with_administrator
with_administrator-HasNoPeer administrator extensions h = ground (
  arith,
  lookup-insert (codes "administrator") (codes "peer") [] extensions,
  lookup-insert (codes "administrator") (codes "identity") [] extensions,
)

-- The login decision adds at most the administrator's extension.
login_cached_inv :
    (self : World) (flags : UserFlags) (permissions : Extensions) {extensions : Extensions}
    → (login_cached self flags permissions).result ≡ ok extensions
    → (a : Bool) × (extensions ≡ with_administrator a permissions)
unfolding login_cached
login_cached_inv self flags permissions h = (flags.administrator, ground arith)

login_fresh_inv :
    (node_id : Text) (reachable : Bool) (self : World) (meta : Meta) (now : ℕ)
    (permissions : Extensions) {extensions : Extensions}
    → (login_fresh node_id reachable self meta now permissions).result ≡ ok extensions
    → (a : Bool) × (extensions ≡ with_administrator a permissions)
unfolding login_fresh
login_fresh_inv node_id reachable self meta now permissions h =
    ((record_login node_id self meta now).1.administrator, ground arith)

module _ (ssh : SshLibrary) where
  open ssh use {
    PublicKey, marshal, certificate_key_id, signature_key, check_certificate, accepted_authority,
  }

  -- The key was signed by one of the authorities.
  abbrev pub SignedBy : List PublicKey → PublicKey → Type 0
  SignedBy cas key =
      (ca : PublicKey) × (signature_key key ≡ some ca) × (is_authority ssh cas ca ≡ true)

  authenticate_user_inv :
      (settings : Settings ssh) (reachable : Bool) (self : World) (meta : Meta) (key : PublicKey)
      (now : ℕ) {extensions : Extensions}
      → (authenticate_user ssh settings reachable self meta key now).result ≡ ok extensions
      → (permissions : Extensions) × (check_certificate
            (is_authority ssh settings.ca_public_keys)
            meta.user
            key
          ≡ ok permissions)
        × ((a : Bool) × (extensions ≡ with_administrator a (without_peer permissions)))
  unfolding authenticate_user
  authenticate_user_inv settings reachable self meta key now {extensions} h =
      elim (Result-cases
        (check_certificate (is_authority ssh settings.ca_public_keys) meta.user key)) [
          | inl (e, refused) ↦ absurd (ground arith)
          | inr (permissions, checked) ↦ (permissions, checked, decided permissions checked)
        ]
    where
      read : FlagsCache × Option UserFlags
      read = get_user_flags self.user_flags meta.user now

      self' : World
      self' = record self { user_flags = read.0 }

      decided :
          (permissions : Extensions)
          → check_certificate (is_authority ssh settings.ca_public_keys) meta.user key
            ≡ ok permissions
          → (a : Bool) × (extensions ≡ with_administrator a (without_peer permissions))
      decided permissions checked = elim (Option-cases read.1) [
        | inl missed ↦
            login_fresh_inv settings.node_id reachable self' meta now (without_peer permissions)
              {extensions = extensions} (ground arith)
        | inr (flags, hit) ↦
            login_cached_inv self' flags (without_peer permissions) {extensions = extensions}
              (ground arith)
      ]

  -- A user who is let in has a certificate of a user authority, and no permission that marks a
  -- peer node, whatever extensions the certificate carries.
  pub authenticate_as_user :
      (settings : Settings ssh) (reachable : Bool) (self : World) (meta : Meta) (key : PublicKey)
      (now : ℕ) {extensions : Extensions}
      → meta.user ≢ peer_user
      → (authenticate ssh settings reachable self meta key now).result ≡ ok extensions
      → SignedBy settings.ca_public_keys key × HasNoPeer extensions
  unfolding authenticate
  authenticate_as_user settings reachable self meta key now {extensions} named h =
      let (permissions, checked, (a, e)) =
        authenticate_user_inv settings reachable self meta key now {extensions = extensions}
          (ground arith) in
      (
        accepted_authority (is_authority ssh settings.ca_public_keys) meta.user key checked,
        subst HasNoPeer (sym e) (
            with_administrator-HasNoPeer a (without_peer permissions)
              (without_peer-HasNoPeer permissions)),
      )

  -- A client that is let in under the reserved name has a certificate of a peer authority with a
  -- key id, and exactly the permissions of the node of that id. The login leaves no trace.
  pub authenticate_as_peer :
      (settings : Settings ssh) (reachable : Bool) (self : World) (meta : Meta) (key : PublicKey)
      (now : ℕ) {extensions : Extensions}
      → meta.user ≡ peer_user
      → (authenticate ssh settings reachable self meta key now).result ≡ ok extensions
      → SignedBy settings.peer_ca_public_keys key
        × ((key_id : Text) × (certificate_key_id key ≡ some key_id)
            × (key_id ≢ [])
            × (extensions ≡ (codes "peer", []) ∷ (codes "identity", key_id) ∷ []))
        × ((authenticate ssh settings reachable self meta key now).world ≡ self)
  unfolding authenticate authenticate_peer
  authenticate_as_peer settings reachable self meta key now {extensions} named h =
      elim (Result-cases
        (check_certificate (is_authority ssh settings.peer_ca_public_keys) meta.user key)) [
          | inl (e, refused) ↦ absurd (ground arith)
          | inr (permissions, checked) ↦ elim (Option-cases (certificate_key_id key)) [
            | inl missing ↦ absurd (ground arith)
            | inr (key_id, found) ↦ (
              accepted_authority (is_authority ssh settings.peer_ca_public_keys) meta.user key
                  checked,
              (key_id, found, ground arith, ground arith),
              ground arith,
            )
          ]
        ]
