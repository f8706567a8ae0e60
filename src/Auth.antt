-- ===== src/Auth.antt =====
-- auth/auth.go: who may log in, and with what permissions. The ssh library's types and its
-- certificate check are the parameter `Ssh`; the address and the location of the client are texts,
-- and each handler reads the clock once.
pub mod Ssh
pub mod Flags
pub mod Decision
pub mod Background
pub mod Trust
use gatewaysshd.Common.{
  ℕ, ◌+◌, ◌*◌, Bool, true, false, not, ◌||◌, List, [], ◌∷◌, Option, none, some, Text, codes, ◌==◌,
  text_key, nat_key, if◌then◌else◌, ltb, leb, length,
}
use gatewaysshd.Common.Dict.{Dict, lookup, insert, delete, retain}
use gatewaysshd.Errors.{Result, ok, err, ◌>>=◌, invalid_credentials, database_failed}
use gatewaysshd.Db.{User, Db, upsert_user_on_connect}
use gatewaysshd.RouteCache.{second}
use Ssh.{SshLibrary, Extensions}

abbrev pub peer_user : Text
peer_user = codes "peer"

abbrev pub user_flags_time_to_live : ℕ
user_flags_time_to_live = 60 * second

abbrev pub user_flags_max_entries : ℕ
user_flags_max_entries = 4096

pub record UserFlags : Type 0 where
  pub administrator : Bool
  pub disabled : Bool
  pub expires_at : ℕ

abbrev pub FlagsCache : Type 0
FlagsCache = Dict Text UserFlags

-- An expired entry is dropped when it is met.
unfoldable pub get_user_flags : FlagsCache → Text → ℕ → FlagsCache × Option UserFlags
get_user_flags self user_id now = elim (lookup user_id self) [
  | none ↦ (self, none)
  | some flags ↦
      if ltb flags.expires_at now then (delete user_id self, none) else (self, some flags)
]

unfoldable pub make_room : FlagsCache → ℕ → FlagsCache
make_room self now =
    if leb user_flags_max_entries (length self)
    then (let kept = retain (λ _ flags. not (ltb flags.expires_at now)) self in
        if leb user_flags_max_entries (length kept) then [] else kept)
    else self

abbrev pub flags_of : User → ℕ → UserFlags
flags_of user now = record {
  administrator = user.administrator;
  disabled = user.disabled;
  expires_at = now + user_flags_time_to_live;
}

unfoldable pub put_user_flags : FlagsCache → Text → User → ℕ → FlagsCache
put_user_flags self user_id user now = insert user_id (flags_of user now) (make_room self now)

unfoldable pub revoke_user_flags : Text → FlagsCache → FlagsCache
revoke_user_flags user_id self = delete user_id self

-- The login cache of this node, and the database.
pub record World : Type 0 where
  pub user_flags : FlagsCache
  pub db : Db

-- What a client presents: the user name, and where it comes from.
pub record Meta : Type 0 where
  pub user : Text
  pub ip : Text
  pub location : Text

-- A login that the background goroutine is to record.
pub record Outcome : Type 0 where
  pub world : World
  pub result : Result Extensions
  pub records_login : Bool

-- The login statement, then its row in the cache.
unfoldable pub record_login : Text → World → Meta → ℕ → World × User
record_login node_id self meta now =
    let stored = upsert_user_on_connect self.db meta.user meta.ip meta.location node_id now in
    (
      record { user_flags = put_user_flags self.user_flags meta.user stored.1 now; db = stored.0 },
      stored.1,
    )

unfoldable pub with_administrator : Bool → Extensions → Extensions
with_administrator administrator extensions =
    if administrator then insert (codes "administrator") [] extensions else extensions

unfoldable pub without_peer : Extensions → Extensions
without_peer extensions = delete (codes "identity") (delete (codes "peer") extensions)

-- The login of a user whose flags are cached.
unfoldable pub login_cached : World → UserFlags → Extensions → Outcome
login_cached self flags extensions =
    if flags.disabled
    then record { world = self; result = err invalid_credentials; records_login = false }
    else record {
      world = self;
      result = ok (with_administrator flags.administrator extensions);
      records_login = true;
    }

-- The login of a user whose flags are read from the database, which may be out of reach.
unfoldable pub login_fresh : Text → Bool → World → Meta → ℕ → Extensions → Outcome
login_fresh node_id reachable self meta now extensions =
    if reachable
    then (let stored = record_login node_id self meta now in
        record {
          world = stored.0;
          result =
              if stored.1.disabled
              then err invalid_credentials
              else ok (with_administrator stored.1.administrator extensions);
          records_login = false;
        })
    else record { world = self; result = err database_failed; records_login = false }

module _ (ssh : SshLibrary) where
  open ssh use {PublicKey, marshal, certificate_key_id, check_certificate}

  pub record Settings : Type 0 where
    pub ca_public_keys : List PublicKey
    pub peer_ca_public_keys : List PublicKey
    pub node_id : Text

  -- The callback IsUserAuthority over a list of authorities.
  unfoldable pub is_authority : List PublicKey → PublicKey → Bool
  is_authority [] key = false
  is_authority (ca ∷ cas) key = marshal ca == marshal key || is_authority cas key

  unfoldable pub authenticate_peer : Settings → Meta → PublicKey → Result Extensions
  authenticate_peer settings meta key =
      if length settings.peer_ca_public_keys == 0
      then err invalid_credentials
      else (check_certificate (is_authority settings.peer_ca_public_keys) meta.user key >>= λ _.
          elim (certificate_key_id key) [
            | none ↦ err invalid_credentials
            | some key_id ↦
                if key_id == []
                then err invalid_credentials
                else ok ((codes "peer", []) ∷ (codes "identity", key_id) ∷ [])
          ])

  unfoldable pub authenticate_user : Settings → Bool → World → Meta → PublicKey → ℕ → Outcome
  authenticate_user settings reachable self meta key now =
      elim (check_certificate (is_authority settings.ca_public_keys) meta.user key) [
        | err e ↦ record { world = self; result = err e; records_login = false }
        | ok permissions ↦
            let extensions = without_peer permissions in
            let read = get_user_flags self.user_flags meta.user now in
            let self' = record self { user_flags = read.0 } in
            elim read.1 [
              | none ↦ login_fresh settings.node_id reachable self' meta now extensions
              | some flags ↦ login_cached self' flags extensions
            ]
      ]

  unfoldable pub authenticate : Settings → Bool → World → Meta → PublicKey → ℕ → Outcome
  authenticate settings reachable self meta key now =
      if meta.user == peer_user
      then record {
        world = self;
        result = authenticate_peer settings meta key;
        records_login = false;
      }
      else authenticate_user settings reachable self meta key now
