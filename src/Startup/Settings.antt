-- ===== src/Startup/Settings.antt =====
-- cli/run.go: the settings of the database, of the logins and of the gateway; and the check of a host
-- key of util/sshconfig/sshconfig.go.
use gatewaysshd.Common.{
  ℕ, List, [], ◌∷◌, ◌++◌, Option, none, some, Text, ◌==◌, nat_key, text_key, if◌then◌else◌, ltb,
}
use gatewaysshd.Errors.{Result, ok, err, ◌>>=◌, ssh_failed, bad_flag}
use gatewaysshd.Auth
use gatewaysshd.Auth.Ssh.{SshLibrary}
use gatewaysshd.Startup.{
  KeyLibrary, Parsed, parsed, failed, out_of_fuel, Flags, or_fail, parse_public_keys,
  parse_node_signer, parse_host_signer, parse_postgres_password,
}
use gatewaysshd.Startup.Postgres.{DatabaseSettings, digits, decimal}

-- gateway.Settings.
pub record GatewaySettings (PublicKey Signer : Type 0) : Type 0 where
  pub node_id : Text
  pub node_address : Text
  pub host_public_key : PublicKey
  pub node_signer : Option Signer
  pub postgres_address : Text

module _ (ssh : SshLibrary) (keys : KeyLibrary ssh.PublicKey) (read_file : Text → Option Text) where
  open ssh use {PublicKey, marshal}
  open keys use {
    Signer, parse_authorized_key, parse_private_key, new_cert_signer, public_key, certified_key,
  }

  abbrev pub or_error : Parsed PublicKey → Result (List PublicKey)
  or_error (parsed ks) = ok ks
  or_error failed = err ssh_failed
  or_error out_of_fuel = err ssh_failed

  unfoldable pub peer_authorities : Flags → Result (List PublicKey)
  peer_authorities flags =
      if flags.peer_ca_public_key == []
      then ok []
      else or_error (parse_public_keys ssh keys read_file flags.peer_ca_public_key)

  abbrev pub direct_settings : Flags → Text → DatabaseSettings PublicKey Signer
  direct_settings flags password = record {
    host = flags.postgres_host;
    port = flags.postgres_port;
    user = flags.postgres_user;
    password = password;
    database_name = flags.postgres_dbname;
    ssl_mode = flags.postgres_sslmode;
    peer_address = [];
    peer_signer = none;
    peer_host_public_key = none;
  }

  -- A peer needs a signer and a pinned key, the first one of its file.
  abbrev pub through :
      DatabaseSettings PublicKey Signer
      → Text
      → Option Signer
      → Parsed PublicKey
      → Result (DatabaseSettings PublicKey Signer)
  through settings peer_address none pinned = err bad_flag
  through settings peer_address (some signer) failed = err bad_flag
  through settings peer_address (some signer) out_of_fuel = err bad_flag
  through settings peer_address (some signer) (parsed []) = err bad_flag
  through settings peer_address (some signer) (parsed (key ∷ others)) = ok (record settings {
    peer_address = peer_address;
    peer_signer = some signer;
    peer_host_public_key = some key;
  })

  unfoldable pub database_settings :
      Flags → Option Signer → Result (DatabaseSettings PublicKey Signer)
  unfolding parse_postgres_password parse_public_keys
  database_settings flags node_signer =
      if ltb 65535 flags.postgres_port
      then err bad_flag
      else (parse_postgres_password ssh keys read_file flags >>= λ password.
          let settings = direct_settings flags password in
          if flags.postgres_peer == []
          then ok settings
          else through settings flags.postgres_peer node_signer
              (parse_public_keys ssh keys read_file flags.postgres_peer_host_public_key))

  -- A certificate is published as the key that it holds.
  unfoldable pub published_key : Signer → PublicKey
  published_key signer = elim (certified_key (public_key signer)) [
    | none ↦ public_key signer
    | some key ↦ key
  ]

  -- Only a node with a database of its own bridges to it.
  unfoldable pub gateway_settings :
      Flags → Signer → Option Signer → GatewaySettings PublicKey Signer
  unfolding digits
  gateway_settings flags host_signer node_signer = record {
    node_id = flags.node_id;
    node_address = flags.node_address;
    host_public_key = published_key host_signer;
    node_signer = node_signer;
    postgres_address =
        if flags.postgres_peer == []
        then flags.postgres_host ++ (b':' ∷ decimal flags.postgres_port)
        else [];
  }

  pub record Config : Type 0 where
    pub database : DatabaseSettings PublicKey Signer
    pub auth : Auth.Settings ssh
    pub gateway : GatewaySettings PublicKey Signer
    pub idle_timeout : ℕ

  -- The settings that cli/run.go makes, `parse_duration` being that of the package time.
  unfoldable pub configure : (Text → Option ℕ) → Flags → Result Config
  configure parse_duration flags =
      or_error (parse_public_keys ssh keys read_file flags.ca_public_key) >>= λ ca_public_keys.
      parse_host_signer ssh keys read_file flags >>= λ host_signer.
      or_fail ssh keys read_file (parse_duration flags.idle_timeout) >>= λ idle_timeout.
      peer_authorities flags >>= λ peer_ca_public_keys.
      parse_node_signer ssh keys read_file flags >>= λ node_signer.
      database_settings flags node_signer >>= λ database. ok (record {
        database = database;
        auth = record {
          ca_public_keys = ca_public_keys;
          peer_ca_public_keys = peer_ca_public_keys;
          node_id = flags.node_id;
        };
        gateway = gateway_settings flags host_signer node_signer;
        idle_timeout = idle_timeout;
      })

  -- util/sshconfig/sshconfig.go, CheckPinnedHostKey: the key is compared, or that of its certificate.
  unfoldable pub check_pinned_host_key : PublicKey → PublicKey → Result (Unit {0})
  check_pinned_host_key pinned key =
      let bare : PublicKey = elim (certified_key key) [ none ↦ key | some k ↦ k ] in
      if marshal bare == marshal pinned then ok tt else err ssh_failed
