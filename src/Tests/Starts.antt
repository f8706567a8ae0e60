-- ===== src/Tests/Starts.antt =====
-- Tests of the start: a key is a letter, a file holds the letters of its keys, and the node reaches
-- postgres through a peer.
use gatewaysshd.Common.{
  ℕ, ◌≡◌, ◌≢◌, refl, [], ◌∷◌, Option, none, some, Text, codes, arith, text_discrete, ℕ_discrete,
  text_key,
}
use gatewaysshd.Errors.{ok, err, permission_denied}
use gatewaysshd.Channels.{Environment, fails, handle_postgres_channel}
use gatewaysshd.Proxy.Split.{holds, parse_digits, parse_uint}
use gatewaysshd.Startup.{
  KeyLibrary, out_of_fuel, Flags, default_flags, parse_keys, parse_public_keys, parse_node_signer,
  parse_host_signer, parse_postgres_password, trim_line_end,
}
use gatewaysshd.Startup.Postgres.{digits, dsn, open_dialector}
use gatewaysshd.Startup.Settings.{
  Config, configure, database_settings, gateway_settings, peer_authorities, published_key,
}
use gatewaysshd.Startup.Keys.{Reads, Shrinks, parse_keys_terminates}
use gatewaysshd.Startup.Roles.{LedThrough, configure_through_peer}
use gatewaysshd.Tests.{alices_connection, n1}
use gatewaysshd.Tests.Logins.{ssh, Key}
use gatewaysshd.Tests.Forwarding.{environment}

abbrev first_key : Text → Option (Key × Text)
first_key [] = none
first_key (c ∷ rest) = some ((c ∷ [], [], []), rest)

-- Every key is a certificate of itself, and a signer is its key.
abbrev pub keys : KeyLibrary Key
keys = record {
  Signer = Key;
  parse_authorized_key = first_key;
  parse_private_key = λ raw. some (raw, [], []);
  new_cert_signer = λ key signer. some key;
  public_key = λ signer. signer;
  certified_key = λ key. some key;
}

-- Each file holds its own name.
abbrev pub read_file : Text → Option Text
read_file path = some path

abbrev pub flags : Flags
flags = record default_flags {
  ca_public_key = codes "ca";
  host_private_key = codes "h";
  host_public_key = codes "p";
  node_certificate = codes "n";
  node_id = n1;
  node_address = codes "n1:22";
  idle_timeout = codes "10m";
  postgres_host = codes "db";
  postgres_user = codes "gateway";
  postgres_password = codes "secret";
  postgres_dbname = codes "gateway";
  postgres_sslmode = [];
  postgres_peer = codes "n2:22";
  postgres_peer_host_public_key = codes "k";
}

abbrev pub ten_minutes : Text → Option ℕ
ten_minutes text = some 600

program' : Unit {0}
unfolding text_discrete ℕ_discrete parse_keys parse_public_keys parse_node_signer parse_host_signer
    parse_postgres_password trim_line_end digits dsn open_dialector configure database_settings
    gateway_settings peer_authorities published_key holds parse_digits parse_uint
program' = tt

first_key-Shrinks : Shrinks ssh keys read_file
first_key-Shrinks [] rest key h = absurd cc
first_key-Shrinks (c ∷ raw) rest key h = ground arith

parse_keys_terminates_example :
    Reads ssh keys read_file (codes "abc") (parse_keys ssh keys read_file 3 (codes "abc"))
    × (parse_keys ssh keys read_file 3 (codes "abc") ≢ out_of_fuel)
parse_keys_terminates_example =
    parse_keys_terminates ssh keys read_file 3 (codes "abc") first_key-Shrinks (ground arith)

abbrev config : Config ssh keys read_file
config = elim (configure ssh keys read_file ten_minutes flags) [
  | ok c ↦ c
  | err e ↦ record {
    database = record {
      host = [];
      port = 0;
      user = [];
      password = [];
      database_name = [];
      ssl_mode = [];
      peer_address = [];
      peer_signer = none;
      peer_host_public_key = none;
    };
    auth = record { ca_public_keys = []; peer_ca_public_keys = []; node_id = [] };
    gateway = record {
      node_id = [];
      node_address = [];
      host_public_key = ([], [], []);
      node_signer = none;
      postgres_address = [];
    };
    idle_timeout = 0;
  }
]

configured : configure ssh keys read_file ten_minutes flags ≡ ok config
unfolding program'
configured = refl

abbrev without_postgres : Environment
without_postgres = record environment { postgres_address = [] }

no_address : without_postgres.postgres_address ≡ config.gateway.postgres_address
unfolding program'
no_address = refl

configure_through_peer_example :
    ((signer : Option Key) × (parse_node_signer ssh keys read_file flags ≡ ok signer)
      × LedThrough ssh keys read_file ten_minutes flags signer
          (parse_public_keys ssh keys read_file (codes "k"))
          config.database)
    × (handle_postgres_channel without_postgres alices_connection ≡ fails permission_denied)
configure_through_peer_example =
    configure_through_peer ssh keys read_file ten_minutes flags {config = config} without_postgres
      alices_connection configured (λ e. ground arith) no_address
