-- ===== src/Startup.antt =====
-- cli/flags.go: what is read of the files that the command line names. The parsers of keys are the ssh
-- library's, and `read_file` is the file system.
pub mod Keys
pub mod Postgres
pub mod Settings
pub mod Roles
pub mod Ports
pub mod Run
pub mod Serving
use gatewaysshd.Common.{
  ℕ, zero, suc, ◌+◌, ◌/◌, ◌%◌, Bool, true, false, not, ◌&&◌, ◌||◌, List, [], ◌∷◌, ◌++◌, Option,
  none, some, Text, codes, ◌==◌, nat_key, text_key, if◌then◌else◌, ltb, length,
}
use mathlib.Core.Option
use gatewaysshd.Errors.{Result, ok, err, ◌>>=◌, ssh_failed, io_failed, bad_flag}
use gatewaysshd.Auth
use gatewaysshd.Auth.Ssh.{SshLibrary}

-- The part of the ssh library that reads keys, and the signers that it makes.
pub record KeyLibrary (PublicKey : Type 0) : Type 1 where
  pub Signer : Type 0
  -- the first key of a text, and the text behind it
  pub parse_authorized_key : Text → Option (PublicKey × Text)
  pub parse_private_key : Text → Option Signer
  pub new_cert_signer : PublicKey → Signer → Option Signer
  pub public_key : Signer → PublicKey
  -- the key that a certificate holds, if the key is a certificate
  pub certified_key : PublicKey → Option PublicKey

-- What a loop over the keys of a text ends with.
pub data Parsed (PublicKey : Type 0) : Type 0 where
  parsed : List PublicKey → Parsed PublicKey
  failed : Parsed PublicKey
  out_of_fuel : Parsed PublicKey

abbrev pub prepend : {PublicKey : Type 0} → PublicKey → Parsed PublicKey → Parsed PublicKey
prepend key (parsed keys) = parsed (key ∷ keys)
prepend key failed = failed
prepend key out_of_fuel = out_of_fuel

pub record Flags : Type 0 where
  pub listen_debug : Text
  pub listen_ssh : Text
  pub listen_http : Text
  pub listen_socks : Text
  pub listen_http_proxy : Text
  pub server_version : Text
  pub geoip_database : Text
  pub ca_public_key : Text
  pub peer_ca_public_key : Text
  pub host_private_key : Text
  pub host_public_key : Text
  pub node_certificate : Text
  pub node_id : Text
  pub node_address : Text
  pub idle_timeout : Text
  pub postgres_host : Text
  pub postgres_port : ℕ
  pub postgres_user : Text
  pub postgres_password : Text
  pub postgres_password_file : Text
  pub postgres_dbname : Text
  pub postgres_sslmode : Text
  pub postgres_peer : Text
  pub postgres_peer_host_public_key : Text

-- What the command line leaves out.
abbrev pub default_flags : Flags
default_flags = record {
  listen_debug = codes "127.0.0.1:6080";
  listen_ssh = codes ":2020";
  listen_http = codes "127.0.0.1:2080";
  listen_socks = [];
  listen_http_proxy = [];
  server_version = codes "SSH-2.0-gatewaysshd";
  geoip_database = codes "geoip.mmdb";
  ca_public_key = codes "id_rsa.ca.pub";
  peer_ca_public_key = [];
  host_private_key = codes "id_rsa";
  host_public_key = codes "id_rsa.pub";
  node_certificate = [];
  node_id = [];
  node_address = [];
  idle_timeout = codes "600s";
  postgres_host = codes "127.0.0.1";
  postgres_port = 5432;
  postgres_user = codes "gatewaysshd";
  postgres_password = codes "gatewaysshd";
  postgres_password_file = [];
  postgres_dbname = codes "gatewaysshd";
  postgres_sslmode = codes "disable";
  postgres_peer = [];
  postgres_peer_host_public_key = [];
}

-- `strings.TrimRight` of the two bytes that end a line.
unfoldable pub trim_line_end : Text → Text
trim_line_end [] = []
trim_line_end (c ∷ s) =
    let rest = trim_line_end s in if (rest == []) && (c == 13 || c == 10) then [] else c ∷ rest

module _ (ssh : SshLibrary) (keys : KeyLibrary ssh.PublicKey) (read_file : Text → Option Text) where
  open ssh use {PublicKey, marshal}
  open keys use {
    Signer, parse_authorized_key, parse_private_key, new_cert_signer, public_key, certified_key,
  }

  -- The loop of parsePublicKeys, over what is left of the text.
  unfoldable pub parse_keys : ℕ → Text → Parsed PublicKey
  parse_keys fuel [] = parsed []
  parse_keys zero (c ∷ raw) = out_of_fuel
  parse_keys (suc fuel) (c ∷ raw) = elim (parse_authorized_key (c ∷ raw)) [
    | none ↦ failed
    | some (key, rest) ↦ prepend key (parse_keys fuel rest)
  ]

  unfoldable pub parse_public_keys : Text → Parsed PublicKey
  parse_public_keys path = elim (read_file path) [
    | none ↦ failed
    | some raw ↦ parse_keys (length raw) raw
  ]

  abbrev pub read : Text → Result Text
  read path = elim (read_file path) [ none ↦ err io_failed | some raw ↦ ok raw ]

  abbrev pub or_fail {ℓ} : {A : Type ℓ} → Option A → Result A
  or_fail none = err ssh_failed
  or_fail (some a) = ok a

  -- No certificate makes no signer.
  unfoldable pub parse_node_signer : Flags → Result (Option Signer)
  parse_node_signer flags =
      if flags.node_certificate == []
      then ok none
      else (read flags.host_private_key >>= λ private_raw.
          or_fail (parse_private_key private_raw) >>= λ private_key.
          read flags.node_certificate >>= λ raw.
          or_fail (parse_authorized_key raw) >>= λ parsed_key. elim (certified_key parsed_key.0) [
            | none ↦ err bad_flag
            | some _ ↦
                or_fail (new_cert_signer parsed_key.0 private_key) >>= λ signer. ok (some signer)
          ])

  unfoldable pub parse_host_signer : Flags → Result Signer
  parse_host_signer flags = read flags.host_private_key >>= λ private_raw.
      or_fail (parse_private_key private_raw) >>= λ private_key.
      read flags.host_public_key >>= λ raw. or_fail (parse_authorized_key raw) >>= λ parsed_key.
      elim (certified_key parsed_key.0) [
        | none ↦ ok private_key
        | some _ ↦ or_fail (new_cert_signer parsed_key.0 private_key)
      ]

  unfoldable pub parse_postgres_password : Flags → Result Text
  unfolding trim_line_end
  parse_postgres_password flags =
      if flags.postgres_password_file == []
      then ok flags.postgres_password
      else (read flags.postgres_password_file >>= λ raw. ok (trim_line_end raw))
