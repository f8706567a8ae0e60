-- ===== src/Startup/Run.antt =====
-- cli/run.go, run, and RunDebugServer of util/debugutil/debugutil.go: in which order a node starts and
-- ends. A step has an effect outside of the program, and can fail; a deferred call has one too, and is
-- made however the rest ends. Whether a step succeeds, and how the node serves, are parameters.
pub mod Undo
pub mod Order
pub mod Config
use gatewaysshd.Common.{
  ℕ, Bool, true, false, List, [], ◌∷◌, ◌++◌, Option, none, some, Text, ◌==◌, nat_key, text_key,
  if◌then◌else◌,
}
use gatewaysshd.Errors.{Result, ok, err, ◌>>=◌, io_failed}
use gatewaysshd.Auth.Ssh.{SshLibrary}
use gatewaysshd.Startup.{
  KeyLibrary, Flags, or_fail, parse_public_keys, parse_node_signer, parse_host_signer,
}
use gatewaysshd.Startup.Postgres.{DatabaseSettings}
use gatewaysshd.Startup.Settings.{
  or_error, peer_authorities, database_settings, gateway_settings, GatewaySettings,
}

pub data Effect : Type 0 where
  served_debug stopped_debug : Effect
  listened : Text → Effect
  opened_database closed_database migrated : Effect
  loaded_logins : Effect
  opened_gateway closed_gateway served : Effect

-- What was done, in order, and with which result.
abbrev pub Run {ℓ} : Type ℓ → Type ℓ
Run A = List Effect × Result A

abbrev pub pass {ℓ} : {A : Type ℓ} → Result A → Run A
pass r = ([], r)

-- A step that was not done leaves no effect.
abbrev pub perform : Bool → Effect → Run (Unit {0})
perform can effect = if can then (effect ∷ [], ok tt) else ([], err io_failed)

-- Go on with the value, or return the error.
infixl 5 ◌and_then◌
abbrev pub ◌and_then◌ {ℓ κ} : {A : Type ℓ} {B : Type κ} → Run A → (A → Run B) → Run B
(done, err e) and_then next = (done, err e)
(done, ok a) and_then next = let later = next a in (done ++ later.0, later.1)

-- `defer`, around the rest of the function.
abbrev pub deferring {ℓ} : {A : Type ℓ} → Effect → Run A → Run A
deferring effect (done, r) = (done ++ (effect ∷ []), r)

-- What the steps meet outside.
pub record Outside : Type 0 where
  pub can_listen : Text → Bool
  pub can_open_database : Bool
  pub can_migrate : Bool
  pub can_load_logins : Bool
  pub can_open_gateway : Bool

-- A listener that is not asked for is left out.
unfoldable pub listen_if_named : Outside → Text → Run (Unit {0})
listen_if_named outside address =
    if address == [] then pass (ok tt) else perform (outside.can_listen address) (listened address)

unfoldable pub open_listeners : Outside → Flags → Run (Unit {0})
open_listeners outside flags =
    perform (outside.can_listen flags.listen_ssh) (listened flags.listen_ssh) and_then λ _.
    listen_if_named outside flags.listen_http and_then λ _.
    listen_if_named outside flags.listen_socks and_then λ _.
    listen_if_named outside flags.listen_http_proxy

-- With the database open: it is closed however the rest ends, and so is the gateway.
unfoldable pub run_node : Outside → Run (Unit {0})
run_node outside = deferring closed_database (
    perform outside.can_migrate migrated and_then λ _.
    perform outside.can_load_logins loaded_logins and_then λ _.
    perform outside.can_open_gateway opened_gateway and_then λ _.
    deferring closed_gateway (served ∷ [], ok tt))

module _ (ssh : SshLibrary) (keys : KeyLibrary ssh.PublicKey) (read_file : Text → Option Text)
    (parse_duration : Text → Option ℕ) where
  open ssh use {PublicKey}
  open keys use {Signer}

  -- What is read of the files of keys, before anything is opened.
  abbrev pub Keys : Type 0
  Keys = List PublicKey × Signer × ℕ × List PublicKey × Option Signer

  unfoldable pub read_keys : Flags → Result Keys
  read_keys flags =
      or_error ssh keys read_file (parse_public_keys ssh keys read_file flags.ca_public_key)
      >>= λ ca_public_keys. parse_host_signer ssh keys read_file flags >>= λ host_signer.
          or_fail ssh keys read_file (parse_duration flags.idle_timeout) >>= λ idle_timeout.
          peer_authorities ssh keys read_file flags >>= λ peer_ca_public_keys.
          parse_node_signer ssh keys read_file flags >>= λ node_signer.
          ok (ca_public_keys, host_signer, idle_timeout, peer_ca_public_keys, node_signer)

  unfoldable pub run_services : Outside → Flags → Run (Unit {0})
  run_services outside flags = pass (read_keys flags) and_then λ read.
      open_listeners outside flags and_then λ _.
      pass (database_settings ssh keys read_file flags read.4) and_then λ settings.
      perform outside.can_open_database opened_database and_then λ _. run_node outside

  unfoldable pub run : Outside → Flags → Run (Unit {0})
  run outside flags =
      if flags.listen_debug == []
      then run_services outside flags
      else (perform (outside.can_listen flags.listen_debug) served_debug and_then λ _.
          deferring stopped_debug (run_services outside flags))
