-- ===== src/Startup/Run/Order.antt =====
-- cli/run.go, run: the plan of a start, and that whatever fails is undone.
use gatewaysshd.Common.{
  ℕ, refl, inl, inr, List, [], ◌∷◌, ◌++◌, Option, Text, ◌==◌, nat_key, text_key, if◌then◌else◌,
  Bool-cases,
}
use gatewaysshd.Errors.{ok}
use gatewaysshd.Auth.Ssh.{SshLibrary}
use gatewaysshd.Startup.{KeyLibrary, Flags}
use gatewaysshd.Startup.Settings.{database_settings}
use gatewaysshd.Startup.Run.{
  Effect, served_debug, stopped_debug, listened, opened_database, closed_database, migrated,
  loaded_logins, opened_gateway, closed_gateway, served, perform, ◌and_then◌, Outside, read_keys,
  open_listeners, run_node, run_services, run,
}
use gatewaysshd.Startup.Run.Undo.{
  named, Follows, Opens, perform-Opens, listen_if_named-Opens, and_then-Opens, and_then-Follows,
  deferring-Follows, pass-Follows,
}

abbrev listeners : Flags → List Effect
listeners flags =
    (listened flags.listen_ssh ∷ [])
    ++ (named flags.listen_http ++ (named flags.listen_socks ++ named flags.listen_http_proxy))

abbrev node : List Effect
node = opened_database ∷ migrated ∷ loaded_logins ∷ opened_gateway ∷ served ∷ []

-- What a start that meets no error does, before it undoes it.
abbrev pub plan : Flags → List Effect
plan flags =
    (if flags.listen_debug == [] then [] else served_debug ∷ []) ++ (listeners flags ++ node)

served-Follows : Follows (served ∷ []) (served ∷ [], ok tt)
served-Follows = record {
  done = served ∷ [];
  left = [];
  parts = refl;
  undone = refl;
  whole = λ e. refl;
}

run_node-Follows :
    (outside : Outside)
    → Follows node
        (perform outside.can_open_database opened_database and_then λ _. run_node outside)
unfolding run_node
run_node-Follows outside =
    deferring-Follows outside.can_open_database opened_database closed_database _ _ refl (
      and_then-Follows (migrated ∷ []) _ _ _ (perform-Opens outside.can_migrate migrated refl) (
        and_then-Follows (loaded_logins ∷ []) _ _ _
          (perform-Opens outside.can_load_logins loaded_logins refl)
          (deferring-Follows outside.can_open_gateway opened_gateway closed_gateway _ _ refl
            served-Follows)))

open_listeners-Opens :
    (outside : Outside) (flags : Flags) → Opens (listeners flags) (open_listeners outside flags)
unfolding open_listeners
open_listeners-Opens outside flags =
    and_then-Opens _ _ _ _
      (perform-Opens (outside.can_listen flags.listen_ssh) (listened flags.listen_ssh) refl)
      (and_then-Opens _ _ _ _ (listen_if_named-Opens outside flags.listen_http) (
        and_then-Opens _ _ _ _ (listen_if_named-Opens outside flags.listen_socks)
          (listen_if_named-Opens outside flags.listen_http_proxy)))

module _ (ssh : SshLibrary) (keys : KeyLibrary ssh.PublicKey) (read_file : Text → Option Text)
    (parse_duration : Text → Option ℕ) (outside : Outside) (flags : Flags) where
  run_services-Follows :
      Follows
        (listeners flags ++ node)
        (run_services ssh keys read_file parse_duration outside flags)
  unfolding run_services
  run_services-Follows =
      pass-Follows (listeners flags ++ node) (read_keys ssh keys read_file parse_duration flags) _
        (λ read.
          and_then-Follows (listeners flags) node (open_listeners outside flags) _
            (open_listeners-Opens outside flags)
            (pass-Follows node (database_settings ssh keys read_file flags read.4) _
              (λ settings. run_node-Follows outside)))

  -- However a start goes, and whatever step fails, what was done is a first part of the plan (the
  -- debugging server, the listeners that are named, the database, its migration, the logins, the
  -- gateway and its service), and then each of what was opened with a deferred call is closed, the last
  -- one first. If the start reports no error, the whole plan was done.
  pub run-Follows : Follows (plan flags) (run ssh keys read_file parse_duration outside flags)
  unfolding run
  run-Follows = elim (Bool-cases (flags.listen_debug == [])) [
    | inl off ↦ rw off run_services-Follows
    | inr on ↦ rw on (
        deferring-Follows (outside.can_listen flags.listen_debug) served_debug stopped_debug
          (listeners flags ++ node) _ refl run_services-Follows)
  ]
