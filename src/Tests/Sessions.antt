-- ===== src/Tests/Sessions.antt =====
-- Tests of the sessions and of the commands.
use gatewaysshd.Common.{
  ◌≡◌, refl, true, false, not, ◌&&◌, ◌||◌, List, [], ◌∷◌, ◌++◌, none, some, Text, codes, text_key,
  nat_key, ℕ_discrete, if◌then◌else◌,
}
use gatewaysshd.Errors.{ok}
use gatewaysshd.Service.{
  get_user, list_users, dispatch, Node, Environment, perform, run_command, run_service,
  legacy_report,
}
use gatewaysshd.Service.Privilege.{is_permitted, words, dispatch-write_command}
use gatewaysshd.Service.Split.Roundtrip.{write_command, split_command-write_command}
use gatewaysshd.Service.Help.{has_line, help_lines, is_understood, help_lines-dispatch}
use gatewaysshd.Service.Split.{split_command}
use gatewaysshd.Service.Session.{Request, handle_session}
use gatewaysshd.Service.Outcome.{OnlyRow, run_command_lem}
use gatewaysshd.Service.Shell.{session-OnlyRow}
use gatewaysshd.Tests.{alice, alices_connection, gateway, db}

abbrev node : Node
node = record { gateway = gateway; user_flags = []; db = db }

-- The database is out of reach, and the input is a report.
abbrev environment : Environment
environment = record {
  parse_json = λ raw. some raw;
  unpacked = some (codes "{}");
  plain = none;
  terminal = false;
  can_write = true;
  reachable = false;
  now = 200;
}

abbrev requests : List Request
requests =
    record { type = codes "exec"; want_reply = true; payload = codes "kickUser bob" }
    ∷ record { type = codes "exec"; want_reply = true; payload = codes "reportStatus" }
    ∷ []

session-OnlyRow_example :
    OnlyRow alice node
      (handle_session
        (λ payload. some payload)
        true
        (run_service (record environment { reachable = true }) alices_connection [])
        node
        requests).0
session-OnlyRow_example =
    session-OnlyRow (λ payload. some payload) true (record environment { reachable = true })
      alices_connection [] node requests refl

run_command_lem_example :
    run_command environment alices_connection node (codes "reportStatus")
    ≡ (elim (dispatch alices_connection (split_command (codes "reportStatus"))) [
      | none ↦ legacy_report environment alices_connection node (codes "reportStatus")
      | some action ↦ ((perform environment alices_connection node action).0, ok tt)
    ])
run_command_lem_example = run_command_lem environment alices_connection node (codes "reportStatus")

-- A name with a space and a quote.
abbrev odd_name : Text
odd_name = codes "bob" ++ (32 ∷ 34 ∷ [])

split_command-write_command_example :
    split_command (write_command (codes "getUser" ∷ odd_name ∷ []))
    ≡ codes "getUser" ∷ odd_name ∷ []
unfolding ℕ_discrete
split_command-write_command_example =
    split_command-write_command (codes "getUser" ∷ odd_name ∷ []) (refl, (refl, tt))

dispatch-write_command_example :
    dispatch alices_connection (split_command (write_command (words (get_user odd_name)))) ≡ (
      if is_permitted alices_connection (get_user odd_name) then some (get_user odd_name) else none)
unfolding ℕ_discrete
dispatch-write_command_example =
    dispatch-write_command alices_connection (get_user odd_name) (refl, (refl, tt))

help_lines-dispatch_example :
    has_line (help_lines alices_connection) (codes "    listUsers - list all users in database")
    ≡ (is_understood alices_connection (words list_users) || (false && (false && not true)))
help_lines-dispatch_example =
    help_lines-dispatch alices_connection list_users
      (codes "    listUsers - list all users in database") refl
