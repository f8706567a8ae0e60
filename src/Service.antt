-- ===== src/Service.antt =====
-- gateway/service.go: the commands of a session, and what they do to the node. What is read from the
-- channel and the json parser are parameters; of what a command prints, only whether it can be written
-- is modelled here, and the text of the help in a child module.
pub mod Privilege
pub mod Session
pub mod Split
pub mod Outcome
pub mod Help
pub mod Shell
use gatewaysshd.Common.{
  ℕ, Bool, true, false, not, ◌&&◌, ◌||◌, List, [], ◌∷◌, Option, none, some, Text, codes, ◌==◌,
  text_key, nat_key, if◌then◌else◌, length,
}
use gatewaysshd.Errors.{
  Error, Result, ok, err, ◌>>=◌, invalid_command, shell_only, io_failed, json_failed,
  database_failed,
}
use gatewaysshd.Connection.{Connection}
use gatewaysshd.Gateway.{Gateway}
use gatewaysshd.Gateway
use gatewaysshd.Service.Split.{split_command}
use gatewaysshd.Auth.{FlagsCache, revoke_user_flags}
use gatewaysshd.Db.{Db, update_user_status, update_user_screenshot}

pub data Action : Type 0 where
  help ping version report_status report_screenshot : Action
  status : Text → Action
  list_users list_online_users list_local_online_users : Action
  get_user kick_user : Text → Action

-- The commands of everybody, of those who may forward ports, and of administrators.
unfoldable pub basic : List Text → Option Action
basic (w ∷ []) =
    if w == codes "help"
    then some help
    else if w == codes "ping"
    then some ping
    else if w == codes "version"
    then some version
    else if w == codes "reportStatus"
    then some report_status
    else if w == codes "reportScreenshot"
    then some report_screenshot
    else none
basic command = none

unfoldable pub forwarding : List Text → Option Action
forwarding (w ∷ []) =
    if w == codes "status"
    then some (status [])
    else if w == codes "listUsers"
    then some list_users
    else if w == codes "listOnlineUsers"
    then some list_online_users
    else if w == codes "listLocalOnlineUsers"
    then some list_local_online_users
    else none
forwarding (w ∷ x ∷ []) =
    if w == codes "status"
    then some (status x)
    else if w == codes "getUser"
    then some (get_user x)
    else none
forwarding command = none

unfoldable pub administrative : List Text → Option Action
administrative (w ∷ x ∷ []) = if w == codes "kickUser" then some (kick_user x) else none
administrative command = none

abbrev or_else : Option Action → Option Action → Option Action
or_else none next = next
or_else (some action) next = some action

-- The switches of handleCommand; `none` stands for ErrInvalidCommand.
unfoldable pub dispatch : Connection → List Text → Option Action
dispatch self command = or_else (basic command) (
    if not self.permit_port_forwarding
    then none
    else or_else (forwarding command)
        (if not self.administrator then none else administrative command))

-- The node that a session acts on.
pub record Node : Type 0 where
  pub gateway : Gateway
  pub user_flags : FlagsCache
  pub db : Db

-- What the session's channel gives: the unpacked input, the plain input, and whether it is a
-- terminal and can be written to; the state of the database's connection, and the time.
pub record Environment : Type 0 where
  pub parse_json : Text → Option Text
  pub unpacked : Option Text
  pub plain : Option Text
  pub terminal : Bool
  pub can_write : Bool
  pub reachable : Bool
  pub now : ℕ

abbrev write : Environment → Result (Unit {0})
write env = if env.can_write then ok tt else err io_failed

-- The result of a query, then its output.
abbrev query : Environment → Result (Unit {0})
query env = if env.reachable then write env else err database_failed

abbrev stored : Node → Result Db → Node × Result (Unit {0})
stored self (ok db) = (record self { db = db }, ok tt)
stored self (err e) = (self, err e)

-- connection.reportStatus and connection.reportScreenshot.
unfoldable pub save_status : Environment → Connection → Node → Text → Node × Result (Unit {0})
save_status env self node report =
    if env.reachable
    then stored node (update_user_status node.db self.user report env.now)
    else (node, err database_failed)

unfoldable pub save_screenshot : Environment → Connection → Node → Text → Node × Result (Unit {0})
save_screenshot env self node screenshot =
    if env.reachable
    then stored node (update_user_screenshot node.db self.user screenshot env.now)
    else (node, err database_failed)

unfoldable pub do_report_status : Environment → Connection → Node → Node × Result (Unit {0})
do_report_status env self node =
    if env.terminal then (node, err shell_only) else elim env.unpacked [
      | none ↦ (node, err io_failed)
      | some raw ↦ elim (env.parse_json raw) [
        | none ↦ (node, err json_failed)
        | some report ↦ save_status env self node report
      ]
    ]

unfoldable pub do_report_screenshot : Environment → Connection → Node → Node × Result (Unit {0})
do_report_screenshot env self node =
    if env.terminal then (node, err shell_only) else elim env.plain [
      | none ↦ (node, err io_failed)
      | some screenshot ↦ save_screenshot env self node screenshot
    ]

unfoldable pub do_kick_user : Node → Text → Node
do_kick_user node user =
    let kicked = Gateway.kick_user (some revoke_user_flags) (node.gateway, node.user_flags) user in
    record node { gateway = kicked.0; user_flags = kicked.1 }

-- With no user connected here, listLocalOnlineUsers asks the database nothing.
unfoldable pub perform : Environment → Connection → Node → Action → Node × Result (Unit {0})
perform env self node report_status = do_report_status env self node
perform env self node report_screenshot = do_report_screenshot env self node
perform env self node (kick_user user) = (do_kick_user node user, ok tt)
perform env self node list_users = (node, query env)
perform env self node list_online_users = (node, query env)
perform env self node list_local_online_users =
    (node, if length (Gateway.connected_user_ids node.gateway) == 0 then write env else query env)
perform env self node (get_user user) = (node, query env)
perform env self node action = (node, write env)

unfoldable pub handle_command :
    Environment → Connection → Node → List Text → Node × Result (Unit {0})
handle_command env self node command = elim (dispatch self command) [
  | none ↦ (node, err invalid_command)
  | some action ↦ perform env self node action
]

-- The legacy report: the command itself is the json.
unfoldable pub legacy_report : Environment → Connection → Node → Text → Node × Result (Unit {0})
legacy_report env self node command = elim (env.parse_json command) [
  | none ↦ (node, err json_failed)
  | some report ↦ save_status env self node report
]

unfoldable pub is_invalid_command : Error → Bool
is_invalid_command invalid_command = true
is_invalid_command e = false

-- runService for a command that is not empty. An error that is not ErrInvalidCommand is dropped.
unfoldable pub finish_command :
    Environment → Connection → Text → Node → Result (Unit {0}) → Node × Result (Unit {0})
finish_command env self command node (ok _) = (node, ok tt)
finish_command env self command node (err e) =
    if is_invalid_command e then legacy_report env self node command else (node, ok tt)

unfoldable pub run_command : Environment → Connection → Node → Text → Node × Result (Unit {0})
unfolding finish_command
run_command env self node command =
    let handled = handle_command env self node (split_command command) in
    finish_command env self command handled.0 handled.1

-- handleShell, over the trimmed lines that the client types. An error is shown, and the shell goes
-- on; the end of the input ends it.
unfoldable pub shell_loop : Environment → Connection → Node → List Text → Node × Result (Unit {0})
shell_loop env self node [] = (node, ok tt)
shell_loop env self node (line ∷ lines) =
    let skipped = shell_loop env self node lines in
    let handled = handle_command env self node (split_command line) in
    let rest = shell_loop env self handled.0 lines in
    if line == []
    then skipped
    else if line == codes "exit" || line == codes "quit"
    then (node, ok tt)
    else elim handled.1 [
      | ok _ ↦ rest
      | err e ↦ if env.can_write then rest else (handled.0, err io_failed)
    ]

unfoldable pub handle_shell : Environment → Connection → Node → List Text → Node × Result (Unit {0})
unfolding shell_loop
handle_shell env self node lines =
    if env.can_write then shell_loop env self node lines else (node, err io_failed)

-- runService: an empty command opens a shell on a terminal.
unfoldable pub run_service :
    Environment → Connection → List Text → Node → Text → Node × Result (Unit {0})
run_service env self lines node command =
    if length command == 0
    then handle_shell (record env { terminal = true }) self node lines
    else run_command (record env { terminal = false }) self node command
