-- ===== src/Service/Help.antt =====
-- gateway/service.go, service.help: the text that a client reads, and how the help
-- fits the rights of handleCommand.
use gatewaysshd.Common.{
  ◌≡◌, subst, Bool, true, false, not, ◌&&◌, ◌||◌, List, [], ◌∷◌, ◌++◌, Option, none, some, Text,
  codes, ◌==◌, text_key, text_discrete, ℕ_discrete, if◌then◌else◌, join, arith,
}
use gatewaysshd.Connection.{Connection}
use gatewaysshd.Service.{
  Action, help, ping, version, report_status, report_screenshot, status, list_users,
  list_online_users, list_local_online_users, get_user, kick_user, dispatch,
}
use gatewaysshd.Service.Privilege.{words, is_permitted, dispatch-words}

abbrev forwarding_lines : List Text
forwarding_lines =
    codes "    status [username] - show gateway status, optionally filter by username"
    ∷ codes "    listUsers - list all users in database"
    ∷ codes "    listOnlineUsers - list users that are currently online"
    ∷ codes "    listLocalOnlineUsers - list users that are connected to this node"
    ∷ codes "    getUser <username> - get details about a user from database"
    ∷ []
    ∷ []

abbrev administrative_lines : List Text
administrative_lines = codes "    kickUser <username> - close connections from a user" ∷ [] ∷ []

abbrev common_lines : List Text
common_lines =
    codes "    exit - exit shell"
    ∷ codes "    quit - same as exit"
    ∷ codes "    help - display this help message"
    ∷ codes "    version - show server version"
    ∷ codes "    ping - ping server"
    ∷ []
    ∷ []
    ∷ []

-- The content that service.help gathers, line by line, and the text that it writes.
unfoldable pub help_lines : Connection → List Text
help_lines self =
    codes "Available commands:"
    ∷ []
    ∷ ((if self.permit_port_forwarding then forwarding_lines else [])
        ++ ((if self.administrator then administrative_lines else []) ++ common_lines))

unfoldable pub help_text : Connection → Text
help_text self = join 10 (help_lines self)

-- The line of a command in the help; the two reports have none.
abbrev pub line_of : Action → Option Text
line_of help = some (codes "    help - display this help message")
line_of ping = some (codes "    ping - ping server")
line_of version = some (codes "    version - show server version")
line_of (status user) =
    some (codes "    status [username] - show gateway status, optionally filter by username")
line_of list_users = some (codes "    listUsers - list all users in database")
line_of list_online_users =
    some (codes "    listOnlineUsers - list users that are currently online")
line_of list_local_online_users =
    some (codes "    listLocalOnlineUsers - list users that are connected to this node")
line_of (get_user user) =
    some (codes "    getUser <username> - get details about a user from database")
line_of (kick_user user) = some (codes "    kickUser <username> - close connections from a user")
line_of action = none

abbrev pub has_line : List Text → Text → Bool
has_line [] line = false
has_line (first ∷ lines) line =
    let rest = has_line lines line in if first == line then true else rest

unfoldable pub is_understood : Connection → List Text → Bool
is_understood self command = elim (dispatch self command) [ none ↦ false | some action ↦ true ]

abbrev pub is_kick : Action → Bool
is_kick (kick_user user) = true
is_kick action = false

is_understood-words :
    (self : Connection) (action : Action)
    → is_understood self (words action) ≡ is_permitted self action
unfolding is_understood
is_understood-words self action = ground (arith, dispatch-words self action)

-- What is said below of a command with a line.
IsListed : Connection → Action → Option Text → Type 0
IsListed self action none = Unit
IsListed self action (some line) = has_line (help_lines self) line ≡ (
    is_understood self (words action)
    || (is_kick action && self.administrator && not self.permit_port_forwarding))

line_of-IsListed : (self : Connection) (action : Action) → IsListed self action (line_of action)
unfolding help_lines text_discrete ℕ_discrete IsListed
line_of-IsListed self report_status = tt
line_of-IsListed self report_screenshot = tt
line_of-IsListed self action = ground (arith, is_understood-words self action)

-- The help lists a command for exactly those connections that handleCommand understands it from, but
-- for the kick: an administrator who may not forward ports is shown it, and is refused. The commands
-- without a line in the help, the two reports, are left out.
pub help_lines-dispatch :
    (self : Connection) (action : Action) (line : Text)
    → line_of action ≡ some line
    → has_line (help_lines self) line ≡ (
        is_understood self (words action)
        || (is_kick action && self.administrator && not self.permit_port_forwarding))
unfolding IsListed
help_lines-dispatch self action line h =
    subst (IsListed self action) h (line_of-IsListed self action)
