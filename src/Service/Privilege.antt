-- ===== src/Service/Privilege.antt =====
-- gateway/service.go, handleCommand: which command needs which right.
use gatewaysshd.Common.{
  ◌≡◌, refl, ap, ◌∙◌, All, Bool, true, ◌&&◌, List, [], ◌∷◌, none, some, Text, codes, text_key,
  if◌then◌else◌, arith, text_discrete,
}
use gatewaysshd.Connection.{Connection}
use gatewaysshd.Service.Split.{split_command}
use gatewaysshd.Service.Split.Roundtrip.{
  free_of_returns, write_command, split_command-write_command,
}
use gatewaysshd.Service.{
  Action, help, ping, version, report_status, report_screenshot, status, list_users,
  list_online_users, list_local_online_users, get_user, kick_user, basic, forwarding,
  administrative, dispatch,
}

-- The rights of the documentation: what shows other users needs port forwarding, and a kick needs an
-- administrator who may forward ports.
abbrev pub is_permitted : Connection → Action → Bool
is_permitted self (kick_user user) = self.permit_port_forwarding && self.administrator
is_permitted self (status user) = self.permit_port_forwarding
is_permitted self list_users = self.permit_port_forwarding
is_permitted self list_online_users = self.permit_port_forwarding
is_permitted self list_local_online_users = self.permit_port_forwarding
is_permitted self (get_user user) = self.permit_port_forwarding
is_permitted self action = true

-- How each command is written.
abbrev pub words : Action → List Text
words help = codes "help" ∷ []
words ping = codes "ping" ∷ []
words version = codes "version" ∷ []
words report_status = codes "reportStatus" ∷ []
words report_screenshot = codes "reportScreenshot" ∷ []
words (status user) = codes "status" ∷ user ∷ []
words list_users = codes "listUsers" ∷ []
words list_online_users = codes "listOnlineUsers" ∷ []
words list_local_online_users = codes "listLocalOnlineUsers" ∷ []
words (get_user user) = codes "getUser" ∷ user ∷ []
words (kick_user user) = codes "kickUser" ∷ user ∷ []

-- Each command, as it is written, is understood from exactly those who have its right.
pub dispatch-words :
    (self : Connection) (action : Action)
    → dispatch self (words action) ≡ (if is_permitted self action then some action else none)
unfolding dispatch basic forwarding administrative text_discrete
dispatch-words self help = refl
dispatch-words self ping = refl
dispatch-words self version = refl
dispatch-words self report_status = refl
dispatch-words self report_screenshot = refl
dispatch-words self action = ground arith

-- So a client that writes the words of a command, quoted where they need it, as one line is understood
-- as that command by exactly those who have its right, and by nobody as another, if the name of the
-- user in it has no carriage return.
pub dispatch-write_command :
    (self : Connection) (action : Action)
    → All (λ word. free_of_returns word ≡ true) (words action)
    → dispatch self (split_command (write_command (words action)))
      ≡ (if is_permitted self action then some action else none)
dispatch-write_command self action free =
    ap (dispatch self) (split_command-write_command (words action) free)
    ∙ dispatch-words self action

basic-permitted :
    (self : Connection) (command : List Text) (action : Action)
    → basic command ≡ some action
    → is_permitted self action ≡ true
unfolding basic
basic-permitted self [] action h = cc
basic-permitted self (w ∷ []) action h = ground arith
basic-permitted self (w ∷ x ∷ rest) action h = cc

forwarding-permitted :
    (self : Connection) (command : List Text) (action : Action)
    → self.permit_port_forwarding ≡ true
    → forwarding command ≡ some action
    → is_permitted self action ≡ true
unfolding forwarding
forwarding-permitted self [] action p h = cc
forwarding-permitted self (w ∷ []) action p h = ground arith
forwarding-permitted self (w ∷ x ∷ []) action p h = ground arith
forwarding-permitted self (w ∷ x ∷ y ∷ rest) action p h = cc

administrative-permitted :
    (self : Connection) (command : List Text) (action : Action)
    → self.permit_port_forwarding ≡ true
    → self.administrator ≡ true
    → administrative command ≡ some action
    → is_permitted self action ≡ true
unfolding administrative
administrative-permitted self [] action p a h = cc
administrative-permitted self (w ∷ []) action p a h = cc
administrative-permitted self (w ∷ x ∷ []) action p a h = ground arith
administrative-permitted self (w ∷ x ∷ y ∷ rest) action p a h = cc

-- However a command is written, it is understood only from those who have its right.
pub dispatch_permitted :
    (self : Connection) (command : List Text) (action : Action)
    → dispatch self command ≡ some action
    → is_permitted self action ≡ true
unfolding dispatch
dispatch_permitted self command action h = ground (
  arith,
  basic-permitted self command action,
  forwarding-permitted self command action,
  administrative-permitted self command action,
)
