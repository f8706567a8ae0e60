-- ===== src/Service/Outcome.antt =====
-- What a command of gateway/service.go does to the node, and what it reports.
use gatewaysshd.Common.{
  ℕ, ◌≡◌, ◌≢◌, refl, ◌∙◌, text_discrete, false, ◌&&◌, List, [], ◌∷◌, none, some, Text, codes,
  text_key, arith, Option-cases, Bool-cases, inl, inr,
}
use gatewaysshd.Common.Dict.{lookup}
use gatewaysshd.Errors.{Result, Result-cases, ok, err, invalid_command}
use gatewaysshd.Connection.{Connection}
use gatewaysshd.Db.{Db, User, update_user_status, update_user_screenshot, update_user_column}
use gatewaysshd.Db.Reports.{update_user_column_other, update_user_column_nodes}
use gatewaysshd.Service.Split.{split_command}
use gatewaysshd.Service.{
  Action, report_status, report_screenshot, kick_user, Node, Environment, dispatch, basic, stored,
  perform, handle_command, save_status, save_screenshot, do_report_status, do_report_screenshot,
  legacy_report, finish_command, is_invalid_command, run_command,
}
use gatewaysshd.Service.Privilege.{dispatch_permitted}

-- The node differs at most in the row of one user: its connections, its cached logins, the table of
-- nodes and the rows of all others are as they were.
pub record OnlyRow (user : Text) (before after : Node) : Type 0 where
  pub gateway : after.gateway ≡ before.gateway
  pub user_flags : after.user_flags ≡ before.user_flags
  pub nodes : after.db.nodes ≡ before.db.nodes
  pub rows : (id : Text) → id ≢ user → lookup id after.db.users ≡ lookup id before.db.users

pub OnlyRow-refl : (user : Text) (node : Node) → OnlyRow user node node
OnlyRow-refl user node = record {
  gateway = refl;
  user_flags = refl;
  nodes = refl;
  rows = λ id other. refl;
}

stored-OnlyRow :
    (set : User → User) (user : Text) (node : Node) (now : ℕ) (r : Result Db)
    → update_user_column set node.db user now ≡ r
    → OnlyRow user node (stored node r).0
stored-OnlyRow set user node now (ok db) e = record {
  gateway = refl;
  user_flags = refl;
  nodes = update_user_column_nodes set node.db user now e;
  rows = λ id other. update_user_column_other set node.db user now id other e;
}
stored-OnlyRow set user node now (err f) e = OnlyRow-refl user node

save_status-OnlyRow :
    (env : Environment) (self : Connection) (node : Node) (report : Text)
    → OnlyRow self.user node (save_status env self node report).0
unfolding save_status update_user_status
save_status-OnlyRow env self node report = elim (Bool-cases env.reachable) [
  | inl up ↦
      rw up (stored-OnlyRow (λ user. record user { status = report }) self.user node env.now _ refl)
  | inr down ↦ rw down (OnlyRow-refl self.user node)
]

save_screenshot-OnlyRow :
    (env : Environment) (self : Connection) (node : Node) (screenshot : Text)
    → OnlyRow self.user node (save_screenshot env self node screenshot).0
unfolding save_screenshot update_user_screenshot
save_screenshot-OnlyRow env self node screenshot = elim (Bool-cases env.reachable) [
  | inl up ↦ rw up (
      stored-OnlyRow (λ user. record user { screenshot = screenshot }) self.user node env.now _
        refl)
  | inr down ↦ rw down (OnlyRow-refl self.user node)
]

do_report_status-OnlyRow :
    (env : Environment) (self : Connection) (node : Node)
    → OnlyRow self.user node (do_report_status env self node).0
unfolding do_report_status
do_report_status-OnlyRow env self node = elim (Bool-cases env.terminal) [
  | inl shell ↦ rw (shell, do_report_status) (OnlyRow-refl self.user node)
  | inr exec ↦
      rw (exec, do_report_status)
        (elim (Option-cases env.unpacked) [
          | inl lost ↦ rw (lost, do_report_status) (OnlyRow-refl self.user node)
          | inr (raw, read) ↦
              rw (read, do_report_status)
                (elim (Option-cases (env.parse_json raw)) [
                  | inl bad ↦ rw (bad, do_report_status) (OnlyRow-refl self.user node)
                  | inr (report, good) ↦
                      rw (good, do_report_status) (save_status-OnlyRow env self node report)
                ])
        ])
]

do_report_screenshot-OnlyRow :
    (env : Environment) (self : Connection) (node : Node)
    → OnlyRow self.user node (do_report_screenshot env self node).0
unfolding do_report_screenshot
do_report_screenshot-OnlyRow env self node = elim (Bool-cases env.terminal) [
  | inl shell ↦ rw (shell, do_report_screenshot) (OnlyRow-refl self.user node)
  | inr exec ↦
      rw (exec, do_report_screenshot)
        (elim (Option-cases env.plain) [
          | inl lost ↦ rw (lost, do_report_screenshot) (OnlyRow-refl self.user node)
          | inr (screenshot, read) ↦
              rw (read, do_report_screenshot) (save_screenshot-OnlyRow env self node screenshot)
        ])
]

perform-OnlyRow :
    (env : Environment) (self : Connection) (node : Node) (action : Action)
    → ((user : Text) → action ≢ kick_user user)
    → OnlyRow self.user node (perform env self node action).0
unfolding perform
perform-OnlyRow env self node report_status h = do_report_status-OnlyRow env self node
perform-OnlyRow env self node report_screenshot h = do_report_screenshot-OnlyRow env self node
perform-OnlyRow env self node (kick_user user) h = absurd (h user refl)
perform-OnlyRow env self node action h = OnlyRow-refl self.user node

legacy_report-OnlyRow :
    (env : Environment) (self : Connection) (node : Node) (command : Text)
    → OnlyRow self.user node (legacy_report env self node command).0
unfolding legacy_report
legacy_report-OnlyRow env self node command = elim (Option-cases (env.parse_json command)) [
  | inl bad ↦ rw (bad, legacy_report) (OnlyRow-refl self.user node)
  | inr (report, good) ↦ rw (good, legacy_report) (save_status-OnlyRow env self node report)
]

pub handle_command-OnlyRow :
    (env : Environment) (self : Connection) (node : Node) (command : List Text)
    → (self.permit_port_forwarding && self.administrator) ≡ false
    → OnlyRow self.user node (handle_command env self node command).0
unfolding handle_command
handle_command-OnlyRow env self node command weak = elim (Option-cases (dispatch self command)) [
  | inl unknown ↦ rw (unknown, handle_command) (OnlyRow-refl self.user node)
  | inr (action, known) ↦
      rw (known, handle_command)
        (perform-OnlyRow env self node action (λ user e.
          let permitted = dispatch_permitted self command action known in
          ground (arith, permitted, e)))
]

pub OnlyRow-trans :
    (user : Text) (a b c : Node) → OnlyRow user a b → OnlyRow user b c → OnlyRow user a c
OnlyRow-trans user a b c p q = record {
  gateway = q.gateway ∙ p.gateway;
  user_flags = q.user_flags ∙ p.user_flags;
  nodes = q.nodes ∙ p.nodes;
  rows = λ id other. q.rows id other ∙ p.rows id other;
}

finish_command-OnlyRow :
    (env : Environment) (self : Connection) (command : Text) (node : Node) (r : Result (Unit {0}))
    → OnlyRow self.user node (finish_command env self command node r).0
unfolding finish_command
finish_command-OnlyRow env self command node (ok _) = OnlyRow-refl self.user node
finish_command-OnlyRow env self command node (err e) = elim (Bool-cases (is_invalid_command e)) [
  | inl legacy ↦ rw legacy (legacy_report-OnlyRow env self node command)
  | inr dropped ↦ rw dropped (OnlyRow-refl self.user node)
]

-- Whatever command a session runs, if its connection is not an administrator's with the right to
-- forward ports, it changes at most the row of its own user: no connection, no cached login, no
-- row of a node, and no other user's row.
pub run_command-OnlyRow :
    (env : Environment) (self : Connection) (node : Node) (command : Text)
    → (self.permit_port_forwarding && self.administrator) ≡ false
    → OnlyRow self.user node (run_command env self node command).0
unfolding run_command
run_command-OnlyRow env self node command weak =
    let handled = handle_command env self node (split_command command) in
    OnlyRow-trans self.user node handled.0 _
      (handle_command-OnlyRow env self node (split_command command) weak)
      (finish_command-OnlyRow env self command handled.0 handled.1)

-- Nothing but handleCommand itself says that a command is invalid.
abbrev IsCommandError : Result (Unit {0}) → Type 0
IsCommandError r = r ≡ err invalid_command

update_user_column-err :
    (set : User → User) (db : Db) (user : Text) (now : ℕ)
    → update_user_column set db user now ≢ err invalid_command
unfolding update_user_column
update_user_column-err set db user now e = ground arith

stored-err :
    (node : Node) (r : Result Db) → r ≢ err invalid_command → ¬ IsCommandError (stored node r).1
stored-err node (ok db) h e = ground arith
stored-err node (err f) h e = ground (arith, h)

save_status-err :
    (env : Environment) (self : Connection) (node : Node) (report : Text)
    → ¬ IsCommandError (save_status env self node report).1
unfolding save_status update_user_status
save_status-err env self node report e = ground (
  arith,
  stored-err node _
      (update_user_column-err (λ user. record user { status = report }) node.db self.user env.now),
)

save_screenshot-err :
    (env : Environment) (self : Connection) (node : Node) (screenshot : Text)
    → ¬ IsCommandError (save_screenshot env self node screenshot).1
unfolding save_screenshot update_user_screenshot
save_screenshot-err env self node screenshot e = ground (
  arith,
  stored-err node _ (
      update_user_column-err (λ user. record user { screenshot = screenshot }) node.db self.user
        env.now),
)

do_report_status-err :
    (env : Environment) (self : Connection) (node : Node)
    → ¬ IsCommandError (do_report_status env self node).1
unfolding do_report_status
do_report_status-err env self node e = elim (Option-cases env.unpacked) [
  | inl lost ↦ ground (arith, lost)
  | inr (raw, read) ↦ elim (Option-cases (env.parse_json raw)) [
    | inl bad ↦ ground (arith, read, bad)
    | inr (report, good) ↦ ground (arith, read, good, save_status-err env self node report)
  ]
]

do_report_screenshot-err :
    (env : Environment) (self : Connection) (node : Node)
    → ¬ IsCommandError (do_report_screenshot env self node).1
unfolding do_report_screenshot
do_report_screenshot-err env self node e = elim (Option-cases env.plain) [
  | inl lost ↦ ground (arith, lost)
  | inr (screenshot, read) ↦ ground (arith, read, save_screenshot-err env self node screenshot)
]

perform-err :
    (env : Environment) (self : Connection) (node : Node) (action : Action)
    → ¬ IsCommandError (perform env self node action).1
unfolding perform
perform-err env self node report_status e = do_report_status-err env self node e
perform-err env self node report_screenshot e = do_report_screenshot-err env self node e
perform-err env self node action e = ground arith

-- A command that is understood reports success, whatever its action ended with, since the error of
-- the action is dropped; one that is not understood is taken as a report in json, whose error is kept.
pub run_command_lem :
    (env : Environment) (self : Connection) (node : Node) (command : Text)
    → run_command env self node command ≡ (elim (dispatch self (split_command command)) [
      | none ↦ legacy_report env self node command
      | some action ↦ ((perform env self node action).0, ok tt)
    ])
unfolding run_command handle_command finish_command is_invalid_command
run_command_lem env self node command =
    elim (Option-cases (dispatch self (split_command command))) [
      | inl unknown ↦ ground (arith, unknown)
      | inr (action, known) ↦
          (let done = perform env self node action in
            elim (Result-cases done.1) [
              | inl (e, failed) ↦ ground (arith, known, failed, perform-err env self node action)
              | inr (_, fine) ↦ ground (arith, known, fine)
            ])
    ]

-- So a status report made while the database is out of reach succeeds, and is not stored.
pub lost_report :
    (env : Environment) (self : Connection) (node : Node) (command : Text)
    → split_command command ≡ codes "reportStatus" ∷ []
    → env.reachable ≡ false
    → env.terminal ≡ false
    → run_command env self node command ≡ (node, ok tt)
unfolding run_command handle_command is_invalid_command perform do_report_status save_status
    dispatch basic text_discrete
lost_report env self node command split down exec = ground arith
