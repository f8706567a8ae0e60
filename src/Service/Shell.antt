-- ===== src/Service/Shell.antt =====
-- A whole session of gateway/session.go with the commands and the shell of gateway/service.go.
use gatewaysshd.Common.{
  ◌≡◌, Bool, true, false, ◌&&◌, ◌||◌, List, [], ◌∷◌, Option, Text, codes, ◌==◌, text_key, nat_key,
  if◌then◌else◌, inl, inr, length,
}
use gatewaysshd.Errors.{Result, Result-cases}
use gatewaysshd.Connection.{Connection}
use gatewaysshd.Service.{Node, Environment, handle_command, shell_loop, handle_shell, run_service}
use gatewaysshd.Service.Outcome.{
  OnlyRow, OnlyRow-refl, OnlyRow-trans, handle_command-OnlyRow, run_command-OnlyRow,
}
use gatewaysshd.Service.Split.{split_command}
use gatewaysshd.Service.Session.{Request, handle_session, handle_session_inv}

OnlyRow-if :
    (user : Text) (node : Node) (b : Bool) (x y : Node × Result (Unit {0}))
    → OnlyRow user node x.0
    → OnlyRow user node y.0
    → OnlyRow user node (if b then x else y).0
OnlyRow-if user node true x y h k = h
OnlyRow-if user node false x y h k = k

shell_loop-OnlyRow :
    (env : Environment) (self : Connection) (node : Node) (lines : List Text)
    → (self.permit_port_forwarding && self.administrator) ≡ false
    → OnlyRow self.user node (shell_loop env self node lines).0
unfolding shell_loop
shell_loop-OnlyRow env self node [] weak = OnlyRow-refl self.user node
shell_loop-OnlyRow env self node (line ∷ lines) weak =
    let handled : Node × Result (Unit {0}) = handle_command env self node (split_command line) in
    let here : OnlyRow self.user node handled.0 =
      handle_command-OnlyRow env self node (split_command line) weak in
    let onwards : OnlyRow self.user node (shell_loop env self handled.0 lines).0 =
      OnlyRow-trans self.user node handled.0 _ here
        (shell_loop-OnlyRow env self handled.0 lines weak) in
    OnlyRow-if self.user node (line == []) _ _ (shell_loop-OnlyRow env self node lines weak) (
      OnlyRow-if self.user node (line == codes "exit" || line == codes "quit") _ _
        (OnlyRow-refl self.user node)
        (elim (Result-cases handled.1) [
          | inr (_, fine) ↦ rw fine onwards
          | inl (e, failed) ↦ rw failed (OnlyRow-if self.user node env.can_write _ _ onwards here)
        ]))

run_service-OnlyRow :
    (env : Environment) (self : Connection) (lines : List Text) (node : Node) (command : Text)
    → (self.permit_port_forwarding && self.administrator) ≡ false
    → OnlyRow self.user node (run_service env self lines node command).0
unfolding run_service handle_shell
run_service-OnlyRow env self lines node command weak =
    OnlyRow-if self.user node (length command == 0) _ _
      (OnlyRow-if self.user node env.can_write _ _
        (shell_loop-OnlyRow (record env { terminal = true }) self node lines weak)
        (OnlyRow-refl self.user node))
      (run_command-OnlyRow (record env { terminal = false }) self node command weak)

-- A whole session, whatever is asked in it, changes at most the row of its own user, unless its
-- connection is an administrator's with the right to forward ports.
pub session-OnlyRow :
    (unmarshal : Text → Option Text) (can_reply : Bool) (env : Environment) (self : Connection)
    (lines : List Text) (node : Node) (requests : List Request)
    → (self.permit_port_forwarding && self.administrator) ≡ false
    → OnlyRow self.user node
        (handle_session unmarshal can_reply (run_service env self lines) node requests).0
session-OnlyRow unmarshal can_reply env self lines node requests weak =
    handle_session_inv unmarshal can_reply (run_service env self lines) (OnlyRow self.user node)
      (λ state command h.
        OnlyRow-trans self.user node state _ h
          (run_service-OnlyRow env self lines state command weak))
      node requests (OnlyRow-refl self.user node)
