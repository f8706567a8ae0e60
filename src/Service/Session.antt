-- ===== src/Service/Session.antt =====
-- gateway/session.go, and the shell of gateway/service.go. A session acts on a state `S` by the
-- commands that it runs; the events are what it sends to the client.
use gatewaysshd.Common.{
  ℕ, Bool, true, false, not, ◌&&◌, ◌||◌, List, [], ◌∷◌, ◌++◌, Option, none, some, Text, codes, ◌==◌,
  text_key, if◌then◌else◌, Option-cases, Bool-cases, inl, inr,
}
use gatewaysshd.Errors.{Error, Result, ok, err, Result-cases}

pub record Request : Type 0 where
  pub type : Text
  pub want_reply : Bool
  pub payload : Text

pub data Event : Type 0 where
  replied : Bool → Event
  reported : Error → Event
  exit_status : ℕ → Event

-- The types that are answered with success.
unfoldable pub is_known : Text → Bool
is_known type =
    type == codes "env" || type == codes "shell" || type == codes "exec" || type == codes "pty-req"

unfoldable pub runs : Text → Bool
runs type = type == codes "shell" || type == codes "exec"

-- One round of the loop: the state, the events, and whether the loop goes on.
abbrev Round : Type 0 → Type 0
Round S = S × List Event × Bool

module _ {S : Type 0} (unmarshal : Text → Option Text) (can_reply : Bool)
    (run : S → Text → S × Result (Unit {0})) where
  -- The command of a request: none for a shell, and an error if it cannot be decoded.
  unfoldable pub command_of : Request → Option Text
  command_of request = if request.type == codes "exec" then unmarshal request.payload else some []

  unfoldable pub execute : S → Request → Round S
  execute state request = elim (command_of request) [
    | none ↦ (state, exit_status 1 ∷ [], false)
    | some command ↦
        (let done = run state command in
          elim done.1 [
            | err e ↦ (done.0, reported e ∷ exit_status 1 ∷ [], false)
            | ok _ ↦ (done.0, exit_status 0 ∷ [], true)
          ])
  ]

  -- The reply, where one is wanted and can be sent.
  unfoldable pub reply_to : Request → List Event
  reply_to request =
      if request.want_reply && can_reply then replied (is_known request.type) ∷ [] else []

  -- A reply that cannot be sent ends the loop.
  unfoldable pub round : S → Request → Round S
  round state request =
      if request.want_reply && not can_reply
      then (state, [], false)
      else if runs request.type
      then (let done = execute state request in (done.0, reply_to request ++ done.1, done.2))
      else (state, reply_to request, true)

  unfoldable pub handle_session : S → List Request → S × List Event
  handle_session state [] = (state, [])
  handle_session state (request ∷ requests) =
      let step = round state request in
      elim step.2 [
        | false ↦ (step.0, step.1)
        | true ↦ (let rest = handle_session step.0 requests in (rest.0, step.1 ++ rest.1))
      ]

  execute_inv {ℓ} :
      (P : S → Type ℓ)
      → ((state : S) (command : Text) → P state → P (run state command).0)
      → (state : S) (request : Request) → P state
      → P (execute state request).0
  unfolding execute
  execute_inv P keep state request h = elim (Option-cases (command_of request)) [
    | inl bad ↦ rw (bad, execute) h
    | inr (command, good) ↦
        rw (good, execute)
          (elim (Result-cases (run state command).1) [
            | inl (e, failed) ↦ rw (failed, execute) (keep state command h)
            | inr (_, fine) ↦ rw (fine, execute) (keep state command h)
          ])
  ]

  round_inv {ℓ} :
      (P : S → Type ℓ)
      → ((state : S) (command : Text) → P state → P (run state command).0)
      → (state : S) (request : Request) → P state
      → P (round state request).0
  unfolding round
  round_inv P keep state request h = elim (Bool-cases (request.want_reply && not can_reply)) [
    | inl lost ↦ rw (lost, round) h
    | inr going ↦
        rw (going, round)
          (elim (Bool-cases (runs request.type)) [
            | inl working ↦ rw (working, round) (execute_inv P keep state request h)
            | inr idle ↦ rw (idle, round) h
          ])
  ]

  -- What the commands preserve, a session preserves.
  pub handle_session_inv {ℓ} :
      (P : S → Type ℓ)
      → ((state : S) (command : Text) → P state → P (run state command).0)
      → (state : S) (requests : List Request) → P state
      → P (handle_session state requests).0
  unfolding handle_session
  handle_session_inv P keep state [] h = h
  handle_session_inv P keep state (request ∷ requests) h =
      elim (Bool-cases (round state request).2) [
        | inl more ↦
            rw (more, handle_session)
              (handle_session_inv P keep (round state request).0 requests
                (round_inv P keep state request h))
        | inr over ↦ rw (over, handle_session) (round_inv P keep state request h)
      ]
