-- ===== src/Startup/Serving.antt =====
-- cli/run.go, run: the loop of a running node, which ends it or lets the scavenger of
-- gateway/gateway.go run every ten seconds. A round of select gives one event; what the connections do
-- before it is a change of the registry that comes with the event.
use gatewaysshd.Common.{
  ℕ, ◌-◌, ◌≡◌, ◌≢◌, ap, ◌∙◌, Bool, true, false, List, [], ◌∷◌, ◌++◌, if◌then◌else◌, ltb, arith,
}
use gatewaysshd.Gateway.{Gateway, scavenge_connections}
use gatewaysshd.Gateway.Kick.{contains, scavenge_connections_closes, scavenge_connections_keeps}

-- A signal, the end of one of the four servers, or ten seconds without any of these.
pub data Event : Type 0 where
  signaled ssh_ended http_ended socks_ended http_proxy_ended timed_out : Event

pub record Round : Type 0 where
  pub meanwhile : Gateway → Gateway
  pub event : Event
  -- when each connection was last used, the time as the scavenger looks at it, and whether its close
  -- returns
  pub used_at : ℕ → ℕ
  pub now : ℕ → ℕ
  pub returns : ℕ → Bool

unfoldable pub quits : Event → Bool
quits timed_out = false
quits event = true

-- The loop goes on, has quit, or is held up by a close that does not return.
pub data Phase : Type 0 where
  going quitting held_up : Phase

-- The loop, over the rounds to come.
unfoldable pub serve : ℕ → Gateway → List Round → Gateway × Phase
serve idle_timeout self [] = (self, going)
serve idle_timeout self (round ∷ rounds) =
    let changed = round.meanwhile self in
    let scavenged =
      scavenge_connections round.returns round.used_at round.now changed idle_timeout in
    let rest = serve idle_timeout scavenged.0 rounds in
    if quits round.event
    then (changed, quitting)
    else if scavenged.1
    then rest
    else (scavenged.0, held_up)

-- Nothing opens a connection again that was told to end.
abbrev pub KeepsClosed : Round → Type 0
KeepsClosed round =
    (self : Gateway) (c : ℕ)
    → (self.store c).closed ≡ true
    → ((round.meanwhile self).store c).closed ≡ true

abbrev pub AllKeep : List Round → Type 0
AllKeep [] = Unit
AllKeep (round ∷ rounds) = KeepsClosed round × AllKeep rounds

serve_keeps :
    (idle_timeout : ℕ) (self : Gateway) (rounds : List Round) (c : ℕ)
    → AllKeep rounds
    → (self.store c).closed ≡ true
    → ((serve idle_timeout self rounds).0.store c).closed ≡ true
unfolding serve
serve_keeps idle_timeout self [] c keeps closed = closed
serve_keeps idle_timeout self (round ∷ rounds) c (keep, keeps) closed =
    let changed = keep self c closed in
    let scavenged =
      scavenge_connections round.returns round.used_at round.now (round.meanwhile self)
        idle_timeout in
    let kept =
      scavenge_connections_keeps round.returns round.used_at round.now (round.meanwhile self)
        idle_timeout c changed in
    ground (arith, changed, kept, serve_keeps idle_timeout scavenged.0 rounds c keeps kept)

serve-append :
    (idle_timeout : ℕ) (self reached : Gateway) (before after : List Round)
    → serve idle_timeout self before ≡ (reached, going)
    → serve idle_timeout self (before ++ after) ≡ serve idle_timeout reached after
unfolding serve
serve-append idle_timeout self reached [] after h =
    ap (λ (x : Gateway × Phase). serve idle_timeout x.0 after) h
serve-append idle_timeout self reached (round ∷ before) after h =
    let scavenged =
      scavenge_connections round.returns round.used_at round.now (round.meanwhile self)
        idle_timeout in
    ground (arith, serve-append idle_timeout scavenged.0 reached before after)

-- A connection that is listed and idle for longer than the timeout when ten seconds pass without an
-- event is told to end, and is so when the loop quits or is held up, whatever came before, if the
-- closes of the other connections return that are listed and idle for so long then, and nothing opens
-- a connection again.
pub serve_closes_idle :
    (idle_timeout : ℕ) (self reached : Gateway) (before rounds : List Round) (round : Round) (c : ℕ)
    → serve idle_timeout self before ≡ (reached, going)
    → round.event ≡ timed_out
    → contains (round.meanwhile reached).connections_list c ≡ true
    → ltb idle_timeout (round.now c - round.used_at c) ≡ true
    → ((x : ℕ)
        → contains (round.meanwhile reached).connections_list x ≡ true
        → ltb idle_timeout (round.now x - round.used_at x) ≡ true
        → x ≢ c
        → round.returns x ≡ true)
    → AllKeep rounds
    → ((serve idle_timeout self (before ++ (round ∷ rounds))).0.store c).closed ≡ true
unfolding serve quits
serve_closes_idle idle_timeout self reached before rounds round c so_far tick listed idle others
      keeps =
    let scavenged =
      scavenge_connections round.returns round.used_at round.now (round.meanwhile reached)
        idle_timeout in
    let closed =
      scavenge_connections_closes round.returns round.used_at round.now (round.meanwhile reached)
        idle_timeout c listed idle others in
    ap (λ (x : Gateway × Phase). (x.0.store c).closed)
      (serve-append idle_timeout self reached before (round ∷ rounds) so_far)
    ∙ ground (arith, tick, closed, serve_keeps idle_timeout scavenged.0 rounds c keeps closed)
