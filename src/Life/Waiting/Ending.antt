-- ===== src/Life/Waiting/Ending.antt =====
-- gateway/connection.go, close: a connection that is told to end does end, where no connections wait
-- for each other.
use gatewaysshd.Common.{ℕ, ◌≡◌, true, false, nat_key, Member}
use gatewaysshd.Life.Waiting.{closing, opening, opening_peer, System}
use gatewaysshd.Life.Waiting.Told.{Told}

-- A connection is held up by others: a tunnel of it opens its other end at the client of a connection
-- that was not told to end, or at a peer, and is not answered; or a session of it is in the close of a
-- connection that is held up.
pub data IsHeldUp (self : System) : ℕ → Type 0 where
  by_client :
      (c other : ℕ)
      → Member (opening other) (self c).tasks
      → (self other).loop ≡ true
      → (self other).done ≡ false
      → IsHeldUp self c
  by_peer : (c : ℕ) → Member opening_peer (self c).tasks → IsHeldUp self c
  by_close :
      (c other : ℕ) → Member (closing other) (self c).tasks → IsHeldUp self other → IsHeldUp self c
