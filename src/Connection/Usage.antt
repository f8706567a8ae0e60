-- ===== src/Connection/Usage.antt =====
-- gateway/utils.go: the usage counters of a connection, and the reads and writes of its socket that
-- drive them. An underlying read or write gives a size and whether it failed.
use gatewaysshd.Common.{ℕ, ◌+◌, ◌^◌, ◌≡◌, refl, Bool, List, [], ◌∷◌, if◌then◌else◌, ltb, arith, ◌<◌}
use gatewaysshd.Connection.{uint64}

pub record UsageStats : Type 0 where
  pub bytes_read : ℕ
  pub bytes_written : ℕ
  pub used_at : ℕ
  pub created_at : ℕ

unfoldable pub new_usage : ℕ → UsageStats
new_usage now = record { bytes_read = 0; bytes_written = 0; used_at = now; created_at = now }

unfoldable pub update : UsageStats → ℕ → ℕ → ℕ → UsageStats
update self bytes_read bytes_written now = record self {
  bytes_read = if ltb 0 bytes_read then uint64 (self.bytes_read + bytes_read) else self.bytes_read;
  bytes_written =
      if ltb 0 bytes_written
      then uint64 (self.bytes_written + bytes_written)
      else self.bytes_written;
  used_at = now;
}

unfoldable pub read : UsageStats → ℕ → ℕ → UsageStats
unfolding update
read self bytes_read now = update self bytes_read 0 now

unfoldable pub write : UsageStats → ℕ → ℕ → UsageStats
unfolding update
write self bytes_written now = update self 0 bytes_written now

-- A call of Read or Write on the socket, and when it returns.
pub data Call : Type 0 where
  reads writes : ℕ → Bool → ℕ → Call

-- wrappedConn.Read and wrappedConn.Write: what fails is not counted.
unfoldable pub transfer : UsageStats → Call → UsageStats
unfolding read write
transfer self (reads size failed now) = if failed then self else read self size now
transfer self (writes size failed now) = if failed then self else write self size now

unfoldable pub transfers : UsageStats → List Call → UsageStats
transfers self [] = self
transfers self (call ∷ later) = transfers (transfer self call) later

-- The bytes of the reads that did not fail.
unfoldable pub read_of : List Call → ℕ
read_of [] = 0
read_of (reads size failed now ∷ later) = (if failed then 0 else size) + read_of later
read_of (writes size failed now ∷ later) = read_of later

unfoldable pub written_of : List Call → ℕ
written_of [] = 0
written_of (reads size failed now ∷ later) = written_of later
written_of (writes size failed now ∷ later) = (if failed then 0 else size) + written_of later

-- The time of the last call that did not fail, if there is one.
unfoldable pub last_used : ℕ → List Call → ℕ
last_used before [] = before
last_used before (reads size failed now ∷ later) = last_used (if failed then before else now) later
last_used before (writes size failed now ∷ later) = last_used (if failed then before else now) later

read-transfers :
    (self : UsageStats) (calls : List Call)
    → uint64 (transfers self calls).bytes_read ≡ uint64 (self.bytes_read + read_of calls)
unfolding transfers transfer read_of update
read-transfers self [] = omega arith
read-transfers self (reads size failed now ∷ later) =
    ground (arith, read-transfers (transfer self (reads size failed now)) later)
read-transfers self (writes size failed now ∷ later) =
    ground (arith, read-transfers (transfer self (writes size failed now)) later)

written-transfers :
    (self : UsageStats) (calls : List Call)
    → uint64 (transfers self calls).bytes_written ≡ uint64 (self.bytes_written + written_of calls)
unfolding transfers transfer written_of update
written-transfers self [] = omega arith
written-transfers self (reads size failed now ∷ later) =
    ground (arith, written-transfers (transfer self (reads size failed now)) later)
written-transfers self (writes size failed now ∷ later) =
    ground (arith, written-transfers (transfer self (writes size failed now)) later)

used_at-transfers :
    (self : UsageStats) (calls : List Call)
    → (transfers self calls).used_at ≡ last_used self.used_at calls
unfolding transfers transfer last_used update
used_at-transfers self [] = refl
used_at-transfers self (reads size failed now ∷ later) =
    ground (arith, used_at-transfers (transfer self (reads size failed now)) later)
used_at-transfers self (writes size failed now ∷ later) =
    ground (arith, used_at-transfers (transfer self (writes size failed now)) later)

-- The counters never leave the range of uint64.
transfers-bound :
    (self : UsageStats) (calls : List Call)
    → self.bytes_read < 2 ^ 64
    → self.bytes_written < 2 ^ 64
    → ((transfers self calls).bytes_read < 2 ^ 64) × ((transfers self calls).bytes_written < 2 ^ 64)
unfolding transfers transfer update
transfers-bound self [] r w = (r, w)
transfers-bound self (reads size failed now ∷ later) r w =
    transfers-bound (transfer self (reads size failed now)) later (ground arith) (ground arith)
transfers-bound self (writes size failed now ∷ later) r w =
    transfers-bound (transfer self (writes size failed now)) later (ground arith) (ground arith)

-- After any reads and writes of a new connection the counters are the bytes of those that did not
-- fail, modulo 2 ^ 64, and the connection was last used at the last of them, or when it was made.
pub transfers_lem :
    (created_at : ℕ) (calls : List Call)
    → let after = transfers (new_usage created_at) calls in
      (after.bytes_read ≡ uint64 (read_of calls))
      × (after.bytes_written ≡ uint64 (written_of calls))
      × (after.used_at ≡ last_used created_at calls)
unfolding new_usage
transfers_lem created_at calls =
    let start = new_usage created_at in
    let (r, w) = transfers-bound start calls (omega arith) (omega arith) in
    (
      omega (arith, r, read-transfers start calls),
      omega (arith, w, written-transfers start calls),
      used_at-transfers start calls,
    )
