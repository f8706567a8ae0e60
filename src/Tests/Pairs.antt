-- ===== src/Tests/Pairs.antt =====
-- Tests of the two ends of a tunnel: the client of this end stops sending, and handleTunnel returns.
use gatewaysshd.Common.{ℕ, ◌≤◌, ◌≡◌, ◌⊎◌, refl, true, false, not}
use gatewaysshd.Channels.Pairing.{
  Pair, Reach, begins, acts, stops_there, Finish, returns, Run, stays, runs, starts, leave,
  is_selected, both_copying, IsEnded, Run_ends_pair,
}

abbrev half_stopped : Pair
half_stopped = record starts { copying_there = false }

abbrev returned : Pair
returned = leave half_stopped

path : Reach half_stopped
path = acts {self = starts} begins stops_there

run : Run half_stopped 1 returned
unfolding is_selected
run = runs {self = half_stopped} stays (returns refl refl)

Run_ends_pair_example :
    (returned.this.done ≡ not returned.waiting)
    × (returned.other.done ≡ not returned.waiting)
    × (((both_copying half_stopped ≡ true) × (◌≡◌ {A = ℕ} 1 0))
        ⊎ ((both_copying half_stopped ≡ false)
            × (1 ≤ 3)
            × (IsEnded returned ⊎ ((next : Pair) × Finish returned next))))
Run_ends_pair_example = Run_ends_pair {self = half_stopped} {after = returned} 1 path run
