-- ===== src/Channels/Pairing.antt =====
-- gateway/tunnel.go, handleTunnel, close and handleRequests: when the two ends of a forwarded tunnel
-- are told to end, and that they do. The bytes that io.Copy moves are not modelled; a copy ends at any
-- time, with its source or with an error.
use gatewaysshd.Common.{
  ℕ, ◌+◌, ◌≤◌, ◌≡◌, ◌⊎◌, ◌∙◌, inl, inr, refl, Bool, true, false, not, ◌&&◌, ◌||◌, if◌then◌else◌,
  arith, Bool-cases,
}

-- One end: whether its channel `done` is closed, and whether its handleRequests runs, which closes the
-- ssh channel as it ends.
pub record End : Type 0 where
  pub done : Bool
  pub serving : Bool

-- `this` is the end that the tunnel is handled for, and `other` the one that was opened for it.
pub record Pair : Type 0 where
  pub this : End
  pub other : End
  -- whether the copies run, from the other end to this one and back
  pub copying_here : Bool
  pub copying_there : Bool
  -- whether handleTunnel has not returned
  pub waiting : Bool

abbrev pub starts : Pair
starts = record {
  this = record { done = false; serving = true };
  other = record { done = false; serving = true };
  copying_here = true;
  copying_there = true;
  waiting = true;
}

unfoldable pub close : End → End
close self = record self { done = true }

-- The select of handleTunnel can go on.
unfoldable pub is_selected : Pair → Bool
is_selected self = not self.copying_here || not self.copying_there

-- The deferred calls of handleTunnel.
unfoldable pub leave : Pair → Pair
unfolding close
leave self = record self { waiting = false; this = close self.this; other = close self.other }

-- The loop of handleRequests can return by itself.
unfoldable pub can_end : End → Bool
can_end self = self.done && self.serving

abbrev pub end_requests : End → End
end_requests self = record self { serving = false }

-- What the goroutines do by themselves.
pub data Finish (self : Pair) : Pair → Type 0 where
  returns : self.waiting ≡ true → is_selected self ≡ true → Finish self (leave self)
  this_ends : can_end self.this ≡ true → Finish self (record self { this = end_requests self.this })
  other_ends :
      can_end self.other ≡ true → Finish self (record self { other = end_requests self.other })

-- What comes from outside: a copy ends, and a client closes its channel, which ends the requests, as
-- does a reply that fails.
pub data Act (self : Pair) : Pair → Type 0 where
  stops_here : Act self (record self { copying_here = false })
  stops_there : Act self (record self { copying_there = false })
  this_closes : Act self (record self { this = end_requests self.this })
  other_closes : Act self (record self { other = end_requests self.other })

pub data Reach : Pair → Type 0 where
  begins : Reach starts
  acts : {self after : Pair} → Reach self → Act self after → Reach after
  finishes : {self after : Pair} → Reach self → Finish self after → Reach after

-- A run of what the goroutines do by themselves, with its length.
pub data Run (start : Pair) : ℕ → Pair → Type 0 where
  stays : Run start 0 start
  runs :
      {n : ℕ} {self after : Pair} → Run start n self → Finish self after → Run start (1 + n) after

-- Both ends are told to end as handleTunnel returns and not before, and it does not return while both
-- copies run.
pub record IsPaired (self : Pair) : Type 0 where
  pub told_this : self.this.done ≡ not self.waiting
  pub told_other : self.other.done ≡ not self.waiting
  pub not_early : (self.waiting || is_selected self) ≡ true

Finish-IsPaired : {self after : Pair} → Finish self after → IsPaired self → IsPaired after
unfolding leave close is_selected can_end
Finish-IsPaired {self} (returns waits selected) v = record {
  told_this = refl;
  told_other = refl;
  not_early = selected;
}
Finish-IsPaired {self} (this_ends ready) v = record {
  told_this = v.told_this;
  told_other = v.told_other;
  not_early = v.not_early;
}
Finish-IsPaired {self} (other_ends ready) v = record {
  told_this = v.told_this;
  told_other = v.told_other;
  not_early = v.not_early;
}

Act-IsPaired : {self after : Pair} → Act self after → IsPaired self → IsPaired after
unfolding is_selected
Act-IsPaired {self} stops_here v = record {
  told_this = v.told_this;
  told_other = v.told_other;
  not_early = ground arith;
}
Act-IsPaired {self} stops_there v = record {
  told_this = v.told_this;
  told_other = v.told_other;
  not_early = ground arith;
}
Act-IsPaired {self} this_closes v = record {
  told_this = v.told_this;
  told_other = v.told_other;
  not_early = v.not_early;
}
Act-IsPaired {self} other_closes v = record {
  told_this = v.told_this;
  told_other = v.told_other;
  not_early = v.not_early;
}

pub Reach-IsPaired : {self : Pair} → Reach self → IsPaired self
unfolding is_selected
Reach-IsPaired begins = record { told_this = refl; told_other = refl; not_early = refl }
Reach-IsPaired (acts r act) = Act-IsPaired act (Reach-IsPaired r)
Reach-IsPaired (finishes r step) = Finish-IsPaired step (Reach-IsPaired r)

-- handleTunnel has returned, and both ends are gone.
abbrev pub IsEnded : Pair → Type 0
IsEnded self = (self.waiting ≡ false) × (self.this.serving ≡ false) × (self.other.serving ≡ false)

-- What is left to do.
abbrev pub one : Bool → ℕ
one b = if b then 1 else 0

abbrev pub left : Pair → ℕ
left self = one self.waiting + (one self.this.serving + one self.other.serving)

Finish-left : {self after : Pair} → Finish self after → 1 + left after ≡ left self
unfolding leave close can_end
Finish-left {self} (returns waits selected) = ground (arith, waits)
Finish-left {self} (this_ends ready) = ground (arith, ready)
Finish-left {self} (other_ends ready) = ground (arith, ready)

Run-left : {self after : Pair} {k : ℕ} → Run self k after → k + left after ≡ left self
Run-left stays = omega arith
Run-left (runs r step) = omega (arith, Run-left r, Finish-left step)

abbrev pub both_copying : Pair → Bool
both_copying self = self.copying_here && self.copying_there

-- No goroutine ends a copy.
Finish-both_copying :
    {self after : Pair} → Finish self after → both_copying after ≡ both_copying self
unfolding leave
Finish-both_copying (returns waits selected) = refl
Finish-both_copying (this_ends ready) = refl
Finish-both_copying (other_ends ready) = refl

-- While both copies run there is nothing to do.
nothing_to_do : {self after : Pair} → Finish self after → IsPaired self → both_copying self ≡ false
unfolding is_selected can_end
nothing_to_do {self} (returns waits selected) v = ground (arith, selected)
nothing_to_do {self} (this_ends ready) v = ground (arith, ready, v.told_this, v.not_early)
nothing_to_do {self} (other_ends ready) v = ground (arith, ready, v.told_other, v.not_early)

-- Once a copy has ended, either all is over or a goroutine can do something.
progress :
    (self : Pair)
    → IsPaired self
    → is_selected self ≡ true
    → IsEnded self ⊎ ((next : Pair) × Finish self next)
unfolding can_end
progress self v ended = elim (Bool-cases self.waiting) [
  | inl waits ↦ inr (_, returns waits ended)
  | inr returned ↦ elim (Bool-cases self.this.serving) [
    | inl serves ↦ inr (_, this_ends (ground (arith, v.told_this, returned, serves)))
    | inr gone ↦ elim (Bool-cases self.other.serving) [
      | inl serves ↦ inr (_, other_ends (ground (arith, v.told_other, returned, serves)))
      | inr both ↦ inl (returned, gone, both)
    ]
  ]
]

Run-kept :
    {self after : Pair} {k : ℕ}
    → Run self k after
    → IsPaired self
    → IsPaired after × (both_copying after ≡ both_copying self)
Run-kept stays v = (v, refl)
Run-kept (runs r step) v =
    let (w, same) = Run-kept r v in (Finish-IsPaired step w, Finish-both_copying step ∙ same)

Run-nothing :
    {self after : Pair} {k : ℕ}
    → Run self k after
    → IsPaired self
    → both_copying self ≡ true
    → k ≡ 0
Run-nothing stays v both = refl
Run-nothing (runs r step) v both =
    let (w, same) = Run-kept r v in ground (arith, same, both, nothing_to_do step w)

-- However a tunnel went on, both of its ends are told to end if and only if handleTunnel has returned.
-- While both copies run, its goroutines do nothing by themselves. Once a copy, of whichever direction,
-- has ended, they do at most three things, and as long as handleTunnel has not returned or one of the
-- two ends still serves requests, one of them can do something.
pub Run_ends_pair :
    {self after : Pair} (k : ℕ)
    → Reach self
    → Run self k after
    → (after.this.done ≡ not after.waiting)
      × (after.other.done ≡ not after.waiting)
      × (((both_copying self ≡ true) × (k ≡ 0))
          ⊎ ((both_copying self ≡ false)
              × (k ≤ 3)
              × (IsEnded after ⊎ ((next : Pair) × Finish after next))))
unfolding is_selected
Run_ends_pair {self} {after} k reached run =
    let paired = Reach-IsPaired reached in
    let (kept, same) = Run-kept run paired in
    (
      kept.told_this,
      kept.told_other,
      elim (Bool-cases (both_copying self)) [
        | inl both ↦ inl (both, Run-nothing run paired both)
        | inr stopped ↦ inr (
          stopped,
          ground (arith, Run-left run),
          progress after kept (ground (arith, same, stopped)),
        )
      ],
    )
