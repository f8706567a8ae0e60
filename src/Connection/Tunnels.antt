-- ===== src/Connection/Tunnels.antt =====
-- The tunnels of gateway/connection.go and their counters.
use gatewaysshd.Common.{
  ℕ, suc, ◌+◌, ◌-◌, ◌^◌, ◌≡◌, subst, ◌≢◌, refl, Bool, not, List, [], ◌∷◌, ◌==◌, nat_key, arith,
  length, select, ◌⊎◌, inl, inr,
}
use gatewaysshd.Connection.{Connection, Tunnel, add_tunnel, delete_tunnel, uint64}

abbrev pub Apart : ℕ → List Tunnel → Type 0
Apart pointer [] = Unit
Apart pointer (t ∷ ts) = (t.pointer ≢ pointer) × Apart pointer ts

-- The pointers of the open tunnels are distinct.
abbrev pub Distinct : List Tunnel → Type 0
Distinct [] = Unit
Distinct (t ∷ ts) = Apart t.pointer ts × Distinct ts

abbrev pub IsOpen : ℕ → List Tunnel → Type 0
IsOpen pointer [] = ⊥
IsOpen pointer (t ∷ ts) = (t.pointer ≡ pointer) ⊎ IsOpen pointer ts

-- The counters agree with the list, up to the width of the counters.
pub record IsCounted (self : Connection) : Type 0 where
  pub distinct : Distinct self.tunnels
  pub counted : uint64 (self.tunnels_closed + length self.tunnels) ≡ self.tunnels_opened

abbrev other : Tunnel → Tunnel → Bool
other closed t = not (t.pointer == closed.pointer)

select-Apart : (p : Tunnel → Bool) (a : ℕ) (ts : List Tunnel) → Apart a ts → Apart a (select p ts)
select-Apart p a [] h = tt
select-Apart p a (t ∷ ts) h = ground (arith, select-Apart p a ts h.1)

select-Distinct : (p : Tunnel → Bool) (ts : List Tunnel) → Distinct ts → Distinct (select p ts)
select-Distinct p [] d = tt
select-Distinct p (t ∷ ts) d =
    ground (arith, select-Distinct p ts d.1, select-Apart p t.pointer ts d.0)

pub select_absent :
    (closed : Tunnel) (ts : List Tunnel) → Apart closed.pointer ts → select (other closed) ts ≡ ts
select_absent closed [] h = refl
select_absent closed (t ∷ ts) h = ground (arith, select_absent closed ts h.1)

IsOpen-Apart : (a : ℕ) (ts : List Tunnel) → Apart a ts → ¬ IsOpen a ts
IsOpen-Apart a [] h = λ m. m
IsOpen-Apart a (t ∷ ts) h = λ m. ground (arith, IsOpen-Apart a ts h.1)

not_open-Apart : (a : ℕ) (ts : List Tunnel) → ¬ IsOpen a ts → Apart a ts
not_open-Apart a [] h = tt
not_open-Apart a (t ∷ ts) h = (λ e. h (inl e), not_open-Apart a ts (λ m. h (inr m)))

start_IsCounted :
    (start : Connection)
    → start.tunnels ≡ []
    → start.tunnels_opened ≡ 0
    → start.tunnels_closed ≡ 0
    → IsCounted start
start_IsCounted start e o c = record { distinct = rw e tt; counted = rw (e, o, c) }

length-select_open :
    (closed : Tunnel) (ts : List Tunnel)
    → Distinct ts
    → IsOpen closed.pointer ts
    → suc (length (select (other closed) ts)) ≡ length ts
length-select_open closed [] d h = absurd h
length-select_open closed (t ∷ ts) d (inl e) =
    let apart : Apart closed.pointer ts = subst (λ a. Apart a ts) e d.0 in
    ground (arith, select_absent closed ts apart)
length-select_open closed (t ∷ ts) d (inr h) =
    let apart : t.pointer ≢ closed.pointer =
      λ e. IsOpen-Apart closed.pointer ts (subst (λ a. Apart a ts) e d.0) h in
    ground (arith, length-select_open closed ts d.1 h, apart)

-- Opening a tunnel keeps the counters right, and so does closing one that is open.
pub add_tunnel-IsCounted :
    (self : Connection) (opened : Tunnel)
    → IsCounted self
    → ¬ IsOpen opened.pointer self.tunnels
    → IsCounted (add_tunnel self opened)
unfolding add_tunnel
add_tunnel-IsCounted self opened v new = record {
  distinct = (not_open-Apart opened.pointer self.tunnels new, v.distinct);
  counted = omega (arith, v.counted);
}

pub delete_tunnel-IsCounted :
    (self : Connection) (closed : Tunnel)
    → IsCounted self
    → IsOpen closed.pointer self.tunnels
    → IsCounted (delete_tunnel self closed)
unfolding delete_tunnel
delete_tunnel-IsCounted self closed v h = record {
  distinct = select-Distinct (other closed) self.tunnels v.distinct;
  counted = omega (arith, v.counted, length-select_open closed self.tunnels v.distinct h);
}

-- The lives of the tunnels of one connection: each pointer is new when it is added, and is deleted
-- once, by the deferred call of its request loop.
pub data Step : Connection → Connection → Type 0 where
  opens :
      (self : Connection) (t : Tunnel)
      → ¬ IsOpen t.pointer self.tunnels
      → Step self (add_tunnel self t)
  closes :
      (self : Connection) (t : Tunnel)
      → IsOpen t.pointer self.tunnels
      → Step self (delete_tunnel self t)

pub data Reach (start : Connection) : Connection → Type 0 where
  here : Reach start start
  next : {self after : Connection} → Reach start self → Step self after → Reach start after

Step-IsCounted : {self after : Connection} → Step self after → IsCounted self → IsCounted after
Step-IsCounted (opens self t new) v = add_tunnel-IsCounted self t v new
Step-IsCounted (closes self t h) v = delete_tunnel-IsCounted self t v h

Reach-IsCounted : {start self : Connection} → IsCounted start → Reach start self → IsCounted self
Reach-IsCounted v here = v
Reach-IsCounted v (next r st) = Step-IsCounted st (Reach-IsCounted v r)

-- The number of tunnels that the status reports is the number opened less the number closed, in
-- uint64 arithmetic, whatever tunnels a connection that starts with none opens and closes.
pub tunnels_active :
    {start self : Connection}
    → start.tunnels ≡ []
    → start.tunnels_opened ≡ 0
    → start.tunnels_closed ≡ 0
    → Reach start self
    → uint64 (length self.tunnels)
      ≡ uint64 (self.tunnels_opened + 2 ^ 64 - uint64 self.tunnels_closed)
tunnels_active {start} {self} e o c r =
    omega (arith, (Reach-IsCounted (start_IsCounted start e o c) r).counted)
