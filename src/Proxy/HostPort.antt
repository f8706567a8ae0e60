-- ===== src/Proxy/HostPort.antt =====
-- gateway/httpproxy.go, splitHostPort: which host and port an address names.
use gatewaysshd.Common.{
  ℕ, ◌+◌, ◌-◌, ◌*◌, ◌<◌, ◌⊎◌, ◌≤◌, ◌≡◌, ◌≢◌, refl, false, ◌||◌, [], ◌∷◌, ◌++◌, none, some, Text,
  nat_key, arith, Option-cases, inl, inr,
}
use gatewaysshd.Errors.{ok}
use gatewaysshd.Proxy.Split.{
  cut_first, cut_last, holds, parse_digits, parse_uint, net_split_host_port, split_host_port,
  check_brackets, colon, opening, closing, starts_with,
}

cut_last-none : (c : ℕ) (s : Text) → holds c s ≡ false → cut_last c s ≡ none
unfolding cut_last holds
cut_last-none c [] h = refl
cut_last-none c (d ∷ s) h = ground (arith, cut_last-none c s)

cut_last-append : (c : ℕ) (a b : Text) → holds c b ≡ false → cut_last c (a ++ (c ∷ b)) ≡ some (a, b)
unfolding cut_last
cut_last-append c [] b h = ground (arith, cut_last-none c b h)
cut_last-append c (d ∷ a) b h = ground (arith, cut_last-append c a b h)

cut_first-append :
    (c : ℕ) (a b : Text) → holds c a ≡ false → cut_first c (a ++ (c ∷ b)) ≡ some (a, b)
unfolding cut_first holds
cut_first-append c [] b h = ground arith
cut_first-append c (d ∷ a) b h = ground (arith, cut_first-append c a b)

holds-append : (c : ℕ) (a b : Text) → holds c (a ++ b) ≡ (holds c a || holds c b)
unfolding holds
holds-append c [] b = refl
holds-append c (d ∷ a) b = ground (arith, holds-append c a b)

starts_with-holds : (c : ℕ) (s : Text) → holds c s ≡ false → starts_with c s ≡ false
unfolding holds
starts_with-holds c [] h = refl
starts_with-holds c (d ∷ s) h = ground arith

-- A text that reads as digits has no byte outside of them.
digits-holds :
    (c value : ℕ) (s : Text) {port : ℕ}
    → parse_digits value s ≡ some port
    → (c < b'0') ⊎ (b'9' < c)
    → holds c s ≡ false
unfolding parse_digits holds
digits-holds c value [] h o = refl
digits-holds c value (d ∷ s) {port} h o =
    ground (arith, digits-holds c (value * 10 + (d - b'0')) s {port = port})

uint-holds :
    (c : ℕ) (s : Text) {port : ℕ}
    → parse_uint s ≡ some port
    → (c < b'0') ⊎ (b'9' < c)
    → (holds c s ≡ false) × (port ≤ 65535)
unfolding parse_uint
uint-holds c [] h o = cc
uint-holds c (d ∷ s) {port} h o = elim (Option-cases (parse_digits 0 (d ∷ s))) [
  | inl bad ↦ absurd (ground arith)
  | inr (value, good) ↦ (digits-holds c 0 (d ∷ s) {port = value} good o, ground arith)
]

-- A byte that the host does not hold, and the digits behind its colon do not.
module _ (host port_text : Text) {port : ℕ} (plain : holds colon host ≡ false)
    (unopened : holds opening host ≡ false) (unclosed : holds closing host ≡ false)
    (digits : parse_uint port_text ≡ some port) where
  bare :
      (c : ℕ)
      → (c < b'0') ⊎ (b'9' < c)
      → c ≢ colon
      → holds c host ≡ false
      → holds c (host ++ (colon ∷ port_text)) ≡ false
  unfolding holds
  bare c o other h = ground (
    arith,
    holds-append c host (colon ∷ port_text),
    uint-holds c port_text {port = port} digits o,
  )

  -- A host with no colon and no bracket, a colon, and a decimal number of 16 bits name that host and
  -- that number as the port, whatever the default.
  pub split_host_port_named :
      (default_port : ℕ)
      → split_host_port (host ++ (colon ∷ port_text)) default_port ≡ ok (host, port)
  unfolding split_host_port net_split_host_port check_brackets
  split_host_port_named default_port =
      let whole = host ++ (colon ∷ port_text) in
      let unbracketed = bare opening (inr (omega arith)) (omega arith) unopened in
      let no_colon = (uint-holds colon port_text {port = port} digits (inr (omega arith))).0 in
      ground (
        arith,
        cut_last-append colon host port_text no_colon,
        unbracketed,
        bare closing (inr (omega arith)) (omega arith) unclosed,
        starts_with-holds opening whole unbracketed,
        plain,
        digits,
      )

-- An address with no colon is a host, and the port is the default.
pub split_host_port_default :
    (host : Text) (default_port : ℕ)
    → holds colon host ≡ false
    → split_host_port host default_port ≡ ok (host, default_port)
unfolding split_host_port net_split_host_port
split_host_port_default host default_port h = ground (arith, cut_last-none colon host h)
