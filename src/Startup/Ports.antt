-- ===== src/Startup/Ports.antt =====
-- cli/run.go and db/db.go: a node with a database of its own. The address that it makes is printed and
-- read again.
use gatewaysshd.Common.{
  ℕ, zero, suc, ◌+◌, ◌-◌, ◌*◌, ◌/◌, ◌%◌, ◌^◌, ◌≤◌, ◌<◌, ◌≡◌, ◌≢◌, refl, Bool, false, [], ◌∷◌, ◌++◌,
  Option, none, some, Text, if◌then◌else◌, leb, arith, ◌&&◌, inl, inr, subst, text_key,
}
use native.Mathlib.Numerals.{unary_clauses}
use gatewaysshd.Errors.{Result-cases, ok}
use gatewaysshd.Proxy.Split.{
  parse_digits, parse_uint, split_host_port, holds, colon, opening, closing,
}
use gatewaysshd.Proxy.HostPort.{split_host_port_named}
use gatewaysshd.Auth.Ssh.{SshLibrary}
use gatewaysshd.Startup.{KeyLibrary, Flags, parse_postgres_password}
use gatewaysshd.Startup.Postgres.{DatabaseSettings, direct, dsn, open_dialector, digits, decimal}
use gatewaysshd.Startup.Settings.{
  Config, direct_settings, database_settings, gateway_settings, configure,
}
use gatewaysshd.Startup.Roles.{configure_inv}

abbrev is_digit : ℕ → Bool
is_digit d = leb b'0' d && leb d b'9'

abbrev next : Option ℕ → ℕ → Option ℕ
next none d = none
next (some value) d = if is_digit d then some (value * 10 + (d - b'0')) else none

parse_digits-append :
    (value : ℕ) (s : Text) (d : ℕ)
    → parse_digits value (s ++ (d ∷ [])) ≡ next (parse_digits value s) d
unfolding parse_digits
parse_digits-append value [] d = ground arith
parse_digits-append value (c ∷ s) d =
    ground (arith, parse_digits-append (value * 10 + (c - b'0')) s d)

-- A number is read from its digits again, if the fuel is as many digits as it has.
parse_digits-digits : (fuel n : ℕ) → n < 10 ^ fuel → parse_digits 0 (digits fuel n) ≡ some n
unfolding digits parse_digits
parse_digits-digits zero n low = let e : n ≡ 0 = omega arith in ground (arith, e)
parse_digits-digits (suc fuel) n low =
    let power : 10 ^ suc fuel ≡ 10 * 10 ^ fuel = simp unary_clauses (omega arith) in
    let bound : n / 10 < 10 ^ fuel = omega (arith, power) in
    ground (
      arith,
      parse_digits-digits fuel (n / 10) bound,
      parse_digits-append 0 (digits fuel (n / 10)) (b'0' + n % 10),
    )

append-ne-nil : (s : Text) (d : ℕ) → s ++ (d ∷ []) ≢ []
append-ne-nil [] d e = cc
append-ne-nil (c ∷ s) d e = cc

digits-ne-nil : (fuel n : ℕ) → digits (suc fuel) n ≢ []
unfolding digits
digits-ne-nil fuel n = ground (arith, append-ne-nil (digits fuel (n / 10)) (b'0' + n % 10))

parse_uint-digits :
    (s : Text) (n : ℕ) → s ≢ [] → parse_digits 0 s ≡ some n → n ≤ 65535 → parse_uint s ≡ some n
unfolding parse_uint
parse_uint-digits [] n named h low = absurd (named refl)
parse_uint-digits (c ∷ s) n named h low = ground (arith, h)

split_host_port-decimal :
    (host : Text) (port default_port : ℕ)
    → holds colon host ≡ false
    → holds opening host ≡ false
    → holds closing host ≡ false
    → port ≤ 65535
    → split_host_port (host ++ (b':' ∷ decimal port)) default_port ≡ ok (host, port)
split_host_port-decimal host port default_port plain unopened unclosed low =
    split_host_port_named host (decimal port) {port = port} plain unopened unclosed
      (parse_uint-digits (decimal port) port (digits-ne-nil 4 port)
        (parse_digits-digits 5 port (omega arith)) low)
      default_port

module _ (ssh : SshLibrary) (keys : KeyLibrary ssh.PublicKey) (read_file : Text → Option Text)
    (parse_duration : Text → Option ℕ) (flags : Flags) where
  open ssh use {PublicKey}
  open keys use {Signer}

  database_settings_direct :
      (node_signer : Option Signer) {result : DatabaseSettings PublicKey Signer}
      → flags.postgres_peer ≡ []
      → database_settings ssh keys read_file flags node_signer ≡ ok result
      → (flags.postgres_port ≤ 65535) × (open_dialector result ≡ direct (dsn result))
  unfolding database_settings open_dialector
  database_settings_direct node_signer {result} alone h =
      elim (Result-cases (parse_postgres_password ssh keys read_file flags)) [
        | inl (e, unread) ↦ absurd (ground arith)
        | inr (password, reads) ↦
            let e : direct_settings ssh keys read_file flags password ≡ result =
              ground (arith, reads, alone) in
            (
              ground (arith, reads, alone),
              subst (λ r. open_dialector r ≡ direct (dsn r)) e (ground arith),
            )
      ]

  -- A node that was told of no peer for postgres opens its database directly, and the address to which
  -- it bridges its peers splits into the host and the port of the flags, if the host is a plain name.
  pub configure_direct :
      {config : Config ssh keys read_file} (default_port : ℕ)
      → configure ssh keys read_file parse_duration flags ≡ ok config
      → flags.postgres_peer ≡ []
      → holds colon flags.postgres_host ≡ false
      → holds opening flags.postgres_host ≡ false
      → holds closing flags.postgres_host ≡ false
      → (open_dialector config.database ≡ direct (dsn config.database))
        × (split_host_port config.gateway.postgres_address default_port
            ≡ ok (flags.postgres_host, flags.postgres_port))
  unfolding gateway_settings
  configure_direct {config} default_port h alone plain unopened unclosed =
      let started = configure_inv ssh keys read_file parse_duration flags {config = config} h in
      let (low, opens) =
        database_settings_direct started.node_signer {result = config.database} alone
          started.stores in
      let address : config.gateway.postgres_address
          ≡ flags.postgres_host ++ (b':' ∷ decimal flags.postgres_port) =
        ground (arith, started.gates, alone) in
      (
        opens,
        rw address (
            split_host_port-decimal flags.postgres_host flags.postgres_port default_port plain
              unopened unclosed low),
      )
