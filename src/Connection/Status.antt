-- ===== src/Connection/Status.antt =====
-- gateway/connection.go and gateway/tunnel.go, gatherStatus: what a connection shows of itself.
use gatewaysshd.Common.{
  ℕ, ◌-◌, ◌/◌, ◌≡◌, ◌↔◌, refl, Bool, true, false, List, [], ◌∷◌, Option, none, some, Text, ◌==◌,
  text_key, nat_key, if◌then◌else◌, arith, length, Member, inl, inr, map, subst, sym, Bool-cases,
  Option-cases,
}
use gatewaysshd.Common.Dict.{
  Dict, Distinct, lookup, insert, delete, lookup-insert, insert-Distinct, delete-Distinct,
}
use gatewaysshd.RouteCache.{second}
use gatewaysshd.Connection.{
  Connection, Tunnel, ports_of, register_service, deregister_service, lookup_service, or_false,
  uint64,
}
use gatewaysshd.Connection.Usage.{UsageStats}

-- The ports of one host that are on.
unfoldable pub open_ports : Dict ℕ Bool → List ℕ
open_ports [] = []
open_ports ((port, on) ∷ rest) =
    let others = open_ports rest in if on then port ∷ others else others

-- The map of the services; a host with no port that is on has no entry.
unfoldable pub open_services : Dict Text (Dict ℕ Bool) → Dict Text (List ℕ)
unfolding open_ports
open_services [] = []
open_services ((host, ports) ∷ rest) =
    let others = open_services rest in
    elim (open_ports ports) [ [] ↦ others | p ∷ ps ↦ (host, p ∷ ps) ∷ others ]

pub record ConnectionStatus : Type 0 where
  pub user : Text
  pub administrator : Bool
  pub permit_port_forwarding : Bool
  pub address : Text
  -- the types of the tunnels
  pub tunnels : List Text
  pub tunnels_active : ℕ
  pub tunnels_opened : ℕ
  pub tunnels_closed : ℕ
  pub created_at : ℕ
  pub used_at : ℕ
  pub up_time : ℕ
  pub idle_time : ℕ
  pub bytes_read : ℕ
  pub bytes_written : ℕ
  pub services : Dict Text (List ℕ)

unfoldable pub gather_status : Connection → UsageStats → ℕ → ConnectionStatus
unfolding open_services
gather_status self usage now = record {
  user = self.user;
  administrator = self.administrator;
  permit_port_forwarding = self.permit_port_forwarding;
  address = self.remote_address;
  tunnels = map (λ (t : Tunnel). t.channel_type) self.tunnels;
  tunnels_active = uint64 (length self.tunnels);
  tunnels_opened = self.tunnels_opened;
  tunnels_closed = self.tunnels_closed;
  created_at = usage.created_at;
  used_at = usage.used_at;
  up_time = (now - usage.created_at) / second;
  idle_time = (now - usage.used_at) / second;
  bytes_read = usage.bytes_read;
  bytes_written = usage.bytes_written;
  services = open_services self.services;
}

abbrev pub listed : Option (List ℕ) → List ℕ
listed none = []
listed (some ports) = ports

-- The ports that a status lists for a host.
abbrev pub listed_ports : ConnectionStatus → Text → List ℕ
listed_ports status host = listed (lookup host status.services)

absent :
    (port : ℕ) (ports : Dict ℕ Bool) → lookup port ports ≡ none → ¬ Member port (open_ports ports)
unfolding lookup open_ports
absent port [] h m = m
absent port ((p, true) ∷ rest) h (inl e) = ground (arith, e)
absent port ((p, true) ∷ rest) h (inr m) = absent port rest (ground arith) m
absent port ((p, false) ∷ rest) h m = absent port rest (ground arith) m

Member-open_ports :
    (port : ℕ) (ports : Dict ℕ Bool)
    → Distinct ports
    → Member port (open_ports ports) ↔ (or_false (lookup port ports) ≡ true)
unfolding lookup open_ports
Member-open_ports port [] d = ((λ m. absurd m), (λ e. cc))
Member-open_ports port ((p, true) ∷ rest) d =
    let ih = Member-open_ports port rest d.1 in
    (
      (λ m. elim m [ inl e ↦ ground (arith, e) | inr n ↦ ground (arith, ih.0 n) ]),
      (λ e. elim (Bool-cases (p == port)) [
        | inl hit ↦ inl (ground arith)
        | inr other ↦ inr (ih.1 (ground arith))
      ]),
    )
Member-open_ports port ((p, false) ∷ rest) d =
    let ih = Member-open_ports port rest d.1 in
    (
      (λ m. elim (Bool-cases (p == port)) [
        | inl hit ↦ absurd (absent port rest (ground (arith, d.0)) m)
        | inr other ↦ ground (arith, ih.0 m)
      ]),
      (λ e. elim (Bool-cases (p == port)) [ inl hit ↦ cc | inr other ↦ ih.1 (ground arith) ]),
    )

-- The maps hold no host and no port of a host twice.
abbrev pub IsMap : Dict Text (Dict ℕ Bool) → Type 0
IsMap [] = Unit
IsMap ((host, ports) ∷ rest) = (lookup host rest ≡ none) × Distinct ports × IsMap rest

listed_services_none :
    (host : Text) (services : Dict Text (Dict ℕ Bool))
    → lookup host services ≡ none
    → lookup host (open_services services) ≡ none
unfolding lookup open_services
listed_services_none host [] h = refl
listed_services_none host ((h0, ports) ∷ rest) h =
    elim (open_ports ports)
      as (λ ps.
        lookup host
          (elim ps [ [] ↦ open_services rest | p ∷ qs ↦ (h0, p ∷ qs) ∷ open_services rest ])
        ≡ none) [
          | [] ↦ ground (arith, listed_services_none host rest)
          | p ∷ qs ↦ ground (arith, listed_services_none host rest)
        ]

lookup-open_services :
    (host : Text) (services : Dict Text (Dict ℕ Bool))
    → IsMap services
    → listed (lookup host (open_services services))
      ≡ elim (lookup host services) [ none ↦ [] | some ports ↦ open_ports ports ]
unfolding lookup open_services
lookup-open_services host [] d = refl
lookup-open_services host ((h0, ports) ∷ rest) (fresh, dp, dr) =
    ground (arith, lookup-open_services host rest dr, listed_services_none host rest)

Distinct-lookup :
    (host : Text) (services : Dict Text (Dict ℕ Bool)) {ports : Dict ℕ Bool}
    → IsMap services
    → lookup host services ≡ some ports
    → Distinct ports
unfolding lookup
Distinct-lookup host [] d h = cc
Distinct-lookup host ((h0, qs) ∷ rest) {ports} (fresh, dp, dr) h = elim (Bool-cases (h0 == host)) [
  | inl hit ↦ let e : qs ≡ ports = ground arith in subst Distinct e dp
  | inr other ↦ Distinct-lookup host rest {ports = ports} dr (ground arith)
]

-- A status lists a port of a host exactly if clients reach that endpoint.
pub gather_status_services :
    (self : Connection) (usage : UsageStats) (now : ℕ) (host : Text) (port : ℕ)
    → IsMap self.services
    → Member port (listed_ports (gather_status self usage now) host)
      ↔ (lookup_service self host port ≡ true)
unfolding gather_status lookup_service
gather_status_services self usage now host port d =
    rw (lookup-open_services host self.services d)
      (elim (Option-cases (lookup host self.services)) [
        | inl unknown ↦ rw (unknown, lookup_service) ((λ m. absurd m), (λ e. cc))
        | inr (ports, known) ↦
            rw (known, lookup_service)
              (Member-open_ports port ports
                (Distinct-lookup host self.services {ports = ports} d known))
      ])

insert-IsMap :
    (host : Text) (ports : Dict ℕ Bool) (services : Dict Text (Dict ℕ Bool))
    → Distinct ports
    → IsMap services
    → IsMap (insert host ports services)
unfolding insert lookup
insert-IsMap host ports [] p d = (refl, p, tt)
insert-IsMap host ports ((h0, qs) ∷ rest) p (fresh, dp, dr) = elim (Bool-cases (h0 == host)) [
  | inl hit ↦ rw hit (ground (arith, fresh), p, dr)
  | inr other ↦ rw other (
    ground (arith, fresh, lookup-insert host h0 ports rest),
    dp,
    insert-IsMap host ports rest p dr,
  )
]

Distinct-ports_of :
    (self : Connection) (host : Text) → IsMap self.services → Distinct (ports_of self host)
Distinct-ports_of self host d = elim (Option-cases (lookup host self.services)) [
  | inl unknown ↦
      let e : ports_of self host ≡ [] = ground (arith, unknown) in subst Distinct (sym e) tt
  | inr (ports, known) ↦
      let e : ports_of self host ≡ ports = ground (arith, known) in
      subst Distinct (sym e) (Distinct-lookup host self.services {ports = ports} d known)
]

-- Registering a service keeps the maps without duplicates.
pub register_service-IsMap :
    (self : Connection) (host : Text) (port : ℕ)
    → IsMap self.services
    → IsMap (register_service self host port).0.services
unfolding register_service
register_service-IsMap self host port d =
    let ports = ports_of self host in
    elim (Bool-cases (or_false (lookup port ports))) [
      | inl taken ↦
          rw (taken, register_service)
            (insert-IsMap host ports self.services (Distinct-ports_of self host d) d)
      | inr free ↦
          rw (free, register_service)
            (insert-IsMap host (insert port true ports) self.services
              (insert-Distinct port true ports (Distinct-ports_of self host d)) d)
    ]

-- And so does deregistering one.
pub deregister_service-IsMap :
    (self : Connection) (host : Text) (port : ℕ)
    → IsMap self.services
    → IsMap (deregister_service self host port).services
unfolding deregister_service
deregister_service-IsMap self host port d = elim (Option-cases (lookup host self.services)) [
  | inl unknown ↦ rw (unknown, deregister_service) d
  | inr (ports, known) ↦
      rw (known, deregister_service)
        (insert-IsMap host (delete port ports) self.services
          (delete-Distinct port ports (Distinct-lookup host self.services {ports = ports} d known))
          d)
]
