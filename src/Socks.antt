-- ===== src/Socks.antt =====
-- util/socks/socks.go: the SOCKS5 negotiation and request. A connection is the bytes that are left
-- to read and the bytes written; how an address of bytes is printed is a parameter.
pub mod Roundtrip
use gatewaysshd.Common.{
  ℕ, ◌+◌, ◌*◌, Bool, true, false, not, ◌||◌, List, [], ◌∷◌, ◌++◌, Text, ◌==◌, nat_key,
  if◌then◌else◌, leb, length, take, drop,
}
use gatewaysshd.Errors.{
  Result, ok, err, unsupported_version, unsupported_auth, unsupported_address, unsupported_command,
  io_failed,
}

abbrev pub socks_version : ℕ
socks_version = 5

abbrev pub no_auth_required : ℕ
no_auth_required = 0

abbrev pub no_acceptable_method : ℕ
no_acceptable_method = 255

abbrev pub connect_command : ℕ
connect_command = 1

abbrev pub ipv4_address_type : ℕ
ipv4_address_type = 1

abbrev pub domain_name_address_type : ℕ
domain_name_address_type = 3

abbrev pub ipv6_address_type : ℕ
ipv6_address_type = 4

abbrev pub succeeded : ℕ
succeeded = 0

abbrev pub host_unreachable : ℕ
host_unreachable = 4

abbrev pub command_not_supported : ℕ
command_not_supported = 7

pub record Conn : Type 0 where
  pub input : Text
  pub output : Text
  pub can_write : Bool

-- `bytes[index]`, of a slice that is long enough.
abbrev pub byte_at : Text → ℕ → ℕ
byte_at bytes index = elim (drop index bytes) [ [] ↦ 0 | b ∷ rest ↦ b ]

-- `io.ReadFull` of n bytes, then what the code does with them.
abbrev pub read_full {ℓ} :
    {A : Type ℓ} → Conn → ℕ → (Conn → Text → Conn × Result A) → Conn × Result A
read_full conn n next =
    if leb n (length conn.input)
    then next (record conn { input = drop n conn.input }) (take n conn.input)
    else (record conn { input = [] }, err io_failed)

abbrev pub write : Conn → Text → Conn × Result (Unit {0})
write conn bytes =
    if conn.can_write
    then (record conn { output = conn.output ++ bytes }, ok tt)
    else (conn, err io_failed)

-- The loop over the offered methods.
unfoldable pub offers_no_auth : Text → Bool
offers_no_auth [] = false
offers_no_auth (method ∷ methods) = method == no_auth_required || offers_no_auth methods

unfoldable pub authenticate : Conn → Conn × Result (Unit {0})
authenticate conn = read_full conn 2 (λ conn header.
    if not (byte_at header 0 == socks_version)
    then (conn, err unsupported_version)
    else read_full conn (byte_at header 1) (λ conn methods.
      if offers_no_auth methods
      then write conn (socks_version ∷ no_auth_required ∷ [])
      else ((write conn (socks_version ∷ no_acceptable_method ∷ [])).0, err unsupported_auth)))

unfoldable pub send_reply : Conn → ℕ → Conn × Result (Unit {0})
send_reply conn reply =
    write conn (socks_version ∷ reply ∷ 0 ∷ ipv4_address_type ∷ 0 ∷ 0 ∷ 0 ∷ 0 ∷ 0 ∷ 0 ∷ [])

-- The address of a type, then what the code does with it.
unfoldable pub parse_address {ℓ} :
    {A : Type ℓ} → (Text → Text) → Conn → ℕ → (Conn → Text → Conn × Result A) → Conn × Result A
parse_address ip_string conn address_type next =
    if address_type == domain_name_address_type
    then read_full conn 1 (λ conn size. read_full conn (byte_at size 0) next)
    else if address_type == ipv4_address_type
    then read_full conn 4 (λ conn bytes. next conn (ip_string bytes))
    else if address_type == ipv6_address_type
    then read_full conn 16 (λ conn bytes. next conn (ip_string bytes))
    else (conn, err unsupported_address)

-- The port, and the check of the command, which comes last.
unfoldable pub parse_port : ℕ → Conn → Text → Conn × Result (Text × ℕ)
parse_port command conn address = read_full conn 2 (λ conn bytes.
    if not (command == connect_command)
    then ((send_reply conn command_not_supported).0, err unsupported_command)
    else (conn, ok (address, byte_at bytes 0 * 256 + byte_at bytes 1)))

unfoldable pub parse_request : (Text → Text) → Conn → Conn × Result (Text × ℕ)
parse_request ip_string conn = read_full conn 4 (λ conn header.
    if not (byte_at header 0 == socks_version)
    then (conn, err unsupported_version)
    else parse_address ip_string conn (byte_at header 3) (parse_port (byte_at header 1)))
