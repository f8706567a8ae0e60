-- ===== src/Socks/Roundtrip.antt =====
-- What the SOCKS5 messages of util/socks/socks.go mean, as a client writes them.
use gatewaysshd.Common.{
  ℕ, ◌+◌, ◌*◌, ◌/◌, ◌%◌, ◌≡◌, ◌<◌, true, [], ◌∷◌, ◌++◌, Text, ◌==◌, nat_key, if◌then◌else◌, leb,
  length, take-length_append, drop-length_append, arith,
}
use gatewaysshd.Errors.{ok, err, unsupported_auth, unsupported_command}
use gatewaysshd.Socks.{
  offers_no_auth, authenticate, send_reply, parse_address, parse_port, parse_request,
  connect_command, command_not_supported,
}

length-append-le : (a b : Text) → leb (length a) (length (a ++ b)) ≡ true
length-append-le [] b = ground arith
length-append-le (x ∷ a) b = ground (arith, length-append-le a b)

-- The greeting of a client is answered by the method without authentication exactly if the client
-- offers it, and refused if not, on a connection that can be written to. What follows is not read.
pub authenticate_lem :
    (methods rest output : Text)
    → authenticate (record {
      input = 5 ∷ length methods ∷ (methods ++ rest);
      output = output;
      can_write = true;
    })
      ≡ (if offers_no_auth methods
          then (record { input = rest; output = output ++ (5 ∷ 0 ∷ []); can_write = true }, ok tt)
          else (
            record { input = rest; output = output ++ (5 ∷ 255 ∷ []); can_write = true },
            err unsupported_auth,
          ))
unfolding authenticate
authenticate_lem methods rest output = ground (
  arith,
  length-append-le methods rest,
  take-length_append methods rest,
  drop-length_append methods rest,
)

-- A request for a named host is read back as that host and port, and the bytes behind it are left.
-- A command other than connect is refused, after the whole request was read, with the reply 7.
pub parse_request_lem :
    (ip_string : Text → Text) (command port : ℕ) (name rest output : Text)
    → port < 65536
    → parse_request ip_string (record {
      input = 5 ∷ command ∷ 0 ∷ 3 ∷ length name ∷ (name ++ (port / 256 ∷ port % 256 ∷ rest));
      output = output;
      can_write = true;
    })
      ≡ (if command == connect_command
          then (record { input = rest; output = output; can_write = true }, ok (name, port))
          else (
            record {
              input = rest;
              output = output ++ (5 ∷ command_not_supported ∷ 0 ∷ 1 ∷ 0 ∷ 0 ∷ 0 ∷ 0 ∷ 0 ∷ 0 ∷ []);
              can_write = true;
            },
            err unsupported_command,
          ))
unfolding parse_request parse_address parse_port send_reply
parse_request_lem ip_string command port name rest output low =
    let bytes = port / 256 ∷ port % 256 ∷ rest in
    let whole : (port / 256) * 256 + port % 256 ≡ port = omega arith in
    ground (
      arith,
      length-append-le name bytes,
      take-length_append name bytes,
      drop-length_append name bytes,
      whole,
    )
