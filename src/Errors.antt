-- ===== src/Errors.antt =====
-- The errors of gateway, auth, socks and db as one type, and the results that carry one of them.
use gatewaysshd.Common.{◌≡◌, refl, ◌⊎◌, inl, inr}

pub data Error : Type 0 where
  -- gateway/utils.go
  invalid_forward_request invalid_tunnel_data : Error
  -- gateway/connection.go
  service_already_registered service_not_found extra_data_not_allowed : Error
  unknown_channel_type permission_denied port_out_of_range : Error
  -- gateway/service.go
  invalid_command not_found shell_only : Error
  -- auth/auth.go
  invalid_credentials : Error
  -- util/socks/socks.go
  unsupported_version unsupported_auth unsupported_address unsupported_command : Error
  -- gateway/httpproxy.go, of the packages net and strconv
  bad_address : Error
  -- cli: a flag that is missing, out of range or cannot be read
  bad_flag : Error
  -- cli/http.go
  page_not_found : Error
  -- failures that other code reports: ssh, the network, postgres, json
  ssh_failed io_failed database_failed json_failed record_not_found : Error

pub data Result {ℓ} (A : Type ℓ) : Type ℓ where
  ok : A → Result A
  err : Error → Result A

-- Go on with the value, or return the error.
infixl 5 ◌>>=◌
abbrev pub ◌>>=◌ {ℓ κ} : {T : Type ℓ} {U : Type κ} → Result T → (T → Result U) → Result U
err failure >>= next = err failure
ok value >>= next = next value

pub Error-discrete : Discrete Error
Error-discrete = hlevel

pub Result-cases {ℓ} :
    {A : Type ℓ} (r : Result A) → ((e : Error) × (r ≡ err e)) ⊎ ((a : A) × (r ≡ ok a))
Result-cases (ok a) = inr (a, refl)
Result-cases (err e) = inl (e, refl)
