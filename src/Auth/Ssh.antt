-- ===== src/Auth/Ssh.antt =====
-- What auth/auth.go uses of golang.org/x/crypto/ssh.
use gatewaysshd.Common.{◌≡◌, Bool, true, Option, some, Text}
use gatewaysshd.Common.Dict.{Dict}
use gatewaysshd.Errors.{Result, ok}

-- The extensions of a certificate or of a connection's permissions.
abbrev pub Extensions : Type 0
Extensions = Dict Text Text

pub record SshLibrary : Type 1 where
  pub PublicKey : Type 0
  pub marshal : PublicKey → Text
  -- the key id, if the key is a certificate
  pub certificate_key_id : PublicKey → Option Text
  -- the key that signed, if the key is a certificate
  pub signature_key : PublicKey → Option PublicKey
  -- CertChecker.Authenticate, with its callback, the user name and the key
  pub check_certificate : (PublicKey → Bool) → Text → PublicKey → Result Extensions
  -- documented: only a certificate of an authority that the callback accepts is accepted
  pub accepted_authority :
      (is_user_authority : PublicKey → Bool) (user : Text) (key : PublicKey)
      {extensions : Extensions}
      → check_certificate is_user_authority user key ≡ ok extensions
      → (ca : PublicKey) × (signature_key key ≡ some ca) × (is_user_authority ca ≡ true)
