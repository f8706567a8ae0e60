-- ===== src/Startup/Postgres.antt =====
-- db/db.go, Open: how the database is reached.
use gatewaysshd.Common.{
  ℕ, zero, suc, ◌+◌, ◌/◌, ◌%◌, [], ◌∷◌, ◌++◌, Option, Text, codes, ◌==◌, nat_key, text_key,
  if◌then◌else◌, ltb,
}

-- db.Settings.
pub record DatabaseSettings (PublicKey Signer : Type 0) : Type 0 where
  pub host : Text
  pub port : ℕ
  pub user : Text
  pub password : Text
  pub database_name : Text
  pub ssl_mode : Text
  pub peer_address : Text
  pub peer_signer : Option Signer
  pub peer_host_public_key : Option PublicKey

-- How the database is reached: with a dsn, directly or by tunnels through a peer.
pub data Dialector (PublicKey Signer : Type 0) : Type 0 where
  direct : Text → Dialector PublicKey Signer
  through_peer : Text → Text → Option Signer → Option PublicKey → Dialector PublicKey Signer

-- The decimal digits of a number; the fuel is the number of digits at most, five for a port.
unfoldable pub digits : ℕ → ℕ → Text
digits zero n = []
digits (suc fuel) n =
    let rest = digits fuel (n / 10) in
    if ltb n 10 then (b'0' + n) ∷ [] else rest ++ ((b'0' + n % 10) ∷ [])

abbrev pub decimal : ℕ → Text
decimal n = digits 5 n

-- db.Open: the dsn with its default, and the way to the database.
unfoldable pub dsn : {PublicKey Signer : Type 0} → DatabaseSettings PublicKey Signer → Text
unfolding digits
dsn settings =
    let ssl_mode = if settings.ssl_mode == [] then codes "disable" else settings.ssl_mode in
    codes "host="
    ++ (settings.host
        ++ (codes " port="
            ++ (decimal settings.port
                ++ (codes " user="
                    ++ (settings.user
                        ++ (codes " password="
                            ++ (settings.password
                                ++ (codes " dbname="
                                    ++ (settings.database_name
                                        ++ (codes " sslmode=" ++ ssl_mode))))))))))

unfoldable pub open_dialector :
    {PublicKey Signer : Type 0} → DatabaseSettings PublicKey Signer → Dialector PublicKey Signer
unfolding dsn
open_dialector settings =
    if settings.peer_address == []
    then direct (dsn settings)
    else through_peer (dsn settings) settings.peer_address settings.peer_signer
        settings.peer_host_public_key
