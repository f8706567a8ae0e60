-- ===== src/Startup/Roles.antt =====
-- cli/run.go: what the settings of a node make of it, together with auth/auth.go, db/db.go and
-- gateway/connection.go.
use gatewaysshd.Common.{
  ℕ, ◌≡◌, ◌≢◌, refl, sym, ◌∙◌, ap, subst, Bool, List, [], ◌∷◌, Option, none, some, Text, text_key,
  nat_key, arith, inl, inr,
}
use gatewaysshd.Errors.{
  Result, ok, err, ◌>>=◌, Result-cases, invalid_credentials, permission_denied,
}
use gatewaysshd.Auth.{World, Meta, authenticate, authenticate_peer, peer_user}
use gatewaysshd.Auth.Ssh.{SshLibrary}
use gatewaysshd.Connection.{Connection}
use gatewaysshd.Channels.{Environment, fails, handle_postgres_channel}
use gatewaysshd.Startup.{
  KeyLibrary, Parsed, parsed, failed, out_of_fuel, Flags, or_fail, parse_public_keys,
  parse_node_signer, parse_host_signer, parse_postgres_password,
}
use gatewaysshd.Startup.Postgres.{DatabaseSettings, through_peer, dsn, open_dialector}
use gatewaysshd.Startup.Settings.{
  Config, or_error, peer_authorities, database_settings, gateway_settings, configure,
  direct_settings, through, check_pinned_host_key, published_key,
}

bind_elim {ℓ κ μ} :
    {A : Type ℓ} {B : Type κ} {P : Type μ} (r : Result A) {f : A → Result B} {b : B}
    → (r >>= f) ≡ ok b
    → ((a : A) → r ≡ ok a → f a ≡ ok b → P)
    → P
bind_elim (ok a) h k = k a refl h
bind_elim (err e) h k = absurd cc

ok_inv {ℓ} : {A : Type ℓ} {a b : A} → ok a ≡ ok b → a ≡ b
ok_inv h = cc

module _ (ssh : SshLibrary) (keys : KeyLibrary ssh.PublicKey) (read_file : Text → Option Text)
    (parse_duration : Text → Option ℕ) (flags : Flags) where
  open ssh use {PublicKey}
  open keys use {Signer}

  -- The settings that a start gets by with.
  pub record Started (config : Config ssh keys read_file) : Type 0 where
    pub host_signer : Signer
    pub node_signer : Option Signer
    pub peers : peer_authorities ssh keys read_file flags ≡ ok config.auth.peer_ca_public_keys
    pub signs : parse_node_signer ssh keys read_file flags ≡ ok node_signer
    pub stores : database_settings ssh keys read_file flags node_signer ≡ ok config.database
    pub gates : config.gateway ≡ gateway_settings ssh keys read_file flags host_signer node_signer

  pub configure_inv :
      {config : Config ssh keys read_file}
      → configure ssh keys read_file parse_duration flags ≡ ok config
      → Started config
  unfolding configure
  configure_inv {config} h =
      bind_elim
        (or_error ssh keys read_file (parse_public_keys ssh keys read_file flags.ca_public_key))
        {b = config} h
        (λ cas h1 k1.
          bind_elim (parse_host_signer ssh keys read_file flags) {b = config} k1 (λ host h2 k2.
            bind_elim (or_fail ssh keys read_file (parse_duration flags.idle_timeout)) {b = config}
              k2
              (λ idle h3 k3.
                bind_elim (peer_authorities ssh keys read_file flags) {b = config} k3
                  (λ peers h4 k4.
                    bind_elim (parse_node_signer ssh keys read_file flags) {b = config} k4
                      (λ node h5 k5.
                        bind_elim (database_settings ssh keys read_file flags node) {b = config} k5
                          (λ database h6 k6.
                            let e = ok_inv k6 in
                            record {
                              host_signer = host;
                              node_signer = node;
                              peers =
                                  h4
                                  ∙ ap
                                      (λ (c : Config ssh keys read_file).
                                        ok c.auth.peer_ca_public_keys)
                                      e;
                              signs = h5;
                              stores = h6 ∙ ap (λ (c : Config ssh keys read_file). ok c.database) e;
                              gates = sym (ap (λ (c : Config ssh keys read_file). c.gateway) e);
                            }))))))

  -- A node that was started without authorities of peers lets nobody in under the reserved name of
  -- peers, whatever the certificate, the cached flags and the database.
  pub no_peer_authority :
      {config : Config ssh keys read_file} (reachable : Bool) (self : World) (meta : Meta)
      (key : PublicKey) (now : ℕ)
      → configure ssh keys read_file parse_duration flags ≡ ok config
      → flags.peer_ca_public_key ≡ []
      → meta.user ≡ peer_user
      → (authenticate ssh config.auth reachable self meta key now).result ≡ err invalid_credentials
  unfolding authenticate authenticate_peer peer_authorities
  no_peer_authority {config} reachable self meta key now h empty named =
      let peers = (configure_inv {config = config} h).peers in
      let e : config.auth.peer_ca_public_keys ≡ [] = ground (arith, peers) in ground (arith, e)

  -- The settings lead through a peer, with a signer and the first key of a file.
  pub record LedThrough (node_signer : Option Signer) (pinned : Parsed PublicKey)
      (settings : DatabaseSettings PublicKey Signer) : Type 0 where
    pub signer : Signer
    pub key : PublicKey
    pub others : List PublicKey
    pub signed : node_signer ≡ some signer
    pub pins : pinned ≡ parsed (key ∷ others)
    pub led :
        open_dialector settings
        ≡ through_peer (dsn settings) flags.postgres_peer (some signer) (some key)

  through-LedThrough :
      (settings : DatabaseSettings PublicKey Signer) (node_signer : Option Signer)
      (pinned : Parsed PublicKey) {result : DatabaseSettings PublicKey Signer}
      → flags.postgres_peer ≢ []
      → through ssh keys read_file settings flags.postgres_peer node_signer pinned ≡ ok result
      → LedThrough node_signer pinned result
  unfolding open_dialector
  through-LedThrough settings none pinned peer h = absurd cc
  through-LedThrough settings (some signer) failed peer h = absurd cc
  through-LedThrough settings (some signer) out_of_fuel peer h = absurd cc
  through-LedThrough settings (some signer) (parsed []) peer h = absurd cc
  through-LedThrough settings (some signer) (parsed (key ∷ others)) {result} peer h =
      subst (LedThrough (some signer) (parsed (key ∷ others))) (ok_inv h) (record {
        signer = signer;
        key = key;
        others = others;
        signed = refl;
        pins = refl;
        led = ground (arith, peer);
      })

  database_settings-LedThrough :
      (node_signer : Option Signer) {result : DatabaseSettings PublicKey Signer}
      → flags.postgres_peer ≢ []
      → database_settings ssh keys read_file flags node_signer ≡ ok result
      → LedThrough node_signer
          (parse_public_keys ssh keys read_file flags.postgres_peer_host_public_key)
          result
  unfolding database_settings
  database_settings-LedThrough node_signer {result} peer h =
      elim (Result-cases (parse_postgres_password ssh keys read_file flags)) [
        | inl (e, unread) ↦ absurd (ground arith)
        | inr (password, reads) ↦
            through-LedThrough (direct_settings ssh keys read_file flags password) node_signer
              (parse_public_keys ssh keys read_file flags.postgres_peer_host_public_key)
              {result = result} peer (ground (arith, reads, peer))
      ]

  -- A node that was told to reach postgres through a peer does so, with the signer of its node
  -- certificate and with the first key of the file pinned; and it bridges to postgres for nobody.
  pub configure_through_peer :
      {config : Config ssh keys read_file} (env : Environment) (self : Connection)
      → configure ssh keys read_file parse_duration flags ≡ ok config
      → flags.postgres_peer ≢ []
      → env.postgres_address ≡ config.gateway.postgres_address
      → ((signer : Option Signer) × (parse_node_signer ssh keys read_file flags ≡ ok signer)
          × LedThrough signer
              (parse_public_keys ssh keys read_file flags.postgres_peer_host_public_key)
              config.database)
        × (handle_postgres_channel env self ≡ fails permission_denied)
  unfolding handle_postgres_channel gateway_settings database_settings
  configure_through_peer {config} env self h peer address =
      let started = configure_inv {config = config} h in
      (
        (
          started.node_signer,
          started.signs,
          database_settings-LedThrough started.node_signer {result = config.database} peer
              started.stores,
        ),
        ground (arith, started.gates, address, peer),
      )

-- A node that dials another with the key pinned that the other publishes accepts its host key, be it
-- a certificate or not.
pub check_pinned_host_key-published_key :
    (ssh : SshLibrary) (keys : KeyLibrary ssh.PublicKey) (read_file : Text → Option Text)
    (host_signer : keys.Signer)
    → check_pinned_host_key ssh keys read_file
        (published_key ssh keys read_file host_signer)
        (keys.public_key host_signer)
      ≡ ok tt
unfolding check_pinned_host_key published_key
check_pinned_host_key-published_key ssh keys read_file host_signer = ground arith
