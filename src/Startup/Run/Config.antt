-- ===== src/Startup/Run/Config.antt =====
-- cli/run.go, run: the settings of a start are those of its parts, in the order of run.
use gatewaysshd.Common.{ℕ, ◌≡◌, refl, Option, Text}
use gatewaysshd.Errors.{Result, ok, err, ◌>>=◌}
use gatewaysshd.Auth.Ssh.{SshLibrary}
use gatewaysshd.Startup.{
  KeyLibrary, Flags, or_fail, parse_public_keys, parse_node_signer, parse_host_signer,
}
use gatewaysshd.Startup.Settings.{
  Config, configure, or_error, peer_authorities, database_settings, gateway_settings,
}
use gatewaysshd.Startup.Run.{Keys, read_keys}

-- A step that two programs begin with, of which one goes on elsewhere.
step_agree {ℓ κ μ} :
    {A : Type ℓ} {B : Type κ} {C : Type μ} (r : Result A) (f : A → Result C) (g : A → Result B)
    (h : B → Result C)
    → ((a : A) → f a ≡ (g a >>= h))
    → (r >>= f) ≡ ((r >>= g) >>= h)
step_agree (ok a) f g h same = same a
step_agree (err e) f g h same = refl

module _ (ssh : SshLibrary) (keys : KeyLibrary ssh.PublicKey) (read_file : Text → Option Text)
    (parse_duration : Text → Option ℕ) (flags : Flags) where
  -- What a start makes of what it has read.
  abbrev configured : Keys ssh keys read_file parse_duration → Result (Config ssh keys read_file)
  configured read = database_settings ssh keys read_file flags read.4 >>= λ database. ok (record {
    database = database;
    auth = record {
      ca_public_keys = read.0;
      peer_ca_public_keys = read.3;
      node_id = flags.node_id;
    };
    gateway = gateway_settings ssh keys read_file flags read.1 read.4;
    idle_timeout = read.2;
  })

  -- The settings are made of the keys that are read before the listeners are opened, and of the
  -- settings of the database that are read behind that, with the same error where one of them fails.
  pub configure-read_keys :
      configure ssh keys read_file parse_duration flags
      ≡ (read_keys ssh keys read_file parse_duration flags >>= configured)
  unfolding configure read_keys
  configure-read_keys =
      step_agree
        (or_error ssh keys read_file (parse_public_keys ssh keys read_file flags.ca_public_key)) _ _
        configured
        (λ ca_public_keys.
          step_agree (parse_host_signer ssh keys read_file flags) _ _ configured (λ host_signer.
            step_agree (or_fail ssh keys read_file (parse_duration flags.idle_timeout)) _ _
              configured
              (λ idle_timeout.
                step_agree (peer_authorities ssh keys read_file flags) _ _ configured
                  (λ peer_ca_public_keys.
                    step_agree (parse_node_signer ssh keys read_file flags) _ _ configured
                      (λ node_signer. refl)))))
