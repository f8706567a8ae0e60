-- ===== src/Startup/Keys.antt =====
-- cli/flags.go, parsePublicKeys: the loop over the keys of a file ends.
use gatewaysshd.Common.{
  ℕ, zero, suc, ◌≤◌, ◌<◌, ◌≡◌, ◌≢◌, refl, [], ◌∷◌, Option, none, some, Text, length, arith,
  Option-cases, inl, inr,
}
use gatewaysshd.Auth.Ssh.{SshLibrary}
use gatewaysshd.Startup.{KeyLibrary, Parsed, parsed, failed, out_of_fuel, prepend, parse_keys}

module _ (ssh : SshLibrary) (keys : KeyLibrary ssh.PublicKey) (read_file : Text → Option Text) where
  open ssh use {PublicKey}
  open keys use {parse_authorized_key}

  -- The loop as it is written, without fuel: it reads one key after another to the end of the text,
  -- or fails at the first one that is none.
  pub data Reads : Text → Parsed PublicKey → Type 0 where
    ends : Reads [] (parsed [])
    fails : (c : ℕ) (raw : Text) → parse_authorized_key (c ∷ raw) ≡ none → Reads (c ∷ raw) failed
    goes_on :
        (c : ℕ) (raw rest : Text) (key : PublicKey) (result : Parsed PublicKey)
        → parse_authorized_key (c ∷ raw) ≡ some (key, rest)
        → Reads rest result
        → Reads (c ∷ raw) (prepend key result)

  -- What is behind a key is shorter than the text.
  abbrev pub Shrinks : Type 0
  Shrinks =
      (raw rest : Text) (key : PublicKey)
      → parse_authorized_key raw ≡ some (key, rest)
      → length rest < length raw

  prepend-ne-out_of_fuel :
      (key : PublicKey) (result : Parsed PublicKey)
      → result ≢ out_of_fuel
      → prepend key result ≢ out_of_fuel
  prepend-ne-out_of_fuel key (parsed ks) h e = cc
  prepend-ne-out_of_fuel key failed h e = cc
  prepend-ne-out_of_fuel key out_of_fuel h e = h refl

  -- If what is behind a key is always shorter than the text, then the loop of parsePublicKeys ends
  -- within as many rounds as the text has bytes: with that much fuel or more it does not run out,
  -- and its result is that of the loop without fuel.
  pub parse_keys_terminates :
      (fuel : ℕ) (raw : Text)
      → Shrinks
      → length raw ≤ fuel
      → Reads raw (parse_keys ssh keys read_file fuel raw)
        × (parse_keys ssh keys read_file fuel raw ≢ out_of_fuel)
  unfolding parse_keys
  parse_keys_terminates fuel [] shrinks enough = (ends, (λ e. cc))
  parse_keys_terminates zero (c ∷ raw) shrinks enough = absurd (ground arith)
  parse_keys_terminates (suc fuel) (c ∷ raw) shrinks enough =
      elim (Option-cases (parse_authorized_key (c ∷ raw))) [
        | inl none_left ↦ rw (none_left, parse_keys) (fails c raw none_left, (λ e. cc))
        | inr ((key, rest), found) ↦
            let (reads, ended) =
              parse_keys_terminates fuel rest shrinks
                (let shorter = shrinks (c ∷ raw) rest key found in ground arith) in
            rw (found, parse_keys)
              (
                goes_on c raw rest key (parse_keys ssh keys read_file fuel rest) found reads,
                prepend-ne-out_of_fuel key (parse_keys ssh keys read_file fuel rest) ended,
              )
      ]
