-- ===== src/Config/Tests.antt =====
-- The options of a node on concrete inputs, with an encoding of bytes that counts.
use Prim.Native.Char.{char, code}
use seda_rust.Base.{
  ℕ, zero, suc, ◌+◌, ◌≡◌, refl, arith, true, false, Option, none, some, List, [], ◌∷◌, String, eqb,
  if◌then◌else◌, put, string_eq, ◌⊎◌, inl, inr, is_some,
}
use seda_rust.Config.System.{
  System, Files, bind, lift, and_then, ok, merge_config_cli, merge_option, parse_unsigned,
  parse_digits,
}
use seda_rust.Config.Keys.{Libraries, KeyPair, write_to_path, derive, derive_bn254, derive_ed25519}
use seda_rust.Config.Node.{
  PartialNodeConfig, NodeConfig, template, default_gas, seda_secret_key_path, load_master_key,
  with_keys, to_config, default_job_manager_interval_ms, default_runtime_worker_threads,
}
use seda_rust.Config.P2P
use seda_rust.Config.P2P.{PartialP2PConfig}
use seda_rust.Config.App
use seda_rust.Config.App.{
  Toml, create_template_from_path, write_template, read_from_path, overwrite_from_env,
}
use seda_rust.Config.App.Fresh.{create-read_from_path}
use seda_rust.Config.Node.Restart.{later, IsHex, to_config-again}
use seda_rust.Config.Node.Forgets.{MadeFrom, to_config-forgets}

-- A number as that many letters, and the end of it.
abbrev write_number : ℕ → String → String
write_number zero rest = String.◌∷◌ (char 98 tt) rest
write_number (suc n) rest = String.◌∷◌ (char 97 tt) (write_number n rest)

abbrev encode : List ℕ → String
encode [] = ""
encode (n ∷ bytes) = write_number n (encode bytes)

abbrev prepend : ℕ → Option (List ℕ) → Option (List ℕ)
prepend n none = none
prepend n (some bytes) = some (n ∷ bytes)

decode_from : ℕ → String → Option (List ℕ)
decode_from n String.[] = some []
decode_from n (String.◌∷◌ c s) =
    if eqb (code c) 97 then decode_from (suc n) s else prepend n (decode_from 0 s)

decode-write_number :
    (n m : ℕ) (rest : String)
    → decode_from m (write_number n rest) ≡ prepend (m + n) (decode_from 0 rest)
unfolding decode_from
decode-write_number zero m rest = ground arith
decode-write_number (suc n) m rest = rw (decode-write_number n (suc m) rest) ground arith

decode-encode : (bytes : List ℕ) → decode_from 0 (encode bytes) ≡ some bytes
unfolding decode_from
decode-encode [] = refl
decode-encode (n ∷ bytes) =
    rw (decode-write_number n 0 (encode bytes), decode-encode bytes) ground arith

abbrev libraries : Libraries
libraries = record {
  hex_encode = encode;
  hex_decode = decode_from 0;
  derive_key = λ key purpose n. some key;
  bn254_private_key = some;
  bn254_public_key = λ key. key;
  ed25519_private_key = some;
  ed25519_public_key = λ key. key;
}

abbrev seed_of : ℕ → List ℕ
seed_of n =
    n ∷ 0 ∷ 0 ∷ 0 ∷ 0 ∷ 0 ∷ 0 ∷ 0 ∷ 0 ∷ 0 ∷ 0 ∷ 0 ∷ 0 ∷ 0 ∷ 0 ∷ 0 ∷ 0 ∷ 0 ∷ 0 ∷ 0 ∷ 0 ∷ 0 ∷ 0 ∷ 0
    ∷ 0 ∷ 0 ∷ 0 ∷ 0 ∷ 0 ∷ 0 ∷ 0 ∷ 0 ∷ []

abbrev system : System
system = record {
  env_var = λ name. none;
  current_dir = none;
  readable = λ path. true;
  writable = λ path. true;
  random = seed_of 1;
  consensus_wasm_path = "consensus.wasm";
}

hex : IsHex libraries system
unfolding decode_from
hex = record { decode-encode = decode-encode }

abbrev no_files : Files
no_files path = none

abbrev options : Option String → PartialNodeConfig
options path = record template {
  contract_account_id = some "node";
  seda_sk_file_path = path;
  deposit = some "+12";
}

abbrev keys : ℕ → KeyPair
keys n = record { private_key = seed_of n; public_key = seed_of n }

abbrev config : ℕ → NodeConfig
config n = record {
  deposit = 12;
  gas = default_gas;
  keypair_bn254 = keys n;
  keypair_ed25519 = keys n;
  contract_account_id = "node";
  job_manager_interval_ms = default_job_manager_interval_ms;
  runtime_worker_threads = default_runtime_worker_threads;
  consensus_wasm_path = "consensus.wasm";
}

abbrev with_seed : ℕ → Files → Files
with_seed n files = put files seda_secret_key_path (encode (seed_of n))

starts :
    (path : Option String)
    → (path ≡ none) ⊎ (path ≡ some "key")
    → to_config libraries system (options path) template no_files
      ≡ (ok (config 1), with_seed 1 no_files)
unfolding to_config load_master_key with_keys merge_config_cli merge_option write_to_path derive
    derive_bn254 derive_ed25519 parse_unsigned parse_digits
starts path (inl e) = rw e refl
starts path (inr e) = rw e refl

to_config-again_example :
    to_config libraries (later system (seed_of 2)) (options none) template (with_seed 1 no_files)
    ≡ (ok (config 1), with_seed 1 no_files)
unfolding merge_config_cli
to_config-again_example =
    to_config-again libraries system hex refl refl (options none) template seda_secret_key_path
      (seed_of 2) no_files (config 1) (with_seed 1 no_files) refl (inr (inr refl))
      (starts none (inl refl))

starts_again :
    to_config libraries
      (later system (seed_of 2))
      (options (some "key"))
      template
      (with_seed 1 no_files)
    ≡ (ok (config 2), with_seed 2 (with_seed 1 no_files))
unfolding to_config load_master_key with_keys merge_config_cli merge_option write_to_path derive
    derive_bn254 derive_ed25519 parse_unsigned parse_digits
starts_again = refl

to_config-forgets_example :
    MadeFrom libraries (record { seed = seed_of 1 }) (config 1)
    × MadeFrom libraries (record { seed = seed_of 2 }) (config 2)
    × (with_seed 1 no_files ≡ put no_files seda_secret_key_path (encode (seed_of 1)))
    × (with_seed 2 (with_seed 1 no_files)
        ≡ put (with_seed 1 no_files) seda_secret_key_path (encode (seed_of 2)))
    × (is_some (with_seed 1 no_files "key") ≡ false)
unfolding merge_config_cli merge_option
to_config-forgets_example =
    to_config-forgets libraries system (options (some "key")) template "key" (seed_of 2) no_files
      (config 1) (config 2) (with_seed 1 no_files) (with_seed 2 (with_seed 1 no_files)) refl refl
      refl (λ e. cc) (starts (some "key") (inr refl)) starts_again

abbrev toml : Toml
toml = record {
  from_str = λ content. some (App.template system);
  to_string_pretty = λ config. some "toml";
}

made :
    create_template_from_path toml system "config.toml" no_files
    ≡ (ok tt, put (put no_files "config.toml" "") "config.toml" "toml")
unfolding create_template_from_path write_template App.write_over
made = refl

create-read_from_path_example :
    bind
      (read_from_path toml system "config.toml"
        (put (put no_files "config.toml" "") "config.toml" "toml"))
      (λ c. lift (P2P.to_config c.p2p (record P2P.default { in_peers = some 3 })))
    ≡ (
      and_then
          (overwrite_from_env system (App.template system))
          (λ c. P2P.to_config P2P.default (record P2P.default { in_peers = some 3 })),
      put (put no_files "config.toml" "") "config.toml" "toml",
    )
create-read_from_path_example =
    create-read_from_path toml system "config.toml" (record P2P.default { in_peers = some 3 })
      no_files (put (put no_files "config.toml" "") "config.toml" "toml") (λ content shown. refl)
      refl refl made
