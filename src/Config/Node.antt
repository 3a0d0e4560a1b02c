-- ===== src/Config/Node.antt =====
-- config/src/configs/node.rs: a node's own options.
pub mod Restart
pub mod Forgets
use seda_rust.Base.{
  ℕ, ◌*◌, ◌^◌, Bool, true, false, Option, none, some, List, [], ◌∷◌, String, is_some, if◌then◌else◌,
}
use seda_rust.Config.System.{
  System, Files, Result, ok, err, panic, ConfigError, must_provide_field, unwanted_config, Run,
  bind, ◌>>=◌, ◌>>◌, lift, pure, fail, unwrap, and_then, merge_config_cli, merge_option,
  env_overwrite, parse_unsigned,
}
use seda_rust.Config.Keys.{
  Libraries, MasterKey, KeyPair, try_from, read_from_path, write_to_path, derive_bn254,
  derive_ed25519,
}

pub record PartialNodeConfig : Type 0 where
  pub deposit : Option String
  pub gas : Option ℕ
  pub master_key : Option String
  pub seda_sk_file_path : Option String
  pub contract_account_id : Option String
  pub job_manager_interval_ms : Option ℕ
  pub runtime_worker_threads : Option ℕ
  pub consensus_wasm_path : Option String

pub record NodeConfig : Type 0 where
  pub deposit : ℕ
  pub gas : ℕ
  pub keypair_bn254 : KeyPair
  pub keypair_ed25519 : KeyPair
  pub contract_account_id : String
  pub job_manager_interval_ms : ℕ
  pub runtime_worker_threads : ℕ
  pub consensus_wasm_path : String

abbrev pub default_deposit : ℕ
default_deposit = 87 * 10 ^ 19

abbrev pub default_gas : ℕ
default_gas = 300000000000000

abbrev pub default_job_manager_interval_ms : ℕ
default_job_manager_interval_ms = 10

abbrev pub default_runtime_worker_threads : ℕ
default_runtime_worker_threads = 2

abbrev pub seda_secret_key_path : String
seda_secret_key_path = "./seda_secret_key"

-- `Default`, and the template for a new file
abbrev pub template : PartialNodeConfig
template = record {
  deposit = none;
  gas = none;
  master_key = none;
  seda_sk_file_path = none;
  contract_account_id = none;
  job_manager_interval_ms = none;
  runtime_worker_threads = none;
  consensus_wasm_path = none;
}

unfoldable pub overwrite_from_env : System → PartialNodeConfig → PartialNodeConfig
unfolding env_overwrite
overwrite_from_env sys config = record config {
  master_key = env_overwrite sys config.master_key "SEDA_SECRET_KEY" some;
}

module _ (l : Libraries) (sys : System) where
  -- The key that is given, that of the file, or a new one, which is written to the default path.
  unfoldable pub load_master_key : Option String → String → Run MasterKey
  load_master_key (some key) path files = lift (try_from l key) files
  load_master_key none path files =
      if is_some (files path)
      then read_from_path l sys path files
      else bind (write_to_path l sys (record { seed = sys.random }) seda_secret_key_path files)
          λ u. pure (record { seed = sys.random })

  unfoldable pub get_node_public_key : PartialNodeConfig → Run (List ℕ)
  unfolding merge_config_cli merge_option load_master_key
  get_node_public_key self = do
    path ← lift (merge_config_cli self.seda_sk_file_path none (ok seda_secret_key_path) ok)
    master_key ← load_master_key (merge_option self.master_key none) path
    keypair ← lift (derive_ed25519 l master_key 0)
    pure keypair.public_key

  -- The rest of `to_config`, which does not touch the files.
  unfoldable pub with_keys :
      PartialNodeConfig → PartialNodeConfig → ℕ → ℕ → MasterKey → Result NodeConfig
  unfolding merge_config_cli
  with_keys self cli_options deposit gas master_key =
      and_then (derive_ed25519 l master_key 0) λ keypair_ed25519.
        and_then (derive_bn254 l master_key 0) λ keypair_bn254.
          and_then
            (merge_config_cli self.contract_account_id cli_options.contract_account_id
              (err (must_provide_field "node.contract_account_id")) ok)
            λ contract_account_id.
              and_then
                (merge_config_cli self.job_manager_interval_ms cli_options.job_manager_interval_ms
                  (ok default_job_manager_interval_ms) ok)
                λ job_manager_interval_ms.
                  and_then
                    (merge_config_cli self.runtime_worker_threads cli_options.runtime_worker_threads
                      (ok default_runtime_worker_threads) ok)
                    λ runtime_worker_threads.
                      and_then
                        (merge_config_cli self.consensus_wasm_path cli_options.consensus_wasm_path
                          (ok sys.consensus_wasm_path) ok)
                        λ consensus_wasm_path.
                          if is_some (sys.env_var "ACCOUNT_SECRET_KEY")
                          then err (unwanted_config "ACCOUNT_SECRET_KEY")
                          else ok (record {
                            deposit = deposit;
                            gas = gas;
                            keypair_bn254 = keypair_bn254;
                            keypair_ed25519 = keypair_ed25519;
                            contract_account_id = contract_account_id;
                            job_manager_interval_ms = job_manager_interval_ms;
                            runtime_worker_threads = runtime_worker_threads;
                            consensus_wasm_path = consensus_wasm_path;
                          })

  unfoldable pub to_config : PartialNodeConfig → PartialNodeConfig → Run NodeConfig
  unfolding merge_config_cli merge_option load_master_key with_keys
  to_config self cli_options = do
    deposit ← lift (
        merge_config_cli self.deposit cli_options.deposit (ok default_deposit)
          (λ f. unwrap (parse_unsigned (2 ^ 128) f)))
    gas ← lift (merge_config_cli self.gas cli_options.gas (ok default_gas) ok)
    path ← lift (
        merge_config_cli self.seda_sk_file_path cli_options.seda_sk_file_path
          (ok seda_secret_key_path) ok)
    master_key ← load_master_key (merge_option self.master_key cli_options.master_key) path
    lift (with_keys self cli_options deposit gas master_key)
