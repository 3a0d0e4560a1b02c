-- ===== src/Config/App.antt =====
-- config/src/config.rs: the configuration file. toml is a library; of the files, the texts are kept.
pub mod Fresh
use seda_rust.Base.{
  ℕ, ◌^◌, Bool, true, false, Option, none, some, String, if◌then◌else◌, put, string_eq, unwrap_or,
}
use seda_rust.Config.System.{
  System, Files, Result, ok, err, panic, ConfigError, config_io_error, invalid_toml_config, Run,
  bind, ◌>>=◌, ◌>>◌, lift, pure, fail, ok_or, unwrap, and_then, env_overwrite, parse_unsigned,
}
use seda_rust.Config.Chains
use seda_rust.Config.Chains.{PartialChainConfigs}
use seda_rust.Config.Logger
use seda_rust.Config.Logger.{PartialLoggerConfig}
use seda_rust.Config.Node
use seda_rust.Config.Node.{PartialNodeConfig}
use seda_rust.Config.P2P
use seda_rust.Config.P2P.{PartialP2PConfig}

pub record PartialAppConfig : Type 0 where
  pub seda_server_address : String
  pub seda_server_port : ℕ
  pub chains : PartialChainConfigs
  pub node : PartialNodeConfig
  pub logging : PartialLoggerConfig
  pub p2p : PartialP2PConfig

pub record Toml : Type 0 where
  pub from_str : String → Option PartialAppConfig
  pub to_string_pretty : PartialAppConfig → Option String

unfoldable pub template : System → PartialAppConfig
unfolding Chains.template Logger.template P2P.template
template sys = record {
  seda_server_address = "127.0.0.1";
  seda_server_port = 12345;
  chains = Chains.template;
  node = Node.template;
  logging = Logger.template sys;
  p2p = P2P.template;
}

-- A port that is no number panics.
unfoldable pub overwrite_from_env : System → PartialAppConfig → Result PartialAppConfig
unfolding env_overwrite Chains.overwrite_from_env Node.overwrite_from_env Logger.overwrite_from_env
overwrite_from_env sys self =
    and_then
      (env_overwrite sys (ok self.seda_server_port) "SEDA_SERVER_PORT"
        (λ p. unwrap (parse_unsigned (2 ^ 64) p)))
      λ port. ok (record self {
        seda_server_address =
            env_overwrite sys self.seda_server_address "SEDA_SERVER_ADDRESS" (λ var. var);
        seda_server_port = port;
        chains = Chains.overwrite_from_env sys self.chains;
        node = Node.overwrite_from_env sys self.node;
        logging = Logger.overwrite_from_env sys self.logging;
      })

-- `write_all` from the start of a file that holds `old`: what is longer in it stays. A character is
-- taken to be one byte, as those of the template are.
unfoldable pub write_over : String → String → String
write_over String.[] old = old
write_over (String.◌∷◌ c content) String.[] = String.◌∷◌ c content
write_over (String.◌∷◌ c content) (String.◌∷◌ d old) = String.◌∷◌ c (write_over content old)

module _ (toml : Toml) (sys : System) where
  unfoldable pub from_read : String → Result PartialAppConfig
  unfolding overwrite_from_env
  from_read content =
      and_then (ok_or (toml.from_str content) invalid_toml_config) (overwrite_from_env sys)

  unfoldable pub read_from_path : String → Run PartialAppConfig
  unfolding from_read
  read_from_path path files = elim (files path) [
    | none ↦ fail config_io_error files
    | some content ↦
        if sys.readable path then lift (from_read content) files else fail config_io_error files
  ]

  unfoldable pub write_template : Result String
  unfolding template
  write_template = ok_or (toml.to_string_pretty (template sys)) invalid_toml_config

  -- The file is opened, or made, and then written from its start, without being cut off before; making
  -- its directory is part of what `writable` says.
  unfoldable pub create_template_from_path : String → Run (Unit {0})
  unfolding write_template write_over
  create_template_from_path path files =
      let old = unwrap_or (files path) "" in
      if sys.writable path
      then bind (lift write_template (put files path old))
          (λ content made. (ok tt, put made path (write_over content old)))
      else fail config_io_error files
