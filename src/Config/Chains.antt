-- ===== src/Config/Chains.antt =====
-- config/src/configs/main_chain: the options of the chains.
use seda_rust.Base.{Option, none, some, String}
use seda_rust.Config.System.{
  System, Result, ok, err, and_then, must_provide_field, merge_config_cli, env_overwrite,
}

pub record PartialNearConfig : Type 0 where
  pub chain_rpc_url : Option String

pub record NearConfig : Type 0 where
  pub chain_rpc_url : String

pub record PartialAnotherConfig : Type 0 where
  pub chain_rpc_url : Option String

pub record AnotherConfig : Type 0 where
  pub chain_rpc_url : String

pub record PartialChainConfigs : Type 0 where
  pub another : PartialAnotherConfig
  pub near : PartialNearConfig

pub record ChainConfigs : Type 0 where
  pub another : AnotherConfig
  pub near : NearConfig

abbrev pub testnet : String
testnet = "https://rpc.testnet.near.org"

unfoldable pub near_to_config : PartialNearConfig → PartialNearConfig → Result NearConfig
unfolding merge_config_cli
near_to_config self cli_options =
    and_then
      (merge_config_cli self.chain_rpc_url cli_options.chain_rpc_url
        (err (must_provide_field "near.chain_rpc_url")) ok)
      λ chain_rpc_url. ok (record { chain_rpc_url = chain_rpc_url })

unfoldable pub another_to_config : PartialAnotherConfig → AnotherConfig
another_to_config self = record {
  chain_rpc_url = elim self.chain_rpc_url [ none ↦ testnet | some url ↦ url ];
}

unfoldable pub to_config : PartialChainConfigs → PartialChainConfigs → Result ChainConfigs
unfolding near_to_config another_to_config
to_config self cli_options =
    and_then (near_to_config self.near cli_options.near)
      λ near. ok (record { another = another_to_config self.another; near = near })

unfoldable pub template : PartialChainConfigs
template = record {
  another = record { chain_rpc_url = some testnet };
  near = record { chain_rpc_url = some testnet };
}

-- The variable of the environment is read for NEAR only.
unfoldable pub overwrite_from_env : System → PartialChainConfigs → PartialChainConfigs
unfolding env_overwrite
overwrite_from_env sys self = record self {
  near = record {
    chain_rpc_url = env_overwrite sys self.near.chain_rpc_url "SEDA_NEAR_RPC_URL" some;
  };
}
