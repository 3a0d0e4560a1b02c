-- ===== src/Config/Delegate.antt =====
-- config/src/configs/delegate.rs: the options of the delegate command line.
use seda_rust.Base.{ℕ, Option, none, some, String}
use seda_rust.Config.System.{
  System, Result, ok, err, and_then, must_provide_field, merge_config_cli, env_overwrite,
}

pub record PartialDelegateConfig : Type 0 where
  pub validator_secret_key : Option String
  pub account_secret_key : Option String
  pub signer_account_id : Option String
  pub delegate_contract_id : Option String
  pub rpc_url : Option String
  pub gas : Option ℕ

pub record DelegateConfig : Type 0 where
  pub account_secret_key : String
  pub validator_master_key : String
  pub signer_account_id : String
  pub delegate_contract_id : String
  pub rpc_url : String
  pub gas : ℕ

abbrev pub gas_of_delegate : ℕ
gas_of_delegate = 300000000000000

unfoldable pub to_config : PartialDelegateConfig → PartialDelegateConfig → Result DelegateConfig
unfolding merge_config_cli
to_config self cli_options =
    and_then
      (merge_config_cli self.validator_secret_key cli_options.validator_secret_key (ok "") ok)
      λ validator_master_key.
        and_then
          (merge_config_cli self.account_secret_key cli_options.account_secret_key
            (err (must_provide_field "node.secret_key")) ok)
          λ account_secret_key.
            and_then
              (merge_config_cli self.signer_account_id cli_options.signer_account_id
                (err (must_provide_field "node.signer_account_id")) ok)
              λ signer_account_id.
                and_then
                  (merge_config_cli self.delegate_contract_id cli_options.delegate_contract_id
                    (ok "") ok)
                  λ delegate_contract_id.
                    and_then
                      (merge_config_cli self.rpc_url cli_options.rpc_url
                        (ok "https://rpc.testnet.near.org") ok)
                      λ rpc_url.
                        and_then (merge_config_cli self.gas cli_options.gas (ok gas_of_delegate) ok)
                          λ gas. ok (record {
                            validator_master_key = validator_master_key;
                            account_secret_key = account_secret_key;
                            signer_account_id = signer_account_id;
                            delegate_contract_id = delegate_contract_id;
                            rpc_url = rpc_url;
                            gas = gas;
                          })

unfoldable pub template : PartialDelegateConfig
template = record {
  validator_secret_key = none;
  delegate_contract_id = none;
  account_secret_key = none;
  signer_account_id = none;
  rpc_url = none;
  gas = some gas_of_delegate;
}

unfoldable pub overwrite_from_env : System → PartialDelegateConfig → PartialDelegateConfig
unfolding env_overwrite
overwrite_from_env sys self = record self {
  validator_secret_key = env_overwrite sys self.validator_secret_key "VALIDATOR_SECRET_KEY" some;
  account_secret_key = env_overwrite sys self.account_secret_key "ACCOUNT_SECRET_KEY" some;
  signer_account_id = env_overwrite sys self.signer_account_id "SIGNER_ACCOUNT_ID" some;
}
