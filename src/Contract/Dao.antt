-- ===== src/Contract/Dao.antt =====
-- contracts/src/dao.rs and consts.rs: the configuration, which the DAO's account may change.
pub mod History
use seda_rust.Base.{ℕ, ◌%◌, ◌==◌, string_eq, u64_mod}
use seda_rust.Contract.State.{
  Env, AccountId, Config, UpdateConfig, minimum_stake, epoch_delay_for_election, MainchainContract,
}
use seda_rust.Contract.Results.{Result, ok, only_dao, assert, ◌>>◌}

abbrev pub init_minimum_stake : ℕ
init_minimum_stake = 100_000_000_000_000_000_000_000_000

abbrev pub init_epoch_delay_for_election : ℕ
init_epoch_delay_for_election = 2

abbrev pub default_committee_size : ℕ
default_committee_size = 2

abbrev pub slots_per_epoch : ℕ
slots_per_epoch = 32

abbrev pub near_blocks_per_seda_slot : ℕ
near_blocks_per_seda_slot = 10

abbrev pub epoch_committees_lookahead : ℕ
epoch_committees_lookahead = 2

unfoldable pub default_config : Config
default_config = record {
  minimum_stake = init_minimum_stake;
  epoch_delay_for_election = init_epoch_delay_for_election;
  committee_size = default_committee_size;
  withdraw_delay = init_epoch_delay_for_election;
}

unfoldable pub assert_dao : AccountId → MainchainContract → Result (Unit {0})
assert_dao account_id c = assert (account_id == c.dao) only_dao

unfoldable pub get_config : MainchainContract → Config
get_config c = c.config

abbrev pub set_config : UpdateConfig → ℕ → Config → Config
set_config minimum_stake value config = record config { minimum_stake = value }
set_config epoch_delay_for_election value config = record config {
  epoch_delay_for_election = value % u64_mod;
}

unfoldable pub update_config : Env → UpdateConfig → ℕ → MainchainContract → Result MainchainContract
unfolding assert_dao
update_config env key value c = do
  assert_dao env.signer_account_id c
  ok (record c { config = set_config key value c.config })
