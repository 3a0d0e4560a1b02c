-- ===== src/Contract/Init.antt =====
-- contracts/src/lib.rs: the constructor. The token's own constructor, registration and first deposit
-- are near_contract_standards', and so are arguments here.
use seda_rust.Base.{ℕ, Bool, true, none, [], not}
use seda_rust.Contract.Collections.{empty}
use seda_rust.Contract.State.{AccountId, FungibleToken, MainchainContract}
use seda_rust.Contract.Results.{Result, ok, already_initialized, invalid_dao, assert, ◌>>=◌, ◌>>◌}
use seda_rust.Contract.Dao.{default_config}
use seda_rust.Base.{string_eq}

unfoldable pub new :
    (state_exists : Bool) (is_valid_account_id : AccountId → Bool)
    → (assert_metadata : Result (Unit {0})) → (new_token : FungibleToken)
    → (internal_register_account : AccountId → FungibleToken → Result FungibleToken)
    → (internal_deposit : AccountId → ℕ → FungibleToken → Result FungibleToken)
    → (dao : AccountId) (initial_supply committee_size random_seed : ℕ) → Result MainchainContract
unfolding default_config
new state_exists is_valid_account_id assert_metadata new_token internal_register_account
      internal_deposit dao initial_supply committee_size random_seed =
    do
      assert (not state_exists) already_initialized
      assert (is_valid_account_id dao) invalid_dao
      assert_metadata
      registered ← internal_register_account dao new_token
      token ← internal_deposit dao initial_supply registered
      ok (record {
        token = token;
        dao = dao;
        config = record default_config { committee_size = committee_size };
        active_nodes = empty;
        inactive_nodes = empty;
        pending_nodes = empty;
        committees = λ epoch. none;
        data_request_accumulator = [];
        num_batches = 0;
        batch_ids_by_height = λ height. none;
        batch_by_id = λ id. none;
        last_total_balance = 0;
        nodes_by_bn254_public_key = λ key. none;
        nodes_by_ed25519_public_key = λ key. none;
        depositors = λ account_id. none;
        withdraw_requests = λ key. none;
        random_seed = 0;
        bootstrapping_phase = true;
        last_processed_epoch = 0;
        last_generated_random_number = random_seed;
      })
