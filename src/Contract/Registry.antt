-- ===== src/Contract/Registry.antt =====
-- contracts/src/node_registry.rs: the nodes, their stake and its withdrawal.
pub mod Lookup
pub mod Stake
pub mod Effects
pub mod Checks
pub mod Defects
use seda_rust.Base.{
  ℕ, not, Option, none, some, String, leb, ltb, eqb, ◌==◌, put, delete, is_some, unwrap_or,
  if◌then◌else◌, add_u128, sub_u128, add_u64, string_eq, bytes_eq,
}
use seda_rust.Contract.Collections.{empty, insert, remove}
use seda_rust.Contract.State.{
  Env, World, AccountId, Bytes, Node, WithdrawRequest, RequestWithdrawResult, UpdateNode,
  set_socket_address, MainchainContract,
}
use seda_rust.Contract.Results.{
  Result, ok, node_does_not_exist, unwrap_none, bn254_public_key_exists, ed25519_public_key_exists,
  invalid_signature, invalid_ed25519_public_key, balance_not_zero, amount_not_positive,
  not_enough_balance, no_deposit_for_account, no_deposit_for_node, withdrawal_pending,
  no_withdrawal_request, epochs_remain, assert, expect, ◌>>=◌, ◌>>◌,
}
use seda_rust.Contract.Storage.{manage_storage_deposit, require, refund, either}
use seda_rust.Contract.Token.{mint, burn}
use seda_rust.Contract.Clock.{get_current_epoch}
use seda_rust.Contract.Verify.{bn254_verify}

abbrev first_some : Option Node → Option Node → Option Node
first_some (some node) other = some node
first_some none other = other

unfoldable pub internal_get_node : AccountId → MainchainContract → Option Node
internal_get_node account_id c =
    first_some (c.active_nodes.entry account_id) (c.inactive_nodes.entry account_id)

unfoldable pub get_expect_node : AccountId → MainchainContract → Result Node
get_expect_node account_id c = expect (internal_get_node account_id c) node_does_not_exist

unfoldable pub get_expect_node_by_ed25519_public_key : Bytes → MainchainContract → Result Node
unfolding get_expect_node
get_expect_node_by_ed25519_public_key key c = do
  account_id ← expect (c.nodes_by_ed25519_public_key key) node_does_not_exist
  expect (internal_get_node account_id c) node_does_not_exist

unfoldable pub handle_node_balance_update :
    Env → AccountId → Node → MainchainContract → MainchainContract
handle_node_balance_update env account_id node c =
    if leb c.config.minimum_stake node.balance
    then (if is_some (c.active_nodes.entry account_id)
        then record c { active_nodes = insert c.active_nodes account_id node }
        else record c {
          inactive_nodes = insert c.inactive_nodes account_id node;
          pending_nodes =
              insert c.pending_nodes account_id
                (add_u64 (get_current_epoch env) c.config.epoch_delay_for_election);
        })
    else if is_some (c.active_nodes.entry account_id)
    then record c {
      active_nodes = remove env.reorder c.active_nodes account_id;
      inactive_nodes = insert c.inactive_nodes account_id node;
    }
    else record c { inactive_nodes = insert c.inactive_nodes account_id node }

-- The body of `internal_deposit`.
unfoldable pub deposit_body : Env → ℕ → Bytes → MainchainContract → Result MainchainContract
deposit_body env amount key c = do
  burnt ← burn env.signer_account_id amount c
  node ← get_expect_node_by_ed25519_public_key key burnt
  let node' = record node { balance = add_u128 node.balance amount }
  node_account_id ← expect (burnt.nodes_by_ed25519_public_key key) unwrap_none
  let staked = handle_node_balance_update env node_account_id node' burnt
  let depositor = unwrap_or (staked.depositors env.signer_account_id) empty
  ok (record staked {
    depositors = put staked.depositors env.signer_account_id (insert depositor key amount);
    last_total_balance = add_u128 staked.last_total_balance amount;
  })

unfoldable pub deposit : Env → ℕ → Bytes → World → Result World
deposit env amount key = manage_storage_deposit require env (deposit_body env amount key)

unfoldable pub request_withdraw_body :
    Env → ℕ → Bytes → MainchainContract → Result MainchainContract
request_withdraw_body env amount key c = do
  assert (ltb 0 amount) amount_not_positive
  node ← get_expect_node_by_ed25519_public_key key c
  assert (leb amount node.balance) not_enough_balance
  depositor ← expect (c.depositors env.signer_account_id) no_deposit_for_account
  deposited ← expect (depositor.entry key) no_deposit_for_node
  assert (leb amount deposited) not_enough_balance
  let requests = unwrap_or (c.withdraw_requests key) (λ account_id. none)
  assert (not (is_some (requests env.signer_account_id))) withdrawal_pending
  node_account_id ← expect (c.nodes_by_ed25519_public_key key) unwrap_none
  let pending_withdraw : WithdrawRequest = record {
    amount = amount;
    epoch = add_u64 (get_current_epoch env) c.config.withdraw_delay;
  }
  ok (record c {
    withdraw_requests =
        put c.withdraw_requests key (put requests env.signer_account_id pending_withdraw);
  })

unfoldable pub request_withdraw : Env → ℕ → Bytes → World → Result (RequestWithdrawResult × World)
request_withdraw env amount key w = do
  w' ← manage_storage_deposit require env (request_withdraw_body env amount key) w
  ok (
    record {
      current_epoch = get_current_epoch env;
      withdraw_epoch = add_u64 w'.contract.config.withdraw_delay (get_current_epoch env);
    },
    w',
  )

unfoldable pub cancel_withdraw_request_body :
    Env → Bytes → MainchainContract → Result MainchainContract
cancel_withdraw_request_body env key c = do
  let requests = unwrap_or (c.withdraw_requests key) (λ account_id. none)
  node_account_id ← expect (c.nodes_by_ed25519_public_key key) unwrap_none
  ok (record c {
    withdraw_requests = put c.withdraw_requests key (delete requests env.signer_account_id);
  })

unfoldable pub cancel_withdraw_request : Env → Bytes → World → Result World
cancel_withdraw_request env key =
    manage_storage_deposit either env (cancel_withdraw_request_body env key)

-- The body of `internal_withdraw`.
unfoldable pub withdraw_body : Env → ℕ → Bytes → MainchainContract → Result MainchainContract
withdraw_body env amount key c = do
  assert (ltb 0 amount) amount_not_positive
  node ← get_expect_node_by_ed25519_public_key key c
  assert (leb amount node.balance) not_enough_balance
  depositor ← expect (c.depositors env.signer_account_id) no_deposit_for_account
  deposited ← expect (depositor.entry key) no_deposit_for_node
  assert (leb amount deposited) not_enough_balance
  let requests = unwrap_or (c.withdraw_requests key) (λ account_id. none)
  withdraw_request ← expect (requests env.signer_account_id) no_withdrawal_request
  assert (leb withdraw_request.epoch (get_current_epoch env)) epochs_remain
  minted ← mint env.signer_account_id amount c
  let node' = record node { balance = sub_u128 node.balance amount }
  node_account_id ← expect (minted.nodes_by_ed25519_public_key key) unwrap_none
  let unstaked = handle_node_balance_update env node_account_id node' minted
  ok (record unstaked {
    depositors =
        put unstaked.depositors env.signer_account_id
          (insert depositor key (sub_u128 deposited amount));
    last_total_balance = sub_u128 unstaked.last_total_balance amount;
    withdraw_requests = put unstaked.withdraw_requests key (delete requests env.signer_account_id);
  })

unfoldable pub withdraw : Env → ℕ → Bytes → World → Result World
withdraw env amount key = manage_storage_deposit either env (withdraw_body env amount key)

-- What `register_node` writes, once its assertions have passed.
unfoldable pub register_node_body : Env → Node → MainchainContract → Result MainchainContract
register_node_body env node c = ok (record c {
  inactive_nodes = insert c.inactive_nodes env.signer_account_id node;
  nodes_by_bn254_public_key =
      put c.nodes_by_bn254_public_key node.bn254_public_key env.signer_account_id;
  nodes_by_ed25519_public_key =
      put c.nodes_by_ed25519_public_key node.ed25519_public_key env.signer_account_id;
})

unfoldable pub register_node : Env → String → Bytes → Bytes → World → Result World
unfolding register_node_body
register_node env multi_addr bn254_public_key signature w = do
  assert (not (is_some (w.contract.nodes_by_bn254_public_key bn254_public_key)))
      bn254_public_key_exists
  assert (not (is_some (w.contract.nodes_by_ed25519_public_key env.signer_account_pk)))
      ed25519_public_key_exists
  valid ← bn254_verify env (env.account_bytes env.signer_account_id) signature bn254_public_key
  assert valid invalid_signature
  let node : Node = record {
    multi_addr = multi_addr;
    balance = 0;
    ed25519_public_key = env.signer_account_pk;
    bn254_public_key = bn254_public_key;
  }
  manage_storage_deposit require env (register_node_body env node) w

unfoldable pub unregister_node_body : Env → Bytes → MainchainContract → Result MainchainContract
unregister_node_body env key c = do
  assert (env.signer_account_pk == key) invalid_ed25519_public_key
  node ← get_expect_node_by_ed25519_public_key key c
  assert (eqb node.balance 0) balance_not_zero
  account_id ← expect (c.nodes_by_ed25519_public_key key) unwrap_none
  ok (record c { inactive_nodes = remove env.reorder c.inactive_nodes account_id })

unfoldable pub unregister_node : Env → Bytes → World → Result World
unregister_node env key = manage_storage_deposit refund env (unregister_node_body env key)

abbrev update : UpdateNode → Node → Node
update (set_socket_address new_multi_addr) node = record node { multi_addr = new_multi_addr }

unfoldable pub update_node_body : AccountId → Node → MainchainContract → Result MainchainContract
update_node_body account_id node c = ok (
    if is_some (c.active_nodes.entry account_id)
    then record c { active_nodes = insert c.active_nodes account_id node }
    else record c { inactive_nodes = insert c.inactive_nodes account_id node })

unfoldable pub update_node : Env → UpdateNode → World → Result World
update_node env command w = do
  node ← get_expect_node env.signer_account_id w.contract
  manage_storage_deposit either env (update_node_body env.signer_account_id (update command node)) w
