-- ===== src/Contract/Tests/Registry.antt =====
-- Stake, withdrawals and registrations of one node, and a short history of calls.
use seda_rust.Base.{
  ℕ, true, false, none, put, ◌+◌, ◌-◌, length, ◌≡◌, refl, arith, some, List, [], ◌∷◌, string_eq,
  bytes_eq, add_u128, sub_u128, add_u64, sub_u64, mul_u128, u128_mod, ◌↔◌, nat_eq,
}
use seda_rust.Contract.Collections.{erase-IsRemoval, IsKeyed, empty-IsKeyed, insert-IsKeyed}
use seda_rust.Contract.State.{
  Env, World, AccountId, MainchainContract, FungibleToken, minimum_stake,
}
use seda_rust.Contract.Results.{Result, ok, panic, attempt, not_enough_balance}
use seda_rust.Contract.Storage.{
  settle, manage_storage_deposit, manage_world, storage_cost, require_storage_deposit,
  refund_storage_deposit,
}
use seda_rust.Contract.Token.{set_account, mint, burn}
use seda_rust.Contract.Clock.{get_current_epoch}
use seda_rust.Contract.Verify.{bn254_verify}
use seda_rust.Contract.Registry.{
  internal_get_node, get_expect_node_by_ed25519_public_key, handle_node_balance_update,
  deposit_body, deposit, request_withdraw_body, request_withdraw, withdraw_body, withdraw,
  register_node,
}
use seda_rust.Contract.Registry.Effects.{deposit-Moved, withdraw-deposit, Moved}
use seda_rust.Contract.Registry.Checks.{withdraw_iff, CanWithdraw, IsCovered, after_withdrawal}
use seda_rust.Contract.Registry.Defects.{
  deposit_forgets, deposit_overdraft, register_again_resets, fresh_node,
}
use seda_rust.Contract.Calls.{Call, registers, deposits, processes_epoch, configures, run}
use seda_rust.Contract.Consistency.{IsConsistent}
use seda_rust.Contract.Consistency.Calls.{created, run-IsConsistent}
use seda_rust.Contract.Init.{new}
use seda_rust.Contract.Dao.History.{SameRules, configures_as, run-SameRules}
use seda_rust.Contract.Views.{internal_get_nodes}
use seda_rust.Contract.Views.Pages.{Page, smaller, internal_get_nodes-Page}
use seda_rust.Contract.Tests.{blank, at_epoch, key, node_of, with_node, world_of, two_active}

abbrev before_deposit : World
before_deposit = world_of (with_node 500 0)

abbrev after_deposit : World
after_deposit = attempt before_deposit (deposit (at_epoch 1) 150 key before_deposit)

deposits_150 : deposit (at_epoch 1) 150 key before_deposit ≡ ok after_deposit
unfolding deposit manage_storage_deposit manage_world settle require_storage_deposit
    refund_storage_deposit storage_cost mul_u128 sub_u64 deposit_body burn set_account
    get_expect_node_by_ed25519_public_key internal_get_node handle_node_balance_update sub_u128
    add_u128 add_u64 get_current_epoch
deposits_150 = refl

deposit-Moved_example :
    Moved "alice" "alice"
      (sub_u128 500 150)
      (record (node_of 0) { balance = add_u128 0 150 })
      (add_u128 0 150)
      before_deposit.contract
      after_deposit.contract
unfolding internal_get_node
deposit-Moved_example =
    deposit-Moved (at_epoch 1) 150 key before_deposit after_deposit 500 "alice" (node_of 0) refl
      refl refl deposits_150

abbrev requested : World
requested = elim (request_withdraw (at_epoch 1) 150 key after_deposit) [
  | ok (answer, w) ↦ w
  | panic p ↦ after_deposit
]

abbrev withdrawn : World
withdrawn = attempt requested (withdraw (at_epoch 3) 150 key requested)

withdraws_150 : withdraw (at_epoch 3) 150 key requested ≡ ok withdrawn
unfolding deposit manage_storage_deposit manage_world settle require_storage_deposit
    refund_storage_deposit storage_cost mul_u128 sub_u64 deposit_body burn set_account
    get_expect_node_by_ed25519_public_key internal_get_node handle_node_balance_update sub_u128
    add_u128 add_u64 get_current_epoch request_withdraw request_withdraw_body withdraw withdraw_body
    mint
withdraws_150 = refl

withdraw-deposit_example :
    (withdrawn.contract.token.accounts "alice" ≡ some 500)
    × (internal_get_node "alice" withdrawn.contract ≡ some (node_of 0))
    × (withdrawn.contract.last_total_balance ≡ 0)
unfolding deposit manage_storage_deposit manage_world settle require_storage_deposit
    refund_storage_deposit storage_cost mul_u128 sub_u64 deposit_body burn set_account
    get_expect_node_by_ed25519_public_key internal_get_node handle_node_balance_update sub_u128
    add_u128 add_u64 get_current_epoch request_withdraw request_withdraw_body
withdraw-deposit_example =
    withdraw-deposit (at_epoch 1) (at_epoch 3) 150 key before_deposit after_deposit requested
      withdrawn 500 "alice" (node_of 0) refl (omega arith) (omega arith) (omega arith) (omega arith)
      refl refl refl deposits_150 refl refl refl refl withdraws_150

withdraw_iff_example : ((w : World) × (withdraw (at_epoch 3) 150 key requested ≡ ok w)) ↔ (
    (d : CanWithdraw (at_epoch 3) 150 key requested.contract) × IsCovered
      (at_epoch 3)
      requested.contract
      (after_withdrawal (at_epoch 3) 150 key requested.contract d))
withdraw_iff_example = withdraw_iff (at_epoch 3) 150 key requested

abbrev deposited_twice : World
deposited_twice = attempt after_deposit (deposit (at_epoch 1) 50 key after_deposit)

deposits_50 : deposit (at_epoch 1) 50 key after_deposit ≡ ok deposited_twice
unfolding deposit manage_storage_deposit manage_world settle require_storage_deposit
    refund_storage_deposit storage_cost mul_u128 sub_u64 deposit_body burn set_account
    get_expect_node_by_ed25519_public_key internal_get_node handle_node_balance_update sub_u128
    add_u128 add_u64 get_current_epoch
deposits_50 = refl

deposit_forgets_example :
    request_withdraw (at_epoch 1) 150 key deposited_twice ≡ panic not_enough_balance
deposit_forgets_example =
    deposit_forgets (at_epoch 1) (at_epoch 1) 50 150 key after_deposit deposited_twice refl
      (omega arith) deposits_50

deposit_overdraft_example :
    (c : MainchainContract) × (deposit_body (at_epoch 1) 150 key (with_node 5 0) ≡ ok c)
    × (c.token.accounts "alice" ≡ some (5 + u128_mod - 150))
unfolding internal_get_node
deposit_overdraft_example =
    deposit_overdraft (at_epoch 1) 150 5 key (with_node 5 0) "alice" (node_of 0) (omega arith)
      (omega arith) refl refl refl

abbrev other_key : Env
other_key = record (at_epoch 1) { signer_account_pk = 9 ∷ [] }

abbrev staked : World
staked = world_of (with_node 500 90)

register_again_resets_example :
    (w : World) × (register_node other_key "/ip4/5.6.7.8" (3 ∷ []) [] staked ≡ ok w)
    × (internal_get_node "alice" staked.contract ≡ some (node_of 90))
    × (internal_get_node "alice" w.contract ≡ some (fresh_node other_key "/ip4/5.6.7.8" (3 ∷ [])))
    × (w.contract.last_total_balance ≡ 90)
unfolding bn254_verify storage_cost mul_u128 sub_u64
register_again_resets_example =
    register_again_resets other_key "/ip4/5.6.7.8" (3 ∷ []) [] staked (node_of 90) refl refl
      (omega arith) refl refl refl (omega arith)

abbrev history : List (Env × Call)
history =
    (at_epoch 0, registers "/ip4/1.2.3.4" (1 ∷ []) [])
    ∷ (at_epoch 1, deposits 150 key)
    ∷ (at_epoch 3, processes_epoch)
    ∷ []

abbrev minting : AccountId → ℕ → FungibleToken → Result FungibleToken
minting id amount token = ok (record token { accounts = put token.accounts id amount })

abbrev launched : Result MainchainContract
launched =
    created false (λ id. true) (ok tt) (record { accounts = λ id. none }) (λ id token. ok token)
      minting "dao" 500 2 7

abbrev fresh : MainchainContract
fresh = elim launched [ ok c ↦ c | panic p ↦ blank ]

launches : launched ≡ ok fresh
unfolding new
launches = refl

run-IsConsistent_example :
    IsConsistent (run history (record { contract = fresh; transfers = [] })).contract
run-IsConsistent_example =
    run-IsConsistent false (λ id. true) (ok tt) (record { accounts = λ id. none })
      (λ id token. ok token) minting "dao" 500 2 7 fresh [] history launches
      (erase-IsRemoval, (erase-IsRemoval, (erase-IsRemoval, tt)))

abbrev outsiders : List (Env × Call)
outsiders = (at_epoch 1, configures minimum_stake 0) ∷ history

run-SameRules_example : SameRules blank (run outsiders (world_of blank)).contract
unfolding configures_as
run-SameRules_example = run-SameRules outsiders (world_of blank) (refl, (refl, (refl, (refl, tt))))

two_active-IsKeyed : IsKeyed (two_active 1).active_nodes
two_active-IsKeyed =
    insert-IsKeyed _ "bob" (node_of 120) (insert-IsKeyed _ "alice" (node_of 150) empty-IsKeyed)

internal_get_nodes-Page_example :
    Page
      (two_active 1).active_nodes
      (internal_get_nodes (two_active 1).active_nodes 5 1)
      (length (two_active 1).active_nodes.keys - 1)
      (smaller 5 (length (two_active 1).active_nodes.keys - 1))
internal_get_nodes-Page_example =
    internal_get_nodes-Page (two_active 1).active_nodes 5 two_active-IsKeyed (omega arith)
      (omega arith) 1 (omega arith)
