-- ===== src/Contract/Tests.antt =====
-- The contract on concrete inputs: a small chain and contracts with one or two nodes.
pub mod Registry
pub mod Committee
pub mod Epoch
use seda_rust.Base.{
  ℕ, ◌+◌, ◌*◌, ◌-◌, contains, ◌≤◌, ◌≡◌, ◌≢◌, refl, arith, true, false, none, some, List, [], ◌∷◌,
  string_eq, bytes_eq, put, get_elem?, unwrap_or, add_u128, sub_u128, add_u64, sub_u64, mul_u128,
  u128_mod, to_le_bytes, length, ◌↔◌, ◌==◌, nat_eq, if◌then◌else◌,
}
use seda_rust.Contract.Collections.{
  NoDup, empty, insert, erase, erase-IsRemoval, empty-IsKeyed, insert-IsKeyed, IsKeyed,
}
use seda_rust.Contract.State.{Env, World, Node, MainchainContract, AccountId}
use seda_rust.Contract.Results.{ok, panic, attempt, unwrap_none, not_enough_balance}
use seda_rust.Contract.Storage.{
  settle, manage_storage_deposit, manage_world, storage_cost, require_storage_deposit,
  refund_storage_deposit,
}
use seda_rust.Contract.Token.{set_account, mint, burn}
use seda_rust.Contract.Clock.{get_current_epoch, get_current_slot}
use seda_rust.Contract.Verify.{bn254_verify}
use seda_rust.Contract.Registry.{
  internal_get_node, get_expect_node_by_ed25519_public_key, handle_node_balance_update,
  deposit_body, deposit, request_withdraw_body, request_withdraw, withdraw_body, withdraw,
  register_node_body, register_node, unregister_node_body, unregister_node,
}
use seda_rust.Contract.Registry.Lookup.{get_node-handle_node_balance_update}
use seda_rust.Contract.Registry.Effects.{deposit-Moved, withdraw-deposit, Moved}
use seda_rust.Contract.Registry.Checks.{withdraw_iff, CanWithdraw}
use seda_rust.Contract.Registry.Defects.{deposit_forgets, deposit_overdraft, register_again_resets}
use seda_rust.Contract.Committee.{
  draw, reroll, fill_seats, select_committee, get_current_slot_leader,
}
use seda_rust.Contract.Committee.Selection.{select_committee_sound}
use seda_rust.Contract.Epoch.{
  process_epoch, process_epoch_body, activate, activate_all, eligible_nodes, after_activation,
  bootstrap, select_ahead, store_committee,
}
use seda_rust.Contract.Epoch.Progress.{
  Advanced, process_epoch-Advanced, unregister_stops_epochs, process_epoch_once,
}
use seda_rust.Contract.Batches.{
  post_signed_batch, post_batch_body, check_leader, check_signers, aggregate_signers, add_signers,
  signer_point, store_batch, get_latest_batch_id,
}
use seda_rust.Contract.Batches.Posting.{Posted, post_signed_batch-Posted}
use seda_rust.Contract.DataRequests.{internal_compute_merkle_root}
use seda_rust.Contract.Merkle.{merklize, merge_levels, next_power_of_two}
use seda_rust.Contract.Calls.{Call, registers, deposits, processes_epoch, run}
use seda_rust.Contract.Consistency.{IsConsistent}
use seda_rust.Contract.Consistency.Calls.{run-IsConsistent}

abbrev pub blank : MainchainContract
blank = record {
  token = record { accounts = put (λ id. none) "alice" 500 };
  dao = "dao";
  config = record {
    minimum_stake = 100;
    epoch_delay_for_election = 2;
    committee_size = 1;
    withdraw_delay = 2;
  };
  active_nodes = empty;
  inactive_nodes = empty;
  pending_nodes = empty;
  committees = λ epoch. none;
  data_request_accumulator = [];
  num_batches = 0;
  batch_ids_by_height = λ height. none;
  batch_by_id = λ id. none;
  last_total_balance = 0;
  nodes_by_bn254_public_key = λ key. none;
  nodes_by_ed25519_public_key = λ key. none;
  depositors = λ id. none;
  withdraw_requests = λ key. none;
  random_seed = 0;
  bootstrapping_phase = true;
  last_processed_epoch = 0;
  last_generated_random_number = 7;
}

-- A block of the epoch `epoch`, with a call of `alice` that pays for up to 1000 bytes.
abbrev pub at_epoch : ℕ → Env
at_epoch epoch = record {
  signer_account_id = "alice";
  signer_account_pk = 2 ∷ [];
  block_height = epoch * 320;
  attached_deposit = 1000;
  storage_byte_cost = 1;
  reroll_limit = 8;
  storage_usage = λ c. 100;
  reorder = erase;
  sha256 = λ bytes. unwrap_or (get_elem? bytes 32) 0;
  hash_text = λ text. 0;
  hash_pair = λ a b. a + b;
  hash_batch = λ batch. batch.prev_root + 1;
  hash_bytes = λ hash. hash ∷ [];
  account_bytes = λ id. [];
  format_pairing = λ message signature key. some message;
  alt_bn128_pairing_check = λ vals. 1;
  from_uncompressed = λ bytes. some (length bytes);
  add_points = λ a b. a + b;
  to_uncompressed = λ point. some (point ∷ []);
}

abbrev pub key : List ℕ
key = 2 ∷ []

abbrev pub node_of : ℕ → Node
node_of balance = record {
  multi_addr = "/ip4/1.2.3.4";
  balance = balance;
  bn254_public_key = 1 ∷ [];
  ed25519_public_key = key;
}

-- A contract where `alice` has a node with some stake, and tokens.
abbrev pub with_node : ℕ → ℕ → MainchainContract
with_node tokens balance = record blank {
  token = record { accounts = put (λ id. none) "alice" tokens };
  inactive_nodes = insert empty "alice" (node_of balance);
  nodes_by_ed25519_public_key = put (λ k. none) key "alice";
  nodes_by_bn254_public_key = put (λ k. none) (1 ∷ []) "alice";
  last_total_balance = balance;
}

abbrev pub world_of : MainchainContract → World
world_of c = record { contract = c; transfers = [] }

abbrev pub two_active : ℕ → MainchainContract
two_active size = record blank {
  config = record blank.config { committee_size = size };
  active_nodes = insert (insert empty "alice" (node_of 150)) "bob" (node_of 120);
}

abbrev pub one_active : MainchainContract
one_active = record blank { active_nodes = insert empty "alice" (node_of 150) }
