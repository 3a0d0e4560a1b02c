-- ===== src/Contract/Tests/Epoch.antt =====
-- Epochs that activate a node, and a batch posted by the only member of a committee.
use seda_rust.Base.{
  ℕ, ◌≡◌, refl, arith, false, none, [], ◌∷◌, string_eq, bytes_eq, put, add_u64, sub_u64, mul_u128,
  to_le_bytes, nat_eq,
}
use seda_rust.Contract.Collections.{empty, insert, empty-IsKeyed, insert-IsKeyed, IsKeyed}
use seda_rust.Contract.State.{World, MainchainContract}
use seda_rust.Contract.Results.{ok, panic, attempt, unwrap_none}
use seda_rust.Contract.Storage.{
  settle, manage_storage_deposit, manage_world, storage_cost, require_storage_deposit,
  refund_storage_deposit,
}
use seda_rust.Contract.Clock.{get_current_epoch, get_current_slot}
use seda_rust.Contract.Verify.{bn254_verify}
use seda_rust.Contract.Registry.{
  internal_get_node, get_expect_node_by_ed25519_public_key, unregister_node_body, unregister_node,
}
use seda_rust.Contract.Committee.{
  draw, reroll, fill_seats, select_committee, get_current_slot_leader,
}
use seda_rust.Contract.Epoch.{
  process_epoch, process_epoch_body, activate, activate_all, eligible_nodes, after_activation,
  bootstrap, select_ahead, store_committee,
}
use seda_rust.Contract.Epoch.Progress.{
  Advanced, process_epoch-Advanced, unregister_stops_epochs, process_epoch_once,
}
use seda_rust.Contract.Batches.{
  post_signed_batch, post_batch_body, check_leader, check_signers, aggregate_signers, add_signers,
  signer_point, store_batch, get_latest_batch_id,
}
use seda_rust.Contract.Batches.Posting.{Posted, post_signed_batch-Posted}
use seda_rust.Contract.DataRequests.{internal_compute_merkle_root}
use seda_rust.Contract.Merkle.{merklize, merge_levels, next_power_of_two, sort}
use seda_rust.Contract.Merkle.Levels.{pair_ups}
use seda_rust.Contract.Merkle.Root.{merklize-pair_ups}
use seda_rust.Contract.Tests.{at_epoch, key, with_node, world_of, one_active}

abbrev waiting : MainchainContract
waiting = record (with_node 500 150) { pending_nodes = insert empty "alice" 3 }

waiting-IsKeyed : IsKeyed waiting.pending_nodes
waiting-IsKeyed = insert-IsKeyed empty "alice" 3 empty-IsKeyed

abbrev activated : World
activated = attempt (world_of waiting) (process_epoch (at_epoch 3) (world_of waiting))

processes_3 : process_epoch (at_epoch 3) (world_of waiting) ≡ ok activated
unfolding process_epoch process_epoch_body eligible_nodes activate activate_all after_activation
    bootstrap select_ahead store_committee select_committee fill_seats reroll draw to_le_bytes
    add_u64 get_current_epoch settle refund_storage_deposit storage_cost mul_u128 sub_u64
    require_storage_deposit
processes_3 = refl

process_epoch-Advanced_example : Advanced 3 waiting activated.contract
unfolding get_current_epoch
process_epoch-Advanced_example =
    process_epoch-Advanced (at_epoch 3) (world_of waiting) activated waiting-IsKeyed (omega arith)
      processes_3

abbrev over : World
over = world_of (record waiting { bootstrapping_phase = false })

abbrev processed : World
processed = attempt over (process_epoch (at_epoch 3) over)

processes_over : process_epoch (at_epoch 3) over ≡ ok processed
unfolding process_epoch process_epoch_body eligible_nodes activate activate_all after_activation
    bootstrap select_ahead store_committee select_committee fill_seats reroll draw to_le_bytes
    add_u64 get_current_epoch settle refund_storage_deposit storage_cost mul_u128 sub_u64
    require_storage_deposit
processes_over = refl

process_epoch_once_example : process_epoch (at_epoch 3) processed ≡ ok processed
process_epoch_once_example =
    process_epoch_once (at_epoch 3) (at_epoch 3) over processed refl refl processes_over

abbrev leaving : World
leaving = world_of (record (with_node 500 0) { pending_nodes = insert empty "alice" 3 })

abbrev left : World
left = attempt leaving (unregister_node (at_epoch 1) key leaving)

unregisters_node : unregister_node (at_epoch 1) key leaving ≡ ok left
unfolding unregister_node unregister_node_body get_expect_node_by_ed25519_public_key
    internal_get_node manage_storage_deposit manage_world settle refund_storage_deposit
unregisters_node = refl

unregister_stops_epochs_example : process_epoch (at_epoch 3) left ≡ panic unwrap_none
unfolding get_current_epoch
unregister_stops_epochs_example =
    unregister_stops_epochs (at_epoch 1) (at_epoch 3) key leaving left left "alice" 3
      waiting-IsKeyed refl refl unregisters_node refl refl refl (omega arith) (omega arith)

abbrev leading : World
leading = world_of (record one_active {
  bootstrapping_phase = false;
  last_processed_epoch = 3;
  committees = put (λ epoch. none) 3 ("alice" ∷ []);
  data_request_accumulator = "request" ∷ [];
})

abbrev posted : World
posted =
    attempt leading (post_signed_batch (at_epoch 3) [] (1 ∷ []) ("alice" ∷ []) (5 ∷ []) leading)

posts_batch : post_signed_batch (at_epoch 3) [] (1 ∷ []) ("alice" ∷ []) (5 ∷ []) leading ≡ ok posted
unfolding post_signed_batch post_batch_body check_leader check_signers aggregate_signers add_signers
    signer_point store_batch get_latest_batch_id internal_compute_merkle_root merklize merge_levels
    next_power_of_two get_current_slot_leader process_epoch process_epoch_body get_current_epoch
    get_current_slot bn254_verify draw to_le_bytes add_u64 manage_world settle
    refund_storage_deposit require_storage_deposit storage_cost mul_u128 sub_u64
posts_batch = refl

post_signed_batch-Posted_example :
    Posted (at_epoch 3) [] (1 ∷ []) ("alice" ∷ []) (5 ∷ []) leading posted.contract
post_signed_batch-Posted_example =
    post_signed_batch-Posted (at_epoch 3) [] (1 ∷ []) ("alice" ∷ []) (5 ∷ []) leading posted
      posts_batch

merklize-pair_ups_example :
    (levels : ℕ) × (root : ℕ) × (merklize (at_epoch 1) ("a" ∷ "b" ∷ "c" ∷ []) ≡ ok root)
    × (pair_ups (at_epoch 1) levels (sort (0 ∷ 0 ∷ 0 ∷ [])) ≡ root ∷ [])
merklize-pair_ups_example = merklize-pair_ups (at_epoch 1) "a" ("b" ∷ "c" ∷ [])
