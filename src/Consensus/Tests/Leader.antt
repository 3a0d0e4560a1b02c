-- ===== src/Consensus/Tests/Leader.antt =====
-- A leader's tick that finds a new batch (wasm/consensus/src/tasks/batch.rs).
use seda_rust.Base.{String, ◌≡◌, refl, some, [], ◌∷◌, bytes_eq, nat_eq, string_eq}
use seda_rust.Base.HashMap
use seda_rust.Consensus.Program.{
  Program, returned, BatchSignatureStore, left, new_promise, shared_memory_get, shared_memory_set,
  shared_memory_contains_key, add_to_queue, result,
}
use seda_rust.Consensus.Signatures.{
  batch_signature_store_key, get_or_create_batch_signature_store, new, add_signature,
  add_public_key,
}
use seda_rust.Consensus.BatchTask.{
  bytes_of, sign_batch, save_and_broadcast, process_batch, process_slot_leader, post_if_complete,
  batch_step_1,
}
use seda_rust.Consensus.BatchTask.Own.{saved}
use seda_rust.Consensus.BatchTask.Leader.{Led, shared_bytes}
use seda_rust.Consensus.BatchTask.Stale.{batch_step_1-stale}
use seda_rust.Consensus.Tests.Codec.{to_json, from-to_json}
use seda_rust.Consensus.Tests.{libraries, program, first, batch_of}

-- The leader's tick that finds the batch 8 while the batch 9 is stored.
abbrev other_batch : Program
other_batch = program (8 ∷ 5 ∷ []) first

abbrev after : Program
after = left (batch_step_1 libraries other_batch)

returns : batch_step_1 libraries other_batch ≡ returned tt after
unfolding batch_step_1 shared_memory_get shared_memory_set shared_memory_contains_key result
    bytes_of get_or_create_batch_signature_store process_batch sign_batch new add_signature
    add_public_key HashMap.insert save_and_broadcast add_to_queue process_slot_leader
    post_if_complete new_promise
returns = rw (from-to_json first) refl

-- The signature of batch 9 is posted while batch 8 is stored.
stored_first :
    get_or_create_batch_signature_store libraries batch_signature_store_key other_batch
    ≡ returned first other_batch
unfolding get_or_create_batch_signature_store shared_memory_contains_key shared_memory_get
stored_first = rw (from-to_json first) refl

batch_step_1-stale_example :
    (contract_id : String) × (signed : BatchSignatureStore) × (libraries.from_utf8
        (shared_bytes other_batch "contract_id")
      ≡ some contract_id)
    × (signed.batch_header ≡ 8 ∷ [])
    × Led libraries first contract_id (saved libraries signed other_batch) after
    × (after.shared_memory batch_signature_store_key ≡ some (to_json signed))
batch_step_1-stale_example =
    batch_step_1-stale libraries other_batch after first (8 ∷ 5 ∷ []) (batch_of (8 ∷ []) 5)
      stored_first refl refl (λ e. cc) refl returns
