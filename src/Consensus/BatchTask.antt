-- ===== src/Consensus/BatchTask.antt =====
-- wasm/consensus/src/tasks/batch.rs: the task of a tick. It asks the contract for the root of the next
-- batch, signs and broadcasts it, and as slot leader posts the signatures collected.
pub mod Own
pub mod Returned
pub mod Leader
pub mod Stale
use seda_rust.Base.{
  ℕ, ◌^◌, Bool, true, false, ◌&&◌, Option, none, some, List, [], ◌∷◌, ◌++◌, String, length, eqb,
  ◌==◌, bytes_eq, nat_eq, string_eq, if◌then◌else◌, to_le_bytes,
}
use seda_rust.Base.HashMap
use seda_rust.Runtime.Promises.{
  PromiseStatus, near, call_self, chain_view, chain_call, p2p_broadcast, unfulfilled, pending,
  fulfilled, rejected,
}
use seda_rust.Consensus.Program.{
  Run, BatchSignatureStore, BatchMessage, batch, ComputeMerkleRootResult, MainChainConfig,
  Libraries, ◌>>=◌, ◌>>◌, pure, panic, expect, shared_memory_get, shared_memory_set, add_to_queue,
  result,
}
use seda_rust.Consensus.Signatures.{
  batch_signature_store_key, new, get_or_create_batch_signature_store, add_signature,
  add_public_key,
}

-- `to_yocto("1")`
abbrev pub one_near : ℕ
one_near = 10 ^ 24

-- A result that must be there: anything but bytes panics.
unfoldable pub bytes_of : PromiseStatus → Run (List ℕ)
bytes_of (fulfilled (some bytes)) = pure bytes
bytes_of (fulfilled none) = panic
bytes_of (rejected error) = panic
bytes_of unfulfilled = panic
bytes_of pending = panic

module _ (l : Libraries) where
  abbrev pub view : String → String → Run (Unit {0})
  view contract_id method_name = add_to_queue (
      chain_view
        (record { chain = near; contract_id = contract_id; method_name = method_name; args = [] }))

  unfoldable pub handle : Run (Unit {0})
  handle = do
    contract_id ← expect (l.env_var "ORACLE_CONTRACT_ID")
    shared_memory_set "contract_id" (l.utf8 contract_id)
    ed25519_digits ← expect (l.env_var "ED25519_PUBLIC_KEY")
    ed25519_public_key ← expect (l.hex_decode ed25519_digits)
    shared_memory_set "ed25519_public_key" ed25519_public_key
    bn254_digits ← expect (l.env_var "BN254_PUBLIC_KEY")
    bn254_public_key ← expect (l.hex_decode bn254_digits)
    shared_memory_set "bn254_public_key" bn254_public_key
    view contract_id "compute_merkle_root"
    view contract_id "get_config"
    view contract_id "get_last_generated_random_number"
    add_to_queue (call_self (record { function_name = "batch_step_1"; args = [] }))

  -- The store of a new batch: the node's own signature.
  unfoldable pub sign_batch : ComputeMerkleRootResult → List ℕ → List ℕ → Run BatchSignatureStore
  sign_batch root ed25519_public_key bn254_public_key = do
    bn254_signature ← expect (l.sign root.merkle_root)
    let fresh = new root.current_slot root.merkle_root
    total ← add_signature l fresh.aggregated_signature bn254_signature
    aggregated_signature ← expect (l.signature_to_uncompressed total)
    key ← expect (l.public_key_from_uncompressed bn254_public_key)
    total_key ← add_public_key l fresh.aggregated_public_keys key
    aggregated_public_keys ← expect (l.public_key_to_uncompressed total_key)
    signature ← expect (l.signature_to_uncompressed bn254_signature)
    pure (record fresh {
      aggregated_signature = aggregated_signature;
      aggregated_public_keys = aggregated_public_keys;
      signers = fresh.signers ++ l.hex_encode ed25519_public_key ∷ [];
      signatures = HashMap.insert fresh.signatures (l.hex_encode bn254_public_key) signature;
      slot = root.current_slot;
      p2p_message = l.message_to_json (
          batch (record {
            batch_header = root.merkle_root;
            bn254_public_key = bn254_public_key;
            signature = signature;
            ed25519_public_key = ed25519_public_key;
          }));
    })

  unfoldable pub save_and_broadcast : BatchSignatureStore → Run (Unit {0})
  save_and_broadcast store = do
    shared_memory_set batch_signature_store_key (l.store_to_json store)
    add_to_queue (p2p_broadcast store.p2p_message)

  -- It returns the caller's store: a new batch has a store of its own, which shadows the parameter and
  -- is only written to the shared memory.
  unfoldable pub process_batch :
      ComputeMerkleRootResult → BatchSignatureStore → List ℕ → List ℕ → Run BatchSignatureStore
  unfolding save_and_broadcast
  process_batch root store ed25519_public_key bn254_public_key =
      if root.merkle_root == store.batch_header
      then (if root.current_slot == store.slot then pure store else do
        let store' = record store { slot = root.current_slot }
        save_and_broadcast store'
        pure store')
      else do
        signed ← sign_batch root ed25519_public_key bn254_public_key
        save_and_broadcast signed
        pure store

  -- The batch is posted when there are as many signatures as the committee has members.
  unfoldable pub post_if_complete : BatchSignatureStore → String → ℕ → ℕ → Run (Unit {0})
  post_if_complete store contract_id committee_size last_random_number =
      if committee_size == length store.signatures
      then (do
        leader_signature ← expect (l.sign (to_le_bytes 32 last_random_number))
        leader_signature_bytes ← expect (l.signature_to_uncompressed leader_signature)
        add_to_queue (
            chain_call (record {
              chain = near;
              contract_id = contract_id;
              method_name = "post_signed_batch";
              args =
                  l.signed_batch_json store.aggregated_signature store.aggregated_public_keys
                    store.signers leader_signature_bytes;
              deposit = one_near;
            })))
      else pure tt

  unfoldable pub process_slot_leader : BatchSignatureStore → String → Run (Unit {0})
  unfolding bytes_of
  process_slot_leader store contract_id = do
    config_status ← result 1
    config_bytes ← bytes_of config_status
    chain_config ← expect (l.config_from_json config_bytes)
    number_status ← result 2
    number_bytes ← bytes_of number_status
    encoded ← expect (l.string_from_json number_bytes)
    last_random_number ← expect (l.u256_from_dec_str encoded)
    post_if_complete store contract_id chain_config.committee_size last_random_number

  abbrev pub lead : Option String → String → BatchSignatureStore → String → Run (Unit {0})
  lead none account store contract_id = pure tt
  lead (some leader) account store contract_id =
      if leader == account then process_slot_leader store contract_id else pure tt

  unfoldable pub batch_step_1 : Run (Unit {0})
  unfolding bytes_of
  batch_step_1 = do
    contract_bytes ← shared_memory_get "contract_id"
    contract_id ← expect (l.from_utf8 contract_bytes)
    bn254_public_key ← shared_memory_get "bn254_public_key"
    ed25519_public_key ← shared_memory_get "ed25519_public_key"
    store ← get_or_create_batch_signature_store l batch_signature_store_key
    status ← result 0
    batch_bytes ← bytes_of status
    root ← expect (l.root_from_json batch_bytes)
    store' ← process_batch root store ed25519_public_key bn254_public_key
    lead root.current_slot_leader (l.hex_encode ed25519_public_key) store' contract_id
