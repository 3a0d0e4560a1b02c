-- ===== src/Consensus/P2pTask.antt =====
-- wasm/consensus/src/tasks/p2p.rs: the task of a message from a peer.
pub mod Aggregates
pub mod Collect
pub mod Include
pub mod Admit
pub mod History
use seda_rust.Base.{
  ℕ, Bool, true, false, Option, none, some, List, [], ◌∷◌, ◌++◌, String, ◌==◌, bytes_eq, string_eq,
  if◌then◌else◌,
}
use seda_rust.Base.HashMap
use seda_rust.Consensus.Program.{
  Run, BatchSignatureStore, BatchMessage, Message, batch, Libraries, ◌>>=◌, ◌>>◌, pure, panic,
  expect, shared_memory_set,
}
use seda_rust.Consensus.Signatures.{
  batch_signature_store_key, get_or_create_batch_signature_store, add_signature, add_public_key,
}

module _ (l : Libraries) where
  -- A signature for the batch that is known: the aggregates, the signer and the signature are added.
  unfoldable pub include : BatchSignatureStore → BatchMessage → ℕ → ℕ → Run BatchSignatureStore
  include store message bn254_signature bn254_public_key = do
    total ← add_signature l store.aggregated_signature bn254_signature
    new_aggregate_signature ← expect (l.signature_to_uncompressed total)
    total_key ← add_public_key l store.aggregated_public_keys bn254_public_key
    new_aggregate_public_key ← expect (l.public_key_to_uncompressed total_key)
    pure (record store {
      aggregated_signature = new_aggregate_signature;
      aggregated_public_keys = new_aggregate_public_key;
      signers = store.signers ++ l.hex_encode message.ed25519_public_key ∷ [];
      signatures =
          HashMap.insert store.signatures (l.hex_encode message.bn254_public_key) message.signature;
    })

  -- The message's signature is valid. `todo!` panics for a batch that is not known.
  unfoldable pub collect : BatchMessage → ℕ → ℕ → Run (Unit {0})
  collect message bn254_signature bn254_public_key = do
    store ← get_or_create_batch_signature_store l batch_signature_store_key
    if message.batch_header == store.batch_header
        then (if HashMap.contains_key store.signatures (l.hex_encode message.bn254_public_key)
            then pure tt
            else do
              store' ← include store message bn254_signature bn254_public_key
              shared_memory_set batch_signature_store_key (l.store_to_json store'))
        else panic

  unfoldable pub handle_batch : BatchMessage → Run (Unit {0})
  handle_batch message = do
    bn254_signature ← expect (l.signature_from_uncompressed message.signature)
    bn254_public_key ← expect (l.public_key_from_uncompressed message.bn254_public_key)
    if l.verify message.batch_header bn254_signature bn254_public_key
        then collect message bn254_signature bn254_public_key
        else pure tt

  abbrev pub handle_message : Message → Run (Unit {0})
  handle_message (batch message) = handle_batch message

  unfoldable pub handle : String → Run (Unit {0})
  handle text = do message ← expect (l.message_from_json text); handle_message message
