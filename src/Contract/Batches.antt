-- ===== src/Contract/Batches.antt =====
-- contracts/src/batch.rs: the slot leader posts the accumulated requests as a batch, signed by members
-- of the committee.
pub mod Posting
use seda_rust.Base.{
  ℕ, List, [], ◌∷◌, ◌++◌, string_eq, bytes_eq, nat_eq, ◌==◌, contains, put, unwrap_or, to_le_bytes,
  add_u64,
}
use seda_rust.Contract.State.{
  Env, World, AccountId, Bytes, CryptoHash, BatchHeader, MainchainContract,
}
use seda_rust.Contract.Results.{
  Result, ok, panic, unwrap_none, index_out_of_bounds, not_slot_leader, invalid_leader_signature,
  not_in_committee, invalid_aggregate_public_key, invalid_aggregate_signature, assert, expect,
  ◌>>=◌, ◌>>◌,
}
use seda_rust.Contract.Storage.{manage_world, either}
use seda_rust.Contract.Clock.{get_current_epoch, get_current_slot}
use seda_rust.Contract.Verify.{bn254_verify}
use seda_rust.Contract.Committee.{get_current_slot_leader}
use seda_rust.Contract.Epoch.{process_epoch}
use seda_rust.Contract.DataRequests.{internal_compute_merkle_root}

unfoldable pub get_latest_batch_id : MainchainContract → CryptoHash
get_latest_batch_id c = unwrap_or (c.batch_ids_by_height c.num_batches) 0

-- The signer is the leader of this slot and has signed the last random number; the digest of that
-- signature is the next one.
unfoldable pub check_leader : Env → Bytes → MainchainContract → Result MainchainContract
check_leader env leader_signature c = do
  leader ← get_current_slot_leader env c
  leader_id ← expect leader unwrap_none
  assert (leader_id == env.signer_account_id) not_slot_leader
  node ← expect (c.active_nodes.entry env.signer_account_id) unwrap_none
  valid ←
      bn254_verify env (to_le_bytes 32 c.last_generated_random_number) leader_signature
        node.bn254_public_key
  assert valid invalid_leader_signature
  ok (record c {
    last_generated_random_number =
        env.sha256 (leader_signature ++ to_le_bytes 8 (get_current_slot env));
  })

-- The public key of a signer, which must be in the committee and active.
unfoldable pub signer_point : Env → MainchainContract → List AccountId → AccountId → Result ℕ
signer_point env c committee signer = do
  assert (contains committee signer) not_in_committee
  node ← expect (c.active_nodes.entry signer) unwrap_none
  expect (env.from_uncompressed node.bn254_public_key) unwrap_none

-- `signers.iter().skip(1).fold(…)`
unfoldable pub add_signers :
    Env → MainchainContract → List AccountId → List AccountId → ℕ → Result ℕ
add_signers env c committee [] acc = ok acc
add_signers env c committee (signer ∷ signers) acc = do
  point ← signer_point env c committee signer
  add_signers env c committee signers (env.add_points acc point)

unfoldable pub aggregate_signers :
    Env → MainchainContract → List AccountId → List AccountId → Result ℕ
aggregate_signers env c committee [] = panic index_out_of_bounds
aggregate_signers env c committee (signer ∷ signers) = do
  point ← signer_point env c committee signer
  add_signers env c committee signers point

-- The aggregate key is the sum of the signers' keys, and the aggregate signature is valid for the
-- merkle root, which is returned.
unfoldable pub check_signers :
    Env → Bytes → Bytes → List AccountId → MainchainContract → Result CryptoHash
check_signers env aggregate_signature aggregate_public_key signers c = do
  committee ← expect (c.committees (get_current_epoch env)) unwrap_none
  reconstructed ← aggregate_signers env c committee signers
  key ← expect (env.to_uncompressed reconstructed) unwrap_none
  assert (key == aggregate_public_key) invalid_aggregate_public_key
  merkle_root ← internal_compute_merkle_root env c
  valid ← bn254_verify env (env.hash_bytes merkle_root) aggregate_signature aggregate_public_key
  assert valid invalid_aggregate_signature
  ok merkle_root

abbrev next_header : MainchainContract → BatchHeader
next_header c = record { height = add_u64 c.num_batches 1; state_root = 0 }

abbrev next_batch_id : Env → CryptoHash → MainchainContract → CryptoHash
next_batch_id env merkle_root c = env.hash_batch (record {
  prev_root = get_latest_batch_id c;
  header = next_header c;
  transactions = merkle_root;
})

unfoldable pub store_batch : Env → CryptoHash → MainchainContract → MainchainContract
store_batch env merkle_root c = record c {
  num_batches = add_u64 c.num_batches 1;
  batch_by_id =
      put c.batch_by_id (next_batch_id env merkle_root c)
        (record { header = next_header c; transactions = c.data_request_accumulator });
  batch_ids_by_height =
      put c.batch_ids_by_height (add_u64 c.num_batches 1) (next_batch_id env merkle_root c);
  data_request_accumulator = [];
}

unfoldable pub post_batch_body : Env → Bytes → Bytes → List AccountId → Bytes → World → Result World
post_batch_body env aggregate_signature aggregate_public_key signers leader_signature w = do
  w₁ ← process_epoch env w
  c ← check_leader env leader_signature w₁.contract
  merkle_root ← check_signers env aggregate_signature aggregate_public_key signers c
  ok (record w₁ { contract = store_batch env merkle_root c })

unfoldable pub post_signed_batch :
    Env → Bytes → Bytes → List AccountId → Bytes → World → Result World
post_signed_batch env aggregate_signature aggregate_public_key signers leader_signature =
    manage_world either env
      (post_batch_body env aggregate_signature aggregate_public_key signers leader_signature)
