-- ===== src/Contract/DataRequests.antt =====
-- contracts/src/data_request.rs: the accumulator of data requests, and its merkle root.
use seda_rust.Base.{[], ◌∷◌, ◌++◌, String}
use seda_rust.Contract.State.{Env, World, CryptoHash, ComputeMerkleRootResult, MainchainContract}
use seda_rust.Contract.Results.{Result, ok, ◌>>=◌}
use seda_rust.Contract.Storage.{manage_storage_deposit, require}
use seda_rust.Contract.Clock.{get_current_slot}
use seda_rust.Contract.Committee.{get_current_slot_leader}
use seda_rust.Contract.Merkle.{merklize}

unfoldable pub internal_compute_merkle_root : Env → MainchainContract → Result CryptoHash
internal_compute_merkle_root env c = merklize env c.data_request_accumulator

unfoldable pub post_data_request_body : String → MainchainContract → Result MainchainContract
post_data_request_body data_request c =
    ok (record c { data_request_accumulator = c.data_request_accumulator ++ data_request ∷ [] })

unfoldable pub post_data_request : Env → String → World → Result World
post_data_request env data_request =
    manage_storage_deposit require env (post_data_request_body data_request)

unfoldable pub compute_merkle_root : Env → MainchainContract → Result ComputeMerkleRootResult
unfolding internal_compute_merkle_root
compute_merkle_root env c = do
  root ← internal_compute_merkle_root env c
  leader ← get_current_slot_leader env c
  ok (record {
    merkle_root = root;
    current_slot = get_current_slot env;
    current_slot_leader = leader;
  })
