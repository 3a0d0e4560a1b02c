-- ===== src/Contract/State.antt =====
-- The contract's state (contracts/src/lib.rs), the data that it stores (common/src, dao.rs, batch.rs)
-- and what one call sees of the chain (near_sdk::env).
use seda_rust.Base.{ℕ, String, List, Option, Bool}
use seda_rust.Contract.Collections.{LookupMap, UnorderedMap}

abbrev pub AccountId : Type 0
AccountId = String

-- `Vec<u8>`
abbrev pub Bytes : Type 0
Bytes = List ℕ

-- A 32-byte digest, as the big-endian number of its bytes: their order is the order of these numbers.
abbrev pub CryptoHash : Type 0
CryptoHash = ℕ

pub record Node : Type 0 where
  pub multi_addr : String
  pub balance : ℕ
  pub bn254_public_key : Bytes
  pub ed25519_public_key : Bytes

pub record NodeInfo : Type 0 where
  pub account_id : String
  pub multi_addr : String
  pub balance : ℕ
  pub bn254_public_key : Bytes
  pub ed25519_public_key : Bytes

pub record DepositInfo : Type 0 where
  pub node_ed25519_public_key : Bytes
  pub amount : ℕ

pub record WithdrawRequest : Type 0 where
  pub amount : ℕ
  pub epoch : ℕ

pub record RequestWithdrawResult : Type 0 where
  pub current_epoch : ℕ
  pub withdraw_epoch : ℕ

pub record ComputeMerkleRootResult : Type 0 where
  pub merkle_root : CryptoHash
  pub current_slot : ℕ
  pub current_slot_leader : Option String

pub data UpdateNode : Type 0 where
  set_socket_address : String → UpdateNode

pub record Config : Type 0 where
  pub minimum_stake : ℕ
  pub epoch_delay_for_election : ℕ
  pub committee_size : ℕ
  pub withdraw_delay : ℕ

pub data UpdateConfig : Type 0 where
  minimum_stake epoch_delay_for_election : UpdateConfig

pub record BatchHeader : Type 0 where
  pub height : ℕ
  pub state_root : CryptoHash

pub record Batch : Type 0 where
  pub header : BatchHeader
  pub transactions : List String

pub record MerklizedBatch : Type 0 where
  pub prev_root : CryptoHash
  pub header : BatchHeader
  pub transactions : CryptoHash

-- The part of near_contract_standards' token that the contract's own code reads and writes.
pub record FungibleToken : Type 0 where
  pub accounts : LookupMap AccountId ℕ

pub record MainchainContract : Type 0 where
  pub token : FungibleToken
  pub dao : AccountId
  pub config : Config
  pub active_nodes : UnorderedMap AccountId Node
  pub inactive_nodes : UnorderedMap AccountId Node
  pub pending_nodes : UnorderedMap AccountId ℕ
  pub nodes_by_ed25519_public_key : LookupMap Bytes AccountId
  pub depositors : LookupMap AccountId (UnorderedMap Bytes ℕ)
  pub committees : LookupMap ℕ (List AccountId)
  pub data_request_accumulator : List String
  pub num_batches : ℕ
  pub batch_ids_by_height : LookupMap ℕ CryptoHash
  pub batch_by_id : LookupMap CryptoHash Batch
  pub last_total_balance : ℕ
  pub nodes_by_bn254_public_key : LookupMap Bytes AccountId
  pub random_seed : CryptoHash
  pub bootstrapping_phase : Bool
  pub last_processed_epoch : ℕ
  pub last_generated_random_number : ℕ
  pub withdraw_requests : LookupMap Bytes (LookupMap AccountId WithdrawRequest)

-- The host functions and the crypto crates, as one call sees them.
pub record Env : Type 0 where
  pub signer_account_id : AccountId
  pub signer_account_pk : Bytes
  pub block_height : ℕ
  pub attached_deposit : ℕ
  pub storage_byte_cost : ℕ
  -- how often the call's gas lets the committee selection draw again for one seat
  pub reroll_limit : ℕ
  -- bytes that the stored contract takes
  pub storage_usage : MainchainContract → ℕ
  -- the order of an `UnorderedMap`'s keys after a removal
  pub reorder : List AccountId → AccountId → List AccountId
  -- the SHA-256 digest of some bytes, read as a little-endian `U256`
  pub sha256 : Bytes → ℕ
  -- `CryptoHash::hash_borsh` at a text, at a pair of hashes and at a batch
  pub hash_text : String → CryptoHash
  pub hash_pair : CryptoHash → CryptoHash → CryptoHash
  pub hash_batch : MerklizedBatch → CryptoHash
  -- the 32 bytes of a digest
  pub hash_bytes : CryptoHash → Bytes
  -- `AccountId::as_bytes`
  pub account_bytes : AccountId → Bytes
  -- `format_pairing_check_uncompressed_values` and `alt_bn128_pairing_check`
  pub format_pairing : Bytes → Bytes → Bytes → Option Bytes
  pub alt_bn128_pairing_check : Bytes → ℕ
  -- bn254's points: `PublicKey::from_uncompressed`, `+` and `to_uncompressed`
  pub from_uncompressed : Bytes → Option ℕ
  pub add_points : ℕ → ℕ → ℕ
  pub to_uncompressed : ℕ → Option Bytes

-- The contract and the transfers that it has ordered (`Promise::transfer`), newest first.
pub record World : Type 0 where
  pub contract : MainchainContract
  pub transfers : List (AccountId × ℕ)
