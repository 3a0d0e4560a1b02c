-- ===== src/Consensus/Tests.antt =====
-- Runs of the consensus program (wasm/consensus/src) with small libraries: a point is a number and is
-- encoded as one byte, and a signature holds if it is the number of its key.
pub mod Codec
pub mod Leader
use seda_rust.Base.{
  ℕ, ◌+◌, ◌≡◌, ◌≢◌, refl, arith, sym, ap, ◌∙◌, Bool, true, false, Option, none, some, List, [], ◌∷◌,
  ◌++◌, String, ◌==◌, bytes_eq, nat_eq, string_eq, if◌then◌else◌, put, inl, inr,
}
use seda_rust.Base.HashMap
use seda_rust.Runtime.Promises.{fulfilled, p2p_broadcast, add_promise}
use seda_rust.Runtime.Tests.Codes.{codes}
use seda_rust.Consensus.Program.{
  Program, Outcome, returned, panicked, BatchSignatureStore, BatchMessage, ComputeMerkleRootResult,
  Libraries, left, new_promise, shared_memory_get, shared_memory_set, shared_memory_contains_key,
  add_to_queue, result,
}
use seda_rust.Consensus.Signatures.{
  batch_signature_store_key, get_or_create_batch_signature_store, new, add_signature,
  add_public_key,
}
use seda_rust.Consensus.BatchTask.{
  bytes_of, sign_batch, save_and_broadcast, process_batch, process_slot_leader, post_if_complete,
  batch_step_1,
}
use seda_rust.Consensus.BatchTask.Own.{own, signed_store, saved, Processes, process_batch-Processes}
use seda_rust.Consensus.BatchTask.Leader.{
  Led, Stepped, Posts, post_of, shared_bytes, batch_step_1-Stepped,
}
use seda_rust.Consensus.BatchTask.Stale.{batch_step_1-stale}
use seda_rust.Consensus.P2pTask.Aggregates.{IsEncoding}
use seda_rust.Consensus.P2pTask.Collect.{Kept, AreSound}
use seda_rust.Consensus.P2pTask.History.{handle_all, Picked, handle_all-Kept}
use seda_rust.Consensus.Tests.Codec.{to_json, from_json, from-to_json}

abbrev decode : List ℕ → Option ℕ
decode [] = none
decode (x ∷ []) = some x
decode (x ∷ y ∷ r) = none

abbrev encode : ℕ → Option (List ℕ)
encode x = some (x ∷ [])

abbrev digits : List ℕ → String
digits bytes = if bytes == 1 ∷ [] then "01" else "02"

abbrev root_from : List ℕ → Option ComputeMerkleRootResult
root_from (x ∷ slot ∷ []) =
    some (record { merkle_root = x ∷ []; current_slot = slot; current_slot_leader = some "01" })
root_from _ = none

abbrev pub libraries : Libraries
libraries = record {
  env_var = λ name. none;
  utf8 = codes;
  from_utf8 = λ bytes. some "oracle";
  hex_encode = digits;
  hex_decode = λ text. none;
  store_to_json = to_json;
  store_from_json = from_json;
  message_to_json = λ message. 77 ∷ [];
  message_from_json = λ text. none;
  root_from_json = root_from;
  config_from_json = λ bytes. elim (decode bytes) [
    | none ↦ none
    | some n ↦ some (record {
      minimum_stake = 0;
      epoch_delay_for_election = 0;
      committee_size = n;
      withdraw_delay = 0;
    })
  ];
  string_from_json = λ bytes. some "5";
  u256_from_dec_str = λ text. some 5;
  signed_batch_json = λ signature keys signers leader. signature ++ keys;
  data_request_json = codes;
  sign = λ message. some 1;
  verify = λ message s k. s == k;
  signature_from_uncompressed = decode;
  signature_to_uncompressed = encode;
  public_key_from_uncompressed = decode;
  public_key_to_uncompressed = encode;
  add_signatures = λ s t. s + t;
  add_public_keys = λ s t. s + t;
}

decode_some : Option (List ℕ) → Option ℕ
decode_some none = none
decode_some (some bytes) = decode bytes

encoding : IsEncoding decode encode
unfolding decode_some
encoding = record { decode-encode = λ p bytes e. sym (ap decode_some e); encode-ne-nil = λ p e. cc }

libraries-AreSound : AreSound libraries
libraries-AreSound = record { json = from-to_json; signatures = encoding; keys = encoding }

-- The root that the contract gave, the size of its committee, and its random number.
abbrev pub program : List ℕ → BatchSignatureStore → Program
program root store = record {
  shared_memory = λ key.
      if key == batch_signature_store_key
      then some (to_json store)
      else if key == "contract_id"
      then some (codes "oracle")
      else some (1 ∷ []);
  memory = λ key. none;
  results = fulfilled (some root) ∷ fulfilled (some (1 ∷ [])) ∷ fulfilled (some (codes "5")) ∷ [];
  promise_queue = [];
  stdout = [];
}

abbrev pub batch_of : List ℕ → ℕ → ComputeMerkleRootResult
batch_of header slot = record {
  merkle_root = header;
  current_slot = slot;
  current_slot_leader = some "01";
}

-- The batch 9 of slot 4, signed by the node itself.
abbrev pub first : BatchSignatureStore
first = signed_store libraries (batch_of (9 ∷ []) 4) (1 ∷ []) (1 ∷ []) (1 ∷ []) (1 ∷ [])

abbrev mine : BatchMessage
mine = own libraries (batch_of (9 ∷ []) 4) (1 ∷ []) (1 ∷ []) (1 ∷ [])

abbrev peer : ℕ → ℕ → BatchMessage
peer key signature = record {
  batch_header = 9 ∷ [];
  bn254_public_key = key ∷ [];
  signature = signature ∷ [];
  ed25519_public_key = key ∷ [];
}

abbrev before : Program
before = program (9 ∷ 4 ∷ []) first

before-Kept : Kept libraries before (9 ∷ []) (mine ∷ [])
before-Kept = record {
  bytes = to_json first;
  store = first;
  written = refl;
  decoded = from-to_json first;
  represents = record {
    header_kept = refl;
    signers_kept = refl;
    signatures_kept = refl;
    signature_sum = (1, refl, refl);
    key_sum = (1, refl, refl);
  };
  valid = ((refl, 1, 1, refl, refl, refl), tt);
  distinct = (refl, tt);
}

-- A forged message, one of a peer, and the same again.
abbrev messages : List BatchMessage
messages = peer 2 3 ∷ peer 2 2 ∷ peer 2 2 ∷ []

handle_all-Kept_example :
    (more : List BatchMessage) × Picked more messages
    × Kept libraries (handle_all libraries messages before) (9 ∷ []) (mine ∷ more)
handle_all-Kept_example =
    handle_all-Kept libraries libraries-AreSound messages (9 ∷ []) (mine ∷ []) before before-Kept

process_batch-Processes_example :
    Processes libraries libraries-AreSound
      (batch_of (8 ∷ []) 5)
      (1 ∷ [])
      (1 ∷ [])
      before
      (9 ∷ [])
      (mine ∷ [])
      first
      (process_batch libraries (batch_of (8 ∷ []) 5) first (1 ∷ []) (1 ∷ []) before)
unfolding before-Kept
process_batch-Processes_example =
    process_batch-Processes libraries libraries-AreSound (batch_of (8 ∷ []) 5) (1 ∷ []) (1 ∷ [])
      before (9 ∷ []) (mine ∷ []) before-Kept (λ s k signed key. ground arith)
