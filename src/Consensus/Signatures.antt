-- ===== src/Consensus/Signatures.antt =====
-- wasm/consensus/src/types/batch_signature.rs: the signatures that were collected for a batch.
use seda_rust.Base.{ℕ, List, [], ◌∷◌, String, if◌then◌else◌}
use seda_rust.Consensus.Program.{
  Run, BatchSignatureStore, Libraries, ◌>>=◌, pure, expect, shared_memory_get,
  shared_memory_contains_key,
}

abbrev pub batch_signature_store_key : String
batch_signature_store_key = "batch_signatures"

abbrev pub empty_sha256 : List ℕ
empty_sha256 =
    227 ∷ 176 ∷ 196 ∷ 66 ∷ 152 ∷ 252 ∷ 28 ∷ 20 ∷ 154 ∷ 251 ∷ 244 ∷ 200 ∷ 153 ∷ 111 ∷ 185 ∷ 36 ∷ 39
    ∷ 174 ∷ 65 ∷ 228 ∷ 100 ∷ 155 ∷ 147 ∷ 76 ∷ 164 ∷ 149 ∷ 153 ∷ 27 ∷ 120 ∷ 82 ∷ 184 ∷ 85 ∷ []

unfoldable pub new : ℕ → List ℕ → BatchSignatureStore
new slot root = record {
  aggregated_signature = [];
  aggregated_public_keys = [];
  signers = [];
  signatures = [];
  slot = slot;
  batch_header = root;
  p2p_message = [];
}

unfoldable pub default : BatchSignatureStore
unfolding new
default = new 0 empty_sha256

module _ (l : Libraries) where
  unfoldable pub get_or_create_batch_signature_store : String → Run BatchSignatureStore
  unfolding shared_memory_contains_key shared_memory_get
  get_or_create_batch_signature_store storage_key = do
    found ← shared_memory_contains_key storage_key
    bytes ← shared_memory_get storage_key
    if found then expect (l.store_from_json bytes) else pure default

  unfoldable pub add_signature : List ℕ → ℕ → Run ℕ
  add_signature [] signature = pure signature
  add_signature (b ∷ bs) signature = do
    aggregated ← expect (l.signature_from_uncompressed (b ∷ bs))
    pure (l.add_signatures aggregated signature)

  unfoldable pub add_public_key : List ℕ → ℕ → Run ℕ
  add_public_key [] public_key = pure public_key
  add_public_key (b ∷ bs) public_key = do
    aggregated ← expect (l.public_key_from_uncompressed (b ∷ bs))
    pure (l.add_public_keys aggregated public_key)
