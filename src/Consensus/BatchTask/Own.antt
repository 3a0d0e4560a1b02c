-- ===== src/Consensus/BatchTask/Own.antt =====
-- The signatures of a new batch start with the node's own (wasm/consensus/src/tasks/batch.rs).
use seda_rust.Base.{
  ℕ, ◌≡◌, ◌≢◌, arith, refl, ap, true, some, List, [], ◌∷◌, ◌==◌, bytes_eq, nat_eq, string_eq,
  Bool-cases, Option-cases, inl, inr, ==-eq, put,
}
use seda_rust.Base.HashMap
use seda_rust.Runtime.Promises.{p2p_broadcast, add_promise}
use seda_rust.Consensus.Program.{
  Program, Outcome, returned, panicked, BatchSignatureStore, BatchMessage, batch,
  ComputeMerkleRootResult, Libraries, new_promise, shared_memory_set, add_to_queue,
}
use seda_rust.Consensus.Signatures.{batch_signature_store_key, new, add_signature, add_public_key}
use seda_rust.Consensus.BatchTask.{sign_batch, process_batch, save_and_broadcast}
use seda_rust.Consensus.P2pTask.Aggregates.{sum}
use seda_rust.Consensus.P2pTask.Collect.{Kept, AreSound}

module _ (l : Libraries) (root : ComputeMerkleRootResult) (ed25519 bn254 : List ℕ) where
  -- The message that the node broadcasts for a batch.
  abbrev pub own : List ℕ → BatchMessage
  own signature = record {
    batch_header = root.merkle_root;
    bn254_public_key = bn254;
    signature = signature;
    ed25519_public_key = ed25519;
  }

  abbrev pub signed_store : List ℕ → List ℕ → BatchSignatureStore
  signed_store signature keys = record {
    aggregated_signature = signature;
    aggregated_public_keys = keys;
    signers = l.hex_encode ed25519 ∷ [];
    signatures = (l.hex_encode bn254, signature) ∷ [];
    slot = root.current_slot;
    batch_header = root.merkle_root;
    p2p_message = l.message_to_json (batch (own signature));
  }

  pub data Signing (p : Program) : Type 0 where
    stops : sign_batch l root ed25519 bn254 p ≡ panicked p → Signing p
    signs :
        (s k : ℕ) (signature keys : List ℕ)
        → l.sign root.merkle_root ≡ some s
        → l.signature_to_uncompressed s ≡ some signature
        → l.public_key_from_uncompressed bn254 ≡ some k
        → l.public_key_to_uncompressed k ≡ some keys
        → sign_batch l root ed25519 bn254 p ≡ returned (signed_store signature keys) p
        → Signing p

  pub signing : (p : Program) → Signing p
  unfolding sign_batch new add_signature add_public_key HashMap.insert
  signing p = elim (Option-cases (l.sign root.merkle_root)) [
    | inl a ↦ stops (rw a refl)
    | inr (s, a) ↦ elim (Option-cases (l.signature_to_uncompressed s)) [
      | inl b ↦ stops (rw (a, b) refl)
      | inr (signature, b) ↦ elim (Option-cases (l.public_key_from_uncompressed bn254)) [
        | inl c ↦ stops (rw (a, b, c) refl)
        | inr (k, c) ↦ elim (Option-cases (l.public_key_to_uncompressed k)) [
          | inl d ↦ stops (rw (a, b, c, d) refl)
          | inr (keys, d) ↦ signs s k signature keys a b c d (rw (a, b, c, d) refl)
        ]
      ]
    ]
  ]

-- The shared memory and the queue after a store was saved and its message broadcast.
abbrev pub saved : Libraries → BatchSignatureStore → Program → Program
saved l store p = record p {
  shared_memory = put p.shared_memory batch_signature_store_key (l.store_to_json store);
  promise_queue = add_promise (new_promise (p2p_broadcast store.p2p_message)) p.promise_queue;
}

pub save_and_broadcast_lem :
    (l : Libraries) (store : BatchSignatureStore) (p : Program)
    → save_and_broadcast l store p ≡ returned tt (saved l store p)
unfolding save_and_broadcast shared_memory_set add_to_queue
save_and_broadcast_lem l store p = refl

module _ (l : Libraries) (sound : AreSound l) where
  Kept-slot :
      (slot : ℕ) (header : List ℕ) (cs : List BatchMessage) (p : Program) (v : Kept l p header cs)
      → Kept l (saved l (record v.store { slot = slot }) p) header cs
  Kept-slot slot header cs p v =
      let r = v.represents in
      record {
        bytes = l.store_to_json (record v.store { slot = slot });
        store = record v.store { slot = slot };
        written = refl;
        decoded = sound.json (record v.store { slot = slot });
        represents = record {
          header_kept = r.header_kept;
          signers_kept = r.signers_kept;
          signatures_kept = r.signatures_kept;
          signature_sum = r.signature_sum;
          key_sum = r.key_sum;
        };
        valid = v.valid;
        distinct = v.distinct;
      }

  Kept-own :
      (root : ComputeMerkleRootResult) (ed25519 bn254 : List ℕ) (p : Program) (s k : ℕ)
      (signature keys : List ℕ)
      → l.signature_to_uncompressed s ≡ some signature
      → l.public_key_from_uncompressed bn254 ≡ some k
      → l.public_key_to_uncompressed k ≡ some keys
      → l.verify root.merkle_root s k ≡ true
      → Kept l
          (saved l (signed_store l root ed25519 bn254 signature keys) p)
          root.merkle_root
          (own l root ed25519 bn254 signature ∷ [])
  Kept-own root ed25519 bn254 p s k signature keys b c d valid =
      let e = sound.signatures.decode-encode s signature b in
      record {
        bytes = l.store_to_json (signed_store l root ed25519 bn254 signature keys);
        store = signed_store l root ed25519 bn254 signature keys;
        written = refl;
        decoded = sound.json (signed_store l root ed25519 bn254 signature keys);
        represents = record {
          header_kept = refl;
          signers_kept = refl;
          signatures_kept = refl;
          signature_sum = (s, rw (sum, e) refl, b);
          key_sum = (k, rw (sum, c) refl, d);
        };
        valid = ((refl, s, k, e, c, valid), tt);
        distinct = (refl, tt);
      }

  -- What a tick makes of the kept contributions, by the root that the contract gave: `p'` is what it
  -- leaves, and `store'` the store that it hands on.
  pub data Processed (root : ComputeMerkleRootResult) (ed25519 bn254 : List ℕ) (p : Program)
      (header : List ℕ) (cs : List BatchMessage) (store store' : BatchSignatureStore) (p' : Program)
      : Type 0 where
    again :
        root.merkle_root ≡ header
        → root.current_slot ≡ store.slot
        → store' ≡ store
        → p' ≡ p
        → Processed root ed25519 bn254 p header cs store store' p'
    next_slot :
        root.merkle_root ≡ header
        → root.current_slot ≢ store.slot
        → store' ≡ record store { slot = root.current_slot }
        → Kept l p' header cs
        → p'.promise_queue
          ≡ add_promise (new_promise (p2p_broadcast store.p2p_message)) p.promise_queue
        → Processed root ed25519 bn254 p header cs store store' p'
    new_batch :
        (signature : List ℕ)
        → root.merkle_root ≢ header
        → store' ≡ store
        → Kept l p' root.merkle_root (own l root ed25519 bn254 signature ∷ [])
        → p'.promise_queue
          ≡ add_promise
              (new_promise
                (p2p_broadcast (l.message_to_json (batch (own l root ed25519 bn254 signature)))))
              p.promise_queue
        → Processed root ed25519 bn254 p header cs store store' p'

  -- How processing ends: as above, or with a panic that changed nothing.
  abbrev pub Processes :
      ComputeMerkleRootResult
      → List ℕ
      → List ℕ
      → Program
      → List ℕ
      → List BatchMessage
      → BatchSignatureStore
      → Outcome BatchSignatureStore
      → Type 0
  Processes root ed25519 bn254 p header cs store (returned store' p') =
      Processed root ed25519 bn254 p header cs store store' p'
  Processes root ed25519 bn254 p header cs store (panicked p') = p' ≡ p

  -- When the root is that of the stored batch and the slot is the stored one, nothing changes; when the
  -- root is the same and the slot is another, the message of the store is broadcast again, with all that
  -- was collected kept under the new slot; when the root is another, what was collected is replaced by
  -- the node's own signature, which is broadcast; or else the program panics and changes nothing. The host's signature is assumed to hold under the node's key.
  pub process_batch-Processes :
      (root : ComputeMerkleRootResult) (ed25519 bn254 : List ℕ) (p : Program) (header : List ℕ)
      (cs : List BatchMessage) (v : Kept l p header cs)
      → ((s k : ℕ)
          → l.sign root.merkle_root ≡ some s
          → l.public_key_from_uncompressed bn254 ≡ some k
          → l.verify root.merkle_root s k ≡ true)
      → Processes root ed25519 bn254 p header cs v.store
          (process_batch l root v.store ed25519 bn254 p)
  unfolding process_batch
  process_batch-Processes root ed25519 bn254 p header cs v holds =
      let test : (root.merkle_root == v.store.batch_header) ≡ (root.merkle_root == header) =
        ap (λ x. root.merkle_root == x) v.represents.header_kept in
      elim (Bool-cases (root.merkle_root == header)) [
        | inl same ↦ elim (Bool-cases (root.current_slot == v.store.slot)) [
          | inl e ↦ rw (test, same, e) (again (==-eq _ _ same) (==-eq _ _ e) refl refl)
          | inr e ↦
              rw
                (
                  test,
                  same,
                  e,
                  save_and_broadcast_lem l (record v.store { slot = root.current_slot }) p,
                )
                (next_slot (==-eq _ _ same)
                  (λ k. absurd (ground (arith, nat_eq.beq_iff root.current_slot v.store.slot))) refl
                  (Kept-slot root.current_slot header cs p v) refl)
        ]
        | inr other ↦ elim (signing l root ed25519 bn254 p) [
          | stops e ↦ rw (test, other, e) refl
          | signs s k signature keys a b c d e ↦
              rw
                (
                  test,
                  other,
                  e,
                  save_and_broadcast_lem l (signed_store l root ed25519 bn254 signature keys) p,
                )
                (new_batch signature
                  (λ k. absurd (ground (arith, bytes_eq.beq_iff root.merkle_root header))) refl
                  (Kept-own root ed25519 bn254 p s k signature keys b c d (holds s k a c)) refl)
        ]
      ]
