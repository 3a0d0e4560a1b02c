-- ===== src/Consensus/P2pTask/Collect.antt =====
-- What the messages of peers (wasm/consensus/src/tasks/p2p.rs) make of the stored signatures: those of
-- a list of contributions, one for each public key, and their sums.
use seda_rust.Base.{
  ℕ, ◌≡◌, refl, ap, arith, true, some, List, [], ◌∷◌, ◌++◌, String, bytes_eq, string_eq, map, All,
  is_some, contains, NoDup,
}
use seda_rust.Base.HashMap
use seda_rust.Base.HashMap.{HashMap}
use seda_rust.Consensus.Program.{Program, BatchSignatureStore, BatchMessage, Libraries, expect}
use seda_rust.Consensus.Signatures.{batch_signature_store_key, add_signature, add_public_key}
use seda_rust.Consensus.P2pTask.Aggregates.{Aggregates, IsEncoding, total_of}

pub map-append :
    {A B : Type 0} (f : A → B) (xs : List A) (x : A) → map f (xs ++ x ∷ []) ≡ map f xs ++ f x ∷ []
map-append f [] x = refl
map-append f (y ∷ xs) x = ap (λ r. f y ∷ r) (map-append f xs x)

module _ (l : Libraries) where
  abbrev pub key_of : BatchMessage → String
  key_of c = l.hex_encode c.bn254_public_key

  abbrev pub account_of : BatchMessage → String
  account_of c = l.hex_encode c.ed25519_public_key

  abbrev pub entry_of : BatchMessage → String × List ℕ
  entry_of c = (key_of c, c.signature)

  -- The store of a batch holds these contributions, oldest first, and their sums.
  pub record Represents (header : List ℕ) (cs : List BatchMessage) (store : BatchSignatureStore)
      : Type 0 where
    pub header_kept : store.batch_header ≡ header
    pub signers_kept : store.signers ≡ map account_of cs
    pub signatures_kept : store.signatures ≡ map entry_of cs
    pub signature_sum :
        Aggregates l.signature_from_uncompressed l.signature_to_uncompressed l.add_signatures
          (map (λ (c : BatchMessage). c.signature) cs)
          store.aggregated_signature
    pub key_sum :
        Aggregates l.public_key_from_uncompressed l.public_key_to_uncompressed l.add_public_keys
          (map (λ (c : BatchMessage). c.bn254_public_key) cs)
          store.aggregated_public_keys

  -- Its signature of this batch holds under its public key.
  abbrev pub IsValid : List ℕ → BatchMessage → Type 0
  IsValid header c =
      (c.batch_header ≡ header)
      × (s : ℕ) × (k : ℕ) × (l.signature_from_uncompressed c.signature ≡ some s)
      × (l.public_key_from_uncompressed c.bn254_public_key ≡ some k)
      × (l.verify header s k ≡ true)

  -- The shared memory keeps contributions that are valid, one for each public key.
  pub record Kept (p : Program) (header : List ℕ) (cs : List BatchMessage) : Type 0 where
    pub bytes : List ℕ
    pub store : BatchSignatureStore
    pub written : p.shared_memory batch_signature_store_key ≡ some bytes
    pub decoded : l.store_from_json bytes ≡ some store
    pub represents : Represents header cs store
    pub valid : All (IsValid header) cs
    pub distinct : NoDup (map key_of cs)

  -- The libraries do what they document: JSON and points are read back as they were written.
  pub record AreSound : Type 0 where
    pub json :
        (store : BatchSignatureStore) → l.store_from_json (l.store_to_json store) ≡ some store
    pub signatures : IsEncoding l.signature_from_uncompressed l.signature_to_uncompressed
    pub keys : IsEncoding l.public_key_from_uncompressed l.public_key_to_uncompressed

  pub add_signature-total :
      (bytes : List ℕ) (s : ℕ) (p : Program)
      → add_signature l bytes s p
        ≡ expect
            (total_of l.signature_from_uncompressed l.signature_to_uncompressed l.add_signatures
              bytes s)
            p
  unfolding add_signature
  add_signature-total [] s p = refl
  add_signature-total (b ∷ bs) s p = ground arith

  pub add_public_key-total :
      (bytes : List ℕ) (s : ℕ) (p : Program)
      → add_public_key l bytes s p
        ≡ expect
            (total_of l.public_key_from_uncompressed l.public_key_to_uncompressed l.add_public_keys
              bytes s)
            p
  unfolding add_public_key
  add_public_key-total [] s p = refl
  add_public_key-total (b ∷ bs) s p = ground arith

  pub contains-entries :
      (cs : List BatchMessage) (k : String)
      → is_some (HashMap.get (map entry_of cs) k) ≡ contains (map key_of cs) k
  unfolding HashMap.get
  contains-entries [] k = refl
  contains-entries (c ∷ cs) k = ground (arith, contains-entries cs k)
