-- ===== src/Consensus/P2pTask/Include.antt =====
-- A signature that is added to those of a batch (wasm/consensus/src/tasks/p2p.rs).
use seda_rust.Base.{
  ℕ, ◌≡◌, refl, sym, ap, ◌∙◌, arith, false, Option, none, some, List, [], ◌∷◌, ◌++◌, bytes_eq,
  string_eq, map, Option-cases, inl, inr, contains,
}
use seda_rust.Base.HashMap
use seda_rust.Consensus.Program.{
  Program, returned, panicked, BatchSignatureStore, BatchMessage, Libraries,
}
use seda_rust.Consensus.P2pTask.{include}
use seda_rust.Consensus.P2pTask.Aggregates.{total_of, Aggregates-append}
use seda_rust.Consensus.P2pTask.Collect.{
  key_of, entry_of, account_of, Represents, AreSound, add_signature-total, add_public_key-total,
  contains-entries, map-append,
}

module _ (l : Libraries) where
  abbrev pub signature_total : List ℕ → ℕ → Option ℕ
  signature_total =
      total_of l.signature_from_uncompressed l.signature_to_uncompressed l.add_signatures

  abbrev pub key_total : List ℕ → ℕ → Option ℕ
  key_total = total_of l.public_key_from_uncompressed l.public_key_to_uncompressed l.add_public_keys

  abbrev pub included : BatchSignatureStore → BatchMessage → List ℕ → List ℕ → BatchSignatureStore
  included store m signature keys = record store {
    aggregated_signature = signature;
    aggregated_public_keys = keys;
    signers = store.signers ++ account_of l m ∷ [];
    signatures = HashMap.insert store.signatures (key_of l m) m.signature;
  }

  -- The new aggregates, unless a point cannot be read or written.
  pub data Addition (store : BatchSignatureStore) (m : BatchMessage) (s k : ℕ) (p : Program)
      : Type 0 where
    stops : include l store m s k p ≡ panicked p → Addition store m s k p
    adds :
        (t u : ℕ) (signature keys : List ℕ)
        → signature_total store.aggregated_signature s ≡ some t
        → l.signature_to_uncompressed t ≡ some signature
        → key_total store.aggregated_public_keys k ≡ some u
        → l.public_key_to_uncompressed u ≡ some keys
        → include l store m s k p ≡ returned (included store m signature keys) p
        → Addition store m s k p

  pub addition :
      (store : BatchSignatureStore) (m : BatchMessage) (s k : ℕ) (p : Program)
      → Addition store m s k p
  unfolding include
  addition store m s k p =
      let first = add_signature-total l store.aggregated_signature s p in
      let second = add_public_key-total l store.aggregated_public_keys k p in
      elim (Option-cases (signature_total store.aggregated_signature s)) [
        | inl a ↦ stops (rw (first, a) refl)
        | inr (t, a) ↦ elim (Option-cases (l.signature_to_uncompressed t)) [
          | inl b ↦ stops (rw (first, a, b) refl)
          | inr (signature, b) ↦ elim (Option-cases (key_total store.aggregated_public_keys k)) [
            | inl c ↦ stops (rw (first, a, b, second, c) refl)
            | inr (u, c) ↦ elim (Option-cases (l.public_key_to_uncompressed u)) [
              | inl d ↦ stops (rw (first, a, b, second, c, d) refl)
              | inr (keys, d) ↦
                  adds t u signature keys a b c d (rw (first, a, b, second, c, d) refl)
            ]
          ]
        ]
      ]

module _ (l : Libraries) (sound : AreSound l) where
  pub Represents-included :
      (header : List ℕ) (cs : List BatchMessage) (store : BatchSignatureStore) (m : BatchMessage)
      (s k t u : ℕ) (signature keys : List ℕ)
      → Represents l header cs store
      → l.signature_from_uncompressed m.signature ≡ some s
      → l.public_key_from_uncompressed m.bn254_public_key ≡ some k
      → contains (map (key_of l) cs) (key_of l m) ≡ false
      → signature_total l store.aggregated_signature s ≡ some t
      → l.signature_to_uncompressed t ≡ some signature
      → key_total l store.aggregated_public_keys k ≡ some u
      → l.public_key_to_uncompressed u ≡ some keys
      → Represents l header (cs ++ m ∷ []) (included l store m signature keys)
  Represents-included header cs store m s k t u signature keys r es ek fresh a b c d =
      let missing : HashMap.get (map (entry_of l) cs) (key_of l m) ≡ none =
        ground (arith, contains-entries l cs (key_of l m)) in
      record {
        header_kept = r.header_kept;
        signers_kept =
            rw (map-append (account_of l) cs m) (ap (λ x. x ++ account_of l m ∷ []) r.signers_kept);
        signatures_kept =
            ap (λ x. HashMap.insert x (key_of l m) m.signature) r.signatures_kept
            ∙ HashMap.insert_new (map (entry_of l) cs) (key_of l m) m.signature missing
            ∙ sym (map-append (entry_of l) cs m);
        signature_sum =
            rw (map-append (λ (x : BatchMessage). x.signature) cs m)
              (Aggregates-append _ _ _ sound.signatures _ _ _ _ s t r.signature_sum es a b);
        key_sum =
            rw (map-append (λ (x : BatchMessage). x.bn254_public_key) cs m)
              (Aggregates-append _ _ _ sound.keys _ _ _ _ k u r.key_sum ek c d);
      }
