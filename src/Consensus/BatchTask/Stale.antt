-- ===== src/Consensus/BatchTask/Stale.antt =====
-- A slot leader that meets a new batch (wasm/consensus/src/tasks/batch.rs).
use seda_rust.Base.{
  get_elem?, String, ℕ, ◌≡◌, ◌≢◌, refl, sym, ap, subst, ◌∙◌, some, List, String, bytes_eq, nat_eq,
  string_eq, ne-==, inl, inr,
}
use seda_rust.Consensus.Program.{
  Program, Outcome, returned, panicked, BatchSignatureStore, ComputeMerkleRootResult, Libraries,
  left,
}
use seda_rust.Consensus.Signatures.{batch_signature_store_key, get_or_create_batch_signature_store}
use seda_rust.Runtime.Promises.{fulfilled}
use seda_rust.Consensus.BatchTask.{process_batch, batch_step_1}
use seda_rust.Consensus.BatchTask.Own.{
  signed_store, saved, save_and_broadcast_lem, signing, stops, signs,
}
use seda_rust.Consensus.BatchTask.Leader.{Led, batch_step_1-Stepped, shared_bytes}

module _ (l : Libraries) where
  -- A batch that is not the stored one was signed and saved, and the old store is handed on.
  process_batch-other :
      (root : ComputeMerkleRootResult) (store store' : BatchSignatureStore) (ed25519 bn254 : List ℕ)
      (p p' : Program)
      → root.merkle_root ≢ store.batch_header
      → process_batch l root store ed25519 bn254 p ≡ returned store' p'
      → (store' ≡ store)
        × (signed : BatchSignatureStore) × (p' ≡ saved l signed p)
        × (signed.batch_header ≡ root.merkle_root)
  unfolding process_batch
  process_batch-other root store store' ed25519 bn254 p p' other h =
      let test = ne-== root.merkle_root store.batch_header other in
      elim (signing l root ed25519 bn254 p) [
        | stops e ↦ absurd (cc (rw (test, e) at h))
        | signs s k signature keys a b c d e ↦
            let signed = signed_store l root ed25519 bn254 signature keys in
            let h' = rw (test, e, save_and_broadcast_lem l signed p) at h in
            (
              sym (
                  ap
                    (λ (o : Outcome BatchSignatureStore). elim o [
                      | returned x _ ↦ x
                      | panicked _ ↦ store
                    ])
                    h'),
              signed,
              sym (ap left h'),
              refl,
            )
      ]

  Led-shared_memory :
      (store : BatchSignatureStore) (contract_id : String) (p p' : Program)
      → Led l store contract_id p p'
      → p'.shared_memory ≡ p.shared_memory
  Led-shared_memory store contract_id p p' led = elim led.posts [
    | inl (few, e) ↦ ap (λ (x : Program). x.shared_memory) e
    | inr (all, signature, e) ↦ ap (λ (x : Program). x.shared_memory) e
  ]

  -- A leader's step that returned, when the contract gave a root other than that of the stored batch:
  -- it saved the store of the new batch, but counted the signatures of the old one, and posted the old
  -- aggregates and signers if those are as many as the committee has members.
  pub batch_step_1-stale :
      (p p' : Program) (store : BatchSignatureStore) (root_bytes : List ℕ)
      (root : ComputeMerkleRootResult)
      → get_or_create_batch_signature_store l batch_signature_store_key p ≡ returned store p
      → get_elem? p.results 0 ≡ some (fulfilled (some root_bytes))
      → l.root_from_json root_bytes ≡ some root
      → root.merkle_root ≢ store.batch_header
      → root.current_slot_leader ≡ some (l.hex_encode (shared_bytes p "ed25519_public_key"))
      → batch_step_1 l p ≡ returned tt p'
      → (contract_id : String) × (signed : BatchSignatureStore) × (l.from_utf8
            (shared_bytes p "contract_id")
          ≡ some contract_id)
        × (signed.batch_header ≡ root.merkle_root)
        × Led l store contract_id (saved l signed p) p'
        × (p'.shared_memory batch_signature_store_key ≡ some (l.store_to_json signed))
  batch_step_1-stale p p' store root_bytes root stored given read other leader h =
      let s = batch_step_1-Stepped l p p' h in
      let same_bytes : s.root_bytes ≡ root_bytes = cc (sym s.root_given ∙ given) in
      let same_root : s.root ≡ root =
        cc (sym s.root_read ∙ ap l.root_from_json same_bytes ∙ read) in
      let same_store : s.store ≡ store = cc (sym s.stored ∙ stored) in
      let (kept, signed, after, header) =
        process_batch-other s.root s.store s.store' (shared_bytes p "ed25519_public_key")
          (shared_bytes p "bn254_public_key") p s.between
          (λ e. other (
            sym (ap (λ (x : ComputeMerkleRootResult). x.merkle_root) same_root)
            ∙ e
            ∙ ap (λ (x : BatchSignatureStore). x.batch_header) same_store))
          s.processed in
      let led =
        s.leads (ap (λ (x : ComputeMerkleRootResult). x.current_slot_leader) same_root ∙ leader) in
      (
        s.contract_id,
        signed,
        s.contract_read,
        header ∙ ap (λ (x : ComputeMerkleRootResult). x.merkle_root) same_root,
        subst (λ x. Led l store s.contract_id x p') after
            (subst (λ x. Led l x s.contract_id s.between p') (kept ∙ same_store) led),
        ap (λ f. f batch_signature_store_key)
            (Led-shared_memory s.store' s.contract_id s.between p' led
              ∙ ap (λ (x : Program). x.shared_memory) after),
      )
