-- ===== src/Consensus/BatchTask/Leader.antt =====
-- What a slot leader posts (wasm/consensus/src/tasks/batch.rs).
use seda_rust.Base.{
  ℕ, ◌≡◌, ◌≢◌, refl, sym, ap, ◌∙◌, Option, none, some, List, [], String, ◌==◌, bytes_eq, nat_eq,
  string_eq, ==-eq, length, get_elem?, Bool-cases, Option-cases, ◌⊎◌, inl, inr, to_le_bytes,
  unwrap_or,
}
use seda_rust.Runtime.Promises.{PromiseAction, near, chain_call, fulfilled, add_promise}
use seda_rust.Consensus.Program.{
  Program, returned, Run, bind, BatchSignatureStore, ComputeMerkleRootResult, MainChainConfig,
  Libraries, new_promise, shared_memory_get, add_to_queue, result,
}
use seda_rust.Consensus.Signatures.{
  batch_signature_store_key, default, get_or_create_batch_signature_store,
}
use seda_rust.Consensus.BatchTask.{
  process_batch, process_slot_leader, post_if_complete, lead, batch_step_1, one_near,
}
use seda_rust.Consensus.BatchTask.Returned.{
  bind-returned, expect-returned, bytes_of-returned, returned-injective,
}

-- The promise by which a leader posts a batch.
abbrev pub post_of : Libraries → BatchSignatureStore → String → List ℕ → PromiseAction
post_of l store contract_id leader_signature = chain_call (record {
  chain = near;
  contract_id = contract_id;
  method_name = "post_signed_batch";
  args =
      l.signed_batch_json store.aggregated_signature store.aggregated_public_keys store.signers
        leader_signature;
  deposit = one_near;
})

-- As many signatures as the committee has members were posted, or there were not as many.
abbrev pub Posts : Libraries → BatchSignatureStore → String → ℕ → Program → Program → Type 0
Posts l store contract_id committee_size p p' =
    ((committee_size ≢ length store.signatures) × (p' ≡ p))
    ⊎ ((committee_size ≡ length store.signatures)
        × (leader_signature : List ℕ) × (p' ≡ record p {
          promise_queue =
              add_promise (new_promise (post_of l store contract_id leader_signature))
                p.promise_queue;
        }))

-- A leader's part that returned found the configuration of the contract.
pub record Led (l : Libraries) (store : BatchSignatureStore) (contract_id : String) (p p' : Program)
    : Type 0 where
  pub config_bytes : List ℕ
  pub config : MainChainConfig
  pub config_given : get_elem? p.results 1 ≡ some (fulfilled (some config_bytes))
  pub config_read : l.config_from_json config_bytes ≡ some config
  pub posts : Posts l store contract_id config.committee_size p p'

module _ (l : Libraries) (store : BatchSignatureStore) (contract_id : String) (p p' : Program) where
  post_if_complete-Posts :
      (committee_size number : ℕ)
      → post_if_complete l store contract_id committee_size number p ≡ returned tt p'
      → Posts l store contract_id committee_size p p'
  unfolding post_if_complete add_to_queue
  post_if_complete-Posts n number h = elim (Bool-cases (n == length store.signatures)) [
    | inr few ↦ inl (
      λ e. cc (sym few ∙ (nat_eq.beq_iff n (length store.signatures)).1 e),
      sym (returned-injective tt tt p p' (rw few at h)),
    )
    | inl all ↦
        let (s, a, h1) = expect-returned (l.sign (to_le_bytes 32 number)) _ p tt p' (rw all at h) in
        let (bytes, b, h2) = expect-returned (l.signature_to_uncompressed s) _ p tt p' h1 in
        inr (==-eq _ _ all, bytes, sym (returned-injective tt tt _ p' h2))
  ]

  process_slot_leader-Led :
      process_slot_leader l store contract_id p ≡ returned tt p' → Led l store contract_id p p'
  unfolding process_slot_leader result
  process_slot_leader-Led h =
      let (config_status, a, h1) = expect-returned (get_elem? p.results 1) _ p tt p' h in
      let (config_bytes, b, h2) = bytes_of-returned config_status _ p tt p' h1 in
      let (config, c, h3) = expect-returned (l.config_from_json config_bytes) _ p tt p' h2 in
      let (number_status, d, h4) = expect-returned (get_elem? p.results 2) _ p tt p' h3 in
      let (number_bytes, e, h5) = bytes_of-returned number_status _ p tt p' h4 in
      let (encoded, f, h6) = expect-returned (l.string_from_json number_bytes) _ p tt p' h5 in
      let (number, g, h7) = expect-returned (l.u256_from_dec_str encoded) _ p tt p' h6 in
      record {
        config_bytes = config_bytes;
        config = config;
        config_given = a ∙ ap (λ x. some x) b;
        config_read = c;
        posts = post_if_complete-Posts config.committee_size number h7;
      }

-- The bytes of a key of the shared memory.
abbrev pub shared_bytes : Program → String → List ℕ
shared_bytes p key = unwrap_or (p.shared_memory key) []

-- A step that returned: what it read, how it processed the batch, and what it did as a leader.
pub record Stepped (l : Libraries) (p p' : Program) : Type 0 where
  pub contract_id : String
  pub store : BatchSignatureStore
  pub root_bytes : List ℕ
  pub root : ComputeMerkleRootResult
  pub store' : BatchSignatureStore
  pub between : Program
  pub contract_read : l.from_utf8 (shared_bytes p "contract_id") ≡ some contract_id
  pub stored : get_or_create_batch_signature_store l batch_signature_store_key p ≡ returned store p
  pub root_given : get_elem? p.results 0 ≡ some (fulfilled (some root_bytes))
  pub root_read : l.root_from_json root_bytes ≡ some root
  pub processed :
      process_batch l root store
        (shared_bytes p "ed25519_public_key")
        (shared_bytes p "bn254_public_key")
        p
      ≡ returned store' between
  pub leads :
      root.current_slot_leader ≡ some (l.hex_encode (shared_bytes p "ed25519_public_key"))
      → Led l store' contract_id between p'
  pub follows :
      root.current_slot_leader ≢ some (l.hex_encode (shared_bytes p "ed25519_public_key"))
      → p' ≡ between

module _ (l : Libraries) where
  get_or_create-same :
      {B : Type 0} (key : String) (f : BatchSignatureStore → Run B) (p : Program) (b : B)
      (p' : Program)
      → bind (get_or_create_batch_signature_store l key p) f ≡ returned b p'
      → (store : BatchSignatureStore) × (get_or_create_batch_signature_store l key p
          ≡ returned store p)
        × (f store p ≡ returned b p')
  unfolding get_or_create_batch_signature_store
  get_or_create-same key f p b p' h = elim (Option-cases (p.shared_memory key)) [
    | inl missing ↦ rw missing (default, refl, rw missing at h)
    | inr (bytes, found) ↦
        let (store, decoded, rest) =
          expect-returned (l.store_from_json bytes) f p b p' (rw found at h) in
        (store, rw (found, decoded) refl, rest)
  ]

  lead-leads :
      (leader : Option String) (account : String) (store : BatchSignatureStore)
      (contract_id : String) (p p' : Program)
      → lead l leader account store contract_id p ≡ returned tt p'
      → (leader ≡ some account → Led l store contract_id p p') × (leader ≢ some account → p' ≡ p)
  lead-leads none account store contract_id p p' h =
      (λ e. cc, λ n. sym (returned-injective tt tt p p' h))
  lead-leads (some leader) account store contract_id p p' h =
      elim (Bool-cases (leader == account)) [
        | inl same ↦ (
          λ e. process_slot_leader-Led l store contract_id p p' (rw same at h),
          λ n. absurd (n (ap (λ x. some x) (==-eq leader account same))),
        )
        | inr other ↦ (
          λ e. cc (sym other ∙ (string_eq.beq_iff leader account).1 (cc e)),
          λ n. sym (returned-injective tt tt p p' (rw other at h)),
        )
      ]

  -- A tick's step that returned read a store, a contract and a root, and processed the batch. A node
  -- that is not the slot's leader did nothing more; the leader posted the signatures of the store that
  -- the processing handed on if there are exactly as many as the committee has members, and nothing else.
  pub batch_step_1-Stepped : (p p' : Program) → batch_step_1 l p ≡ returned tt p' → Stepped l p p'
  unfolding batch_step_1 shared_memory_get result
  batch_step_1-Stepped p p' h =
      let (contract_id, a, h1) =
        expect-returned (l.from_utf8 (shared_bytes p "contract_id")) _ p tt p' h in
      let (store, b, h2) = get_or_create-same batch_signature_store_key _ p tt p' h1 in
      let (status, c, h3) = expect-returned (get_elem? p.results 0) _ p tt p' h2 in
      let (root_bytes, d, h4) = bytes_of-returned status _ p tt p' h3 in
      let (root, e, h5) = expect-returned (l.root_from_json root_bytes) _ p tt p' h4 in
      let (store', between, f, h6) =
        bind-returned
          (process_batch l root store (shared_bytes p "ed25519_public_key")
            (shared_bytes p "bn254_public_key") p)
          _ tt p' h5 in
      let (leads, follows) =
        lead-leads root.current_slot_leader (l.hex_encode (shared_bytes p "ed25519_public_key"))
          store' contract_id between p' h6 in
      record {
        contract_id = contract_id;
        store = store;
        root_bytes = root_bytes;
        root = root;
        store' = store';
        between = between;
        contract_read = a;
        stored = b;
        root_given = c ∙ ap (λ x. some x) d;
        root_read = e;
        processed = f;
        leads = leads;
        follows = follows;
      }
