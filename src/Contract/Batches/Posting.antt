-- ===== src/Contract/Batches/Posting.antt =====
-- What posting a batch, in contracts/src/batch.rs, checks and leaves.
use seda_rust.Base.{
  ℕ, ◌≡◌, refl, ap, ◌∙◌, subst, arith, Bool, true, false, some, List, [], ◌∷◌, ◌++◌, sym, contains,
  string_eq, nat_eq, bytes_eq, ◌==◌, add_u64, Bool-cases, inl, inr, leb, ==-eq, to_le_bytes,
}
use seda_rust.Contract.State.{Env, World, AccountId, Bytes, CryptoHash, Node, MainchainContract}
use seda_rust.Contract.Results.{
  ok, assert, expect, not_in_committee, unwrap_none, not_slot_leader, invalid_leader_signature,
  invalid_aggregate_public_key, invalid_aggregate_signature, >>=-eq-ok, ok-injective,
}
use seda_rust.Contract.Storage.{either}
use seda_rust.Contract.Storage.Settlement.{manage_world_ensures}
use seda_rust.Contract.Clock.{get_current_epoch, get_current_slot}
use seda_rust.Contract.Verify.{bn254_verify}
use seda_rust.Contract.Committee.{get_current_slot_leader}
use seda_rust.Contract.DataRequests.{internal_compute_merkle_root}
use seda_rust.Contract.Epoch.{
  Flow, process_epoch, process_epoch_body, activate, activate_all, after_activation, bootstrap,
  select_ahead, store_committee, eligible_nodes,
}
use seda_rust.Contract.Epoch.Progress.{contract-leave}
use seda_rust.Contract.Batches.{
  get_latest_batch_id, check_leader, signer_point, add_signers, aggregate_signers, check_signers,
  store_batch, post_batch_body, post_signed_batch, next_header,
}

-- A signer of the committee that is an active node.
abbrev pub Seated : MainchainContract → List AccountId → AccountId → Type 0
Seated c committee signer =
    (contains committee signer ≡ true) × (node : Node) × (c.active_nodes.entry signer ≡ some node)

module _ (env : Env) (c : MainchainContract) (committee : List AccountId) where
  signer_point-Seated :
      (signer : AccountId) (point : ℕ)
      → signer_point env c committee signer ≡ ok point
      → Seated c committee signer
  unfolding signer_point
  signer_point-Seated signer point h =
      let (_, member, rest) = >>=-eq-ok (assert (contains committee signer) not_in_committee) _ h in
      let (node, found, key) =
        >>=-eq-ok (expect (c.active_nodes.entry signer) unwrap_none) _ rest in
      (ground arith, node, ground arith)

  add_signers-Seated :
      (signers : List AccountId) (acc point : ℕ)
      → add_signers env c committee signers acc ≡ ok point
      → (signer : AccountId) → contains signers signer ≡ true
      → Seated c committee signer
  unfolding add_signers
  add_signers-Seated [] acc point h signer e = cc
  add_signers-Seated (s ∷ signers) acc point h signer e =
      let (p, first, rest) = >>=-eq-ok (signer_point env c committee s) _ h in
      elim (Bool-cases (s == signer)) [
        | inl same ↦
            subst (Seated c committee) (==-eq s signer same) (signer_point-Seated s p first)
        | inr other ↦
            add_signers-Seated signers (env.add_points acc p) point rest signer (ground arith)
      ]

  aggregate_signers-Seated :
      (signers : List AccountId) (point : ℕ)
      → aggregate_signers env c committee signers ≡ ok point
      → (signer : AccountId) → contains signers signer ≡ true
      → Seated c committee signer
  unfolding aggregate_signers
  aggregate_signers-Seated [] point h signer e = cc
  aggregate_signers-Seated (s ∷ signers) point h signer e =
      let (p, first, rest) = >>=-eq-ok (signer_point env c committee s) _ h in
      elim (Bool-cases (s == signer)) [
        | inl same ↦
            subst (Seated c committee) (==-eq s signer same) (signer_point-Seated s p first)
        | inr other ↦ add_signers-Seated signers p point rest signer (ground arith)
      ]

-- What `process_epoch` leaves alone of the batches.
abbrev SameBatches : MainchainContract → MainchainContract → Type 0
SameBatches c c' =
    (c'.num_batches ≡ c.num_batches) × (c'.data_request_accumulator ≡ c.data_request_accumulator)

activate_all-SameBatches :
    (env : Env) (ids : List AccountId) (c c' : MainchainContract)
    → activate_all env ids c ≡ ok c'
    → SameBatches c c'
unfolding activate_all activate
activate_all-SameBatches env [] c c' h = ground arith
activate_all-SameBatches env (id ∷ ids) c c' h =
    let (c₁, e, rest) = >>=-eq-ok (activate env id c) _ h in
    let (n, a) = activate_all-SameBatches env ids c₁ c' rest in (n ∙ ground arith, a ∙ ground arith)

after_activation-SameBatches :
    (phase : Bool) (env : Env) (epoch : ℕ) (c c' : MainchainContract) (flow : Flow)
    → after_activation phase env epoch c ≡ ok (flow, c')
    → SameBatches c c'
unfolding after_activation bootstrap select_ahead store_committee
after_activation-SameBatches true env epoch c c' flow h = ground arith
after_activation-SameBatches false env epoch c c' flow h = ground arith

process_epoch-SameBatches :
    (env : Env) (w w' : World) → process_epoch env w ≡ ok w' → SameBatches w.contract w'.contract
unfolding process_epoch process_epoch_body
process_epoch-SameBatches env w w' h =
    let ((flow, c), e, rest) = >>=-eq-ok (process_epoch_body env w.contract) _ h in
    let kept = contract-leave env _ flow (record w { contract = c }) w' rest in
    let epoch = get_current_epoch env in
    elim (Bool-cases (leb epoch w.contract.last_processed_epoch)) [
      | inl done ↦
          let same : w.contract ≡ c =
            ap (λ (p : Flow × MainchainContract). p.1) (ok-injective (rw done at e)) in
          (rw (kept, ← same) refl, rw (kept, ← same) refl)
      | inr due ↦
          let ids =
            eligible_nodes epoch w.contract.pending_nodes.entry w.contract.pending_nodes.keys in
          let (c₁, first, second) = >>=-eq-ok (activate_all env ids w.contract) _ (rw due at e) in
          let (n, a) = activate_all-SameBatches env ids w.contract c₁ first in
          let (m, b) =
            after_activation-SameBatches c₁.bootstrapping_phase env epoch c₁ c flow second in
          (rw (kept) (m ∙ n), rw (kept) (b ∙ a))
    ]

-- The contract once the leader was checked: the digest of the signature is the next random number.
abbrev pub led_by : Env → Bytes → MainchainContract → MainchainContract
led_by env leader_signature c = record c {
  last_generated_random_number =
      env.sha256 (leader_signature ++ to_le_bytes 8 (get_current_slot env));
}

-- That the signer leads the slot, is active, and has signed the last random number.
pub record Led (env : Env) (leader_signature : Bytes) (c : MainchainContract) : Type 0 where
  pub leads : get_current_slot_leader env c ≡ ok (some env.signer_account_id)
  pub node : Node
  pub active : c.active_nodes.entry env.signer_account_id ≡ some node
  pub random_signed :
      bn254_verify env
        (to_le_bytes 32 c.last_generated_random_number)
        leader_signature
        node.bn254_public_key
      ≡ ok true

-- That the signers sit in the committee of the epoch, that the key is the sum of theirs, and that the
-- signature of the root of the requests is valid under it.
pub record Signed (env : Env) (signature key : Bytes) (signers : List AccountId)
    (c : MainchainContract) (root : CryptoHash) : Type 0 where
  pub committee : List AccountId
  pub elected : c.committees (get_current_epoch env) ≡ some committee
  pub seated : (signer : AccountId) → contains signers signer ≡ true → Seated c committee signer
  pub point : ℕ
  pub summed : aggregate_signers env c committee signers ≡ ok point
  pub key_is_sum : env.to_uncompressed point ≡ some key
  pub root_of_requests : internal_compute_merkle_root env c ≡ ok root
  pub root_signed : bn254_verify env (env.hash_bytes root) signature key ≡ ok true

-- What a batch that was posted shows: its leader, its signers, and what it stored. `epoch_done` is what
-- `process_epoch` left.
pub record Posted (env : Env) (signature key : Bytes) (signers : List AccountId)
    (leader_signature : Bytes) (w : World) (c' : MainchainContract) : Type 0 where
  pub epoch_done : World
  pub processed : process_epoch env w ≡ ok epoch_done
  pub led : Led env leader_signature epoch_done.contract
  pub root : CryptoHash
  pub signed :
      Signed env signature key signers (led_by env leader_signature epoch_done.contract) root
  pub kept : c'.active_nodes ≡ epoch_done.contract.active_nodes
  pub next_random :
      c'.last_generated_random_number
      ≡ env.sha256 (leader_signature ++ to_le_bytes 8 (get_current_slot env))
  pub counted : c'.num_batches ≡ add_u64 w.contract.num_batches 1
  pub cleared : c'.data_request_accumulator ≡ []
  pub stored :
      c'.batch_by_id (get_latest_batch_id c')
      ≡ some (record {
        header = record { height = add_u64 w.contract.num_batches 1; state_root = 0 };
        transactions = w.contract.data_request_accumulator;
      })

check_leader-Led :
    (env : Env) (signature : Bytes) (c c' : MainchainContract)
    → check_leader env signature c ≡ ok c'
    → Led env signature c × (led_by env signature c ≡ c')
unfolding check_leader
check_leader-Led env signature c c' h =
    let (leader, a, h₁) = >>=-eq-ok (get_current_slot_leader env c) _ h in
    let (leader_id, b, h₂) = >>=-eq-ok (expect leader unwrap_none) _ h₁ in
    let (_, d, h₃) = >>=-eq-ok (assert (leader_id == env.signer_account_id) not_slot_leader) _ h₂ in
    let (node, found, h₄) =
      >>=-eq-ok (expect (c.active_nodes.entry env.signer_account_id) unwrap_none) _ h₃ in
    let (valid, e, h₅) =
      >>=-eq-ok
        (bn254_verify env (to_le_bytes 32 c.last_generated_random_number) signature
          node.bn254_public_key)
        _ h₄ in
    let (_, f, h₆) = >>=-eq-ok (assert valid invalid_leader_signature) _ h₅ in
    let is_leader : leader ≡ some env.signer_account_id =
      ground (arith, string_eq.beq_iff leader_id env.signer_account_id) in
    let is_valid : valid ≡ true = ground arith in
    (
      record {
        leads = a ∙ ap ok is_leader;
        node = node;
        active = ground arith;
        random_signed = e ∙ ap ok is_valid;
      },
      ok-injective h₆,
    )

check_signers-Signed :
    (env : Env) (signature key : Bytes) (signers : List AccountId) (c : MainchainContract)
    (root : CryptoHash)
    → check_signers env signature key signers c ≡ ok root
    → Signed env signature key signers c root
unfolding check_signers
check_signers-Signed env signature key signers c root h =
    let (committee, elected, h₁) =
      >>=-eq-ok (expect (c.committees (get_current_epoch env)) unwrap_none) _ h in
    let (point, added, h₂) = >>=-eq-ok (aggregate_signers env c committee signers) _ h₁ in
    let (encoded, a, h₃) = >>=-eq-ok (expect (env.to_uncompressed point) unwrap_none) _ h₂ in
    let (_, b, h₄) = >>=-eq-ok (assert (encoded == key) invalid_aggregate_public_key) _ h₃ in
    let (merkle_root, d, h₅) = >>=-eq-ok (internal_compute_merkle_root env c) _ h₄ in
    let (valid, e, h₆) =
      >>=-eq-ok (bn254_verify env (env.hash_bytes merkle_root) signature key) _ h₅ in
    let (_, f, h₇) = >>=-eq-ok (assert valid invalid_aggregate_signature) _ h₆ in
    let same = ok-injective h₇ in
    let is_valid : valid ≡ true = ground arith in
    record {
      committee = committee;
      elected = ground arith;
      seated = aggregate_signers-Seated env c committee signers point added;
      point = point;
      summed = added;
      key_is_sum = ground (arith, bytes_eq.beq_iff encoded key);
      root_of_requests = d ∙ ap ok same;
      root_signed =
          subst (λ r. bn254_verify env (env.hash_bytes r) signature key ≡ ok true) same
            (e ∙ ap ok is_valid);
    }

store_batch-stored :
    (env : Env) (root : CryptoHash) (c : MainchainContract)
    → let c' = store_batch env root c in
      c'.batch_by_id (get_latest_batch_id c')
      ≡ some (record { header = next_header c; transactions = c.data_request_accumulator })
unfolding store_batch get_latest_batch_id
store_batch-stored env root c = ground (arith, nat_eq.beq_iff)

store_batch-latest :
    (env : Env) (root : CryptoHash) (c₀ c : MainchainContract)
    → c.num_batches ≡ c₀.num_batches
    → c.data_request_accumulator ≡ c₀.data_request_accumulator
    → let c' = store_batch env root c in
      c'.batch_by_id (get_latest_batch_id c')
      ≡ some (record {
        header = record { height = add_u64 c₀.num_batches 1; state_root = 0 };
        transactions = c₀.data_request_accumulator;
      })
store_batch-latest env root c₀ c n a = rw (← n, ← a) (store_batch-stored env root c)

post_batch_body-Posted :
    (env : Env) (signature key : Bytes) (signers : List AccountId) (leader_signature : Bytes)
    (w w' : World)
    → post_batch_body env signature key signers leader_signature w ≡ ok w'
    → Posted env signature key signers leader_signature w w'.contract
unfolding post_batch_body store_batch
post_batch_body-Posted env signature key signers leader_signature w w' h =
    let (w₁, processed, h₁) = >>=-eq-ok (process_epoch env w) _ h in
    let (c, checked, h₂) = >>=-eq-ok (check_leader env leader_signature w₁.contract) _ h₁ in
    let (root, passed, h₃) = >>=-eq-ok (check_signers env signature key signers c) _ h₂ in
    let (n, a) = process_epoch-SameBatches env w w₁ processed in
    let (led, same) = check_leader-Led env leader_signature w₁.contract c checked in
    let now = led_by env leader_signature w₁.contract in
    let same' : store_batch env root now ≡ w'.contract =
      ap (store_batch env root) same ∙ ap (λ (x : World). x.contract) (ok-injective h₃) in
    subst (Posted env signature key signers leader_signature w) same' (record {
      epoch_done = w₁;
      processed = processed;
      led = led;
      root = root;
      signed =
          subst (λ x. Signed env signature key signers x root) (sym same)
            (check_signers-Signed env signature key signers c root passed);
      kept = refl;
      next_random = refl;
      counted = ap (λ i. add_u64 i 1) n;
      cleared = refl;
      stored = store_batch-latest env root w.contract now n a;
    })

pub post_signed_batch-Posted :
    (env : Env) (signature key : Bytes) (signers : List AccountId) (leader_signature : Bytes)
    (w w' : World)
    → post_signed_batch env signature key signers leader_signature w ≡ ok w'
    → Posted env signature key signers leader_signature w w'.contract
unfolding post_signed_batch
post_signed_batch-Posted env signature key signers leader_signature w w' h =
    manage_world_ensures (Posted env signature key signers leader_signature w) either env _ w w'
      (λ w₁ e. post_batch_body-Posted env signature key signers leader_signature w w₁ e) h
