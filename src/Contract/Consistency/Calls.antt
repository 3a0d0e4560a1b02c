-- ===== src/Contract/Consistency/Calls.antt =====
-- Every method of the contract keeps the registry's invariant, so every history of calls does.
use seda_rust.Base.{
  ℕ, Bool, not, none, subst, ◌≡◌, refl, List, [], ◌∷◌, All, arith, Option-cases, inl, inr, String,
  bytes_eq, string_eq,
}
use seda_rust.Contract.Collections.{IsRemoval, empty-IsKeyed}
use seda_rust.Contract.State.{
  Env, World, AccountId, Bytes, Node, UpdateNode, set_socket_address, FungibleToken,
  MainchainContract,
}
use seda_rust.Contract.Results.{
  Result, ok, panic, attempt, >>=-eq-ok, assert, already_initialized, invalid_dao, ok-injective,
}
use seda_rust.Contract.Init.{new}
use seda_rust.Contract.Storage.{manage_storage_deposit, require, refund, either}
use seda_rust.Contract.Storage.Settlement.{manage_ensures, manage_world_ensures}
use seda_rust.Contract.Dao.{update_config}
use seda_rust.Contract.Registry.{
  register_node_body, internal_get_node, deposit, withdraw, request_withdraw_body, request_withdraw,
  cancel_withdraw_request, register_node, unregister_node, update_node, get_expect_node,
}
use seda_rust.Contract.Epoch.{process_epoch}
use seda_rust.Contract.DataRequests.{post_data_request_body, post_data_request}
use seda_rust.Contract.Batches.{
  check_leader, check_signers, store_batch, post_batch_body, post_signed_batch,
}
use seda_rust.Contract.Consistency.{IsConsistent}
use seda_rust.Contract.Consistency.Same.{
  SameNodes-IsConsistent, request_withdraw_body-SameNodes, cancel_withdraw_request_body-SameNodes,
  check_leader-SameNodes,
}
use seda_rust.Contract.Consistency.Nodes.{
  update_node_body-IsConsistent, register_node_body-IsConsistent,
}
use seda_rust.Contract.Calls.{
  Call, registers, unregisters, cancels, updates, deposits, requests, withdraws, processes_epoch,
  posts_request, posts_batch, configures, moves_tokens, step, run,
}
use seda_rust.Contract.Consistency.Bodies.{
  deposit_body-IsConsistent, withdraw_body-IsConsistent, unregister_node_body-IsConsistent,
  process_epoch-IsConsistent,
}

-- What `register_node` and `update_node` had checked when they came to the settled body.
record Registering (env : Env) (node : Node) (w w' : World) : Type 0 where
  bn254_is_new : w.contract.nodes_by_bn254_public_key node.bn254_public_key ≡ none
  ed25519_is_new : w.contract.nodes_by_ed25519_public_key node.ed25519_public_key ≡ none
  registered : manage_storage_deposit require env (register_node_body env node) w ≡ ok w'

register_node-Registering :
    (env : Env) (multi_addr : String) (key signature : Bytes) (w w' : World)
    → register_node env multi_addr key signature w ≡ ok w'
    → Registering env
        (record {
          multi_addr = multi_addr;
          balance = 0;
          ed25519_public_key = env.signer_account_pk;
          bn254_public_key = key;
        })
        w
        w'
unfolding register_node
register_node-Registering env multi_addr key signature w w' h = ground arith

module _ (env : Env) (r : IsRemoval env.reorder) where
  register_node-IsConsistent :
      (multi_addr : String) (key signature : Bytes) (w w' : World)
      → IsConsistent w.contract
      → register_node env multi_addr key signature w ≡ ok w'
      → IsConsistent w'.contract
  register_node-IsConsistent multi_addr key signature w w' v h =
      let g = register_node-Registering env multi_addr key signature w w' h in
      manage_ensures IsConsistent require env _ w w'
        (λ c e.
          register_node_body-IsConsistent env _ w.contract c g.ed25519_is_new g.bn254_is_new e v)
        g.registered

  update_node-IsConsistent :
      (command : UpdateNode) (w w' : World)
      → IsConsistent w.contract
      → update_node env command w ≡ ok w'
      → IsConsistent w'.contract
  unfolding update_node get_expect_node
  update_node-IsConsistent (set_socket_address a) w w' v h =
      elim (Option-cases (internal_get_node env.signer_account_id w.contract)) [
        | inl missing ↦ absurd (cc (rw missing at h))
        | inr (node, found) ↦
            manage_ensures IsConsistent either env _ w w'
              (λ c e.
                update_node_body-IsConsistent env.signer_account_id node
                  (record node { multi_addr = a }) w.contract c found refl refl e v)
              (rw found at h)
      ]

  request_withdraw-IsConsistent :
      (amount : ℕ) (key : Bytes) (w w' : World)
      → IsConsistent w.contract
      → step env (requests amount key) w ≡ ok w'
      → IsConsistent w'.contract
  unfolding step request_withdraw
  request_withdraw-IsConsistent amount key w w' v h =
      manage_ensures IsConsistent require env (request_withdraw_body env amount key) w w'
        (λ c e.
          SameNodes-IsConsistent w.contract c
            (request_withdraw_body-SameNodes env amount key w.contract c e) v)
        (ground arith)

  post_batch_body-IsConsistent :
      (signature key : Bytes) (signers : List AccountId) (leader_signature : Bytes) (w w' : World)
      → IsConsistent w.contract
      → post_batch_body env signature key signers leader_signature w ≡ ok w'
      → IsConsistent w'.contract
  unfolding post_batch_body store_batch
  post_batch_body-IsConsistent signature key signers leader_signature w w' v h =
      let (w₁, e₁, h₁) = >>=-eq-ok (process_epoch env w) _ h in
      let (c, e₂, h₂) = >>=-eq-ok (check_leader env leader_signature w₁.contract) _ h₁ in
      let (root, e₃, h₃) = >>=-eq-ok (check_signers env signature key signers c) _ h₂ in
      let kept =
        SameNodes-IsConsistent w₁.contract c
          (check_leader-SameNodes env leader_signature w₁.contract c e₂)
          (process_epoch-IsConsistent env r w w₁ v e₁) in
      SameNodes-IsConsistent c w'.contract (ground arith) kept

  pub step-IsConsistent :
      (call : Call) (w w' : World)
      → IsConsistent w.contract
      → step env call w ≡ ok w'
      → IsConsistent w'.contract
  unfolding step deposit withdraw unregister_node cancel_withdraw_request post_data_request
      post_data_request_body post_signed_batch update_config
  step-IsConsistent (registers multi_addr key signature) w w' v h =
      register_node-IsConsistent multi_addr key signature w w' v h
  step-IsConsistent (unregisters key) w w' v h =
      manage_ensures IsConsistent refund env _ w w'
        (λ c e. unregister_node_body-IsConsistent env r key w.contract c v e) h
  step-IsConsistent (cancels key) w w' v h =
      manage_ensures IsConsistent either env _ w w'
        (λ c e.
          SameNodes-IsConsistent w.contract c
            (cancel_withdraw_request_body-SameNodes env key w.contract c e) v)
        h
  step-IsConsistent (updates command) w w' v h = update_node-IsConsistent command w w' v h
  step-IsConsistent (deposits amount key) w w' v h =
      manage_ensures IsConsistent require env _ w w'
        (λ c e. deposit_body-IsConsistent env r amount key w.contract c v e) h
  step-IsConsistent (requests amount key) w w' v h =
      request_withdraw-IsConsistent amount key w w' v (unfold step in h)
  step-IsConsistent (withdraws amount key) w w' v h =
      manage_ensures IsConsistent either env _ w w'
        (λ c e. withdraw_body-IsConsistent env r amount key w.contract c v e) h
  step-IsConsistent processes_epoch w w' v h = process_epoch-IsConsistent env r w w' v h
  step-IsConsistent (posts_request data_request) w w' v h =
      manage_ensures IsConsistent require env _ w w'
        (λ c e. SameNodes-IsConsistent w.contract c (ground arith) v) h
  step-IsConsistent (posts_batch signature key signers leader_signature) w w' v h =
      manage_world_ensures IsConsistent either env _ w w'
        (λ w₁ e. post_batch_body-IsConsistent signature key signers leader_signature w w₁ v e) h
  step-IsConsistent (configures key value) w w' v h =
      SameNodes-IsConsistent w.contract w'.contract (ground arith) v
  step-IsConsistent (moves_tokens token) w w' v h =
      SameNodes-IsConsistent w.contract w'.contract (ground arith) v

attempt_keeps :
    (P : World → Type 0) (w : World) (r : Result World)
    → P w
    → ((w' : World) → r ≡ ok w' → P w')
    → P (attempt w r)
attempt_keeps P w (ok w') p q = q w' refl
attempt_keeps P w (panic m) p q = p

run_keeps :
    (calls : List (Env × Call)) (w : World)
    → All (λ (c : Env × Call). IsRemoval c.0.reorder) calls
    → IsConsistent w.contract
    → IsConsistent (run calls w).contract
unfolding run
run_keeps [] w r v = v
run_keeps ((env, call) ∷ calls) w r v = run_keeps calls (attempt w (step env call w)) r.1 (
    attempt_keeps (λ w. IsConsistent w.contract) w (step env call w) v
      (λ w' e. step-IsConsistent env r.0 call w w' v e))

-- The token's library, and the arguments of the constructor.
module _ (state_exists : Bool) (is_valid_account_id : AccountId → Bool)
    (assert_metadata : Result (Unit {0})) (new_token : FungibleToken)
    (internal_register_account : AccountId → FungibleToken → Result FungibleToken)
    (internal_deposit : AccountId → ℕ → FungibleToken → Result FungibleToken) (dao : AccountId)
    (initial_supply committee_size random_seed : ℕ) where
  abbrev pub created : Result MainchainContract
  created =
      new state_exists is_valid_account_id assert_metadata new_token internal_register_account
        internal_deposit dao initial_supply committee_size random_seed

  new-IsConsistent : (c : MainchainContract) → created ≡ ok c → IsConsistent c
  unfolding new
  new-IsConsistent c h =
      let (_, _, h₁) = >>=-eq-ok (assert (not state_exists) already_initialized) _ h in
      let (_, _, h₂) = >>=-eq-ok (assert (is_valid_account_id dao) invalid_dao) _ h₁ in
      let (_, _, h₃) = >>=-eq-ok assert_metadata _ h₂ in
      let (registered, _, h₄) = >>=-eq-ok (internal_register_account dao new_token) _ h₃ in
      let (token, _, h₅) = >>=-eq-ok (internal_deposit dao initial_supply registered) _ h₄ in
      subst IsConsistent (ok-injective h₅) (record {
        active_keyed = empty-IsKeyed;
        inactive_keyed = empty-IsKeyed;
        pending_keyed = empty-IsKeyed;
        active_ed25519 = λ id node e. cc;
        inactive_ed25519 = λ id node e. cc;
        active_bn254 = λ id node e. cc;
        inactive_bn254 = λ id node e. cc;
      })

  -- A contract that the constructor returned, after any history of calls, of any signers at any blocks
  -- and with any panics: the maps of active, inactive and pending nodes list their keys once each, and
  -- for every active or inactive node the index of each of its two public keys gives the account under
  -- which the node stands. The platform is assumed to remove a key from a map and no other.
  pub run-IsConsistent :
      (c : MainchainContract) (transfers : List (AccountId × ℕ)) (calls : List (Env × Call))
      → created ≡ ok c
      → All (λ (call : Env × Call). IsRemoval call.0.reorder) calls
      → IsConsistent (run calls (record { contract = c; transfers = transfers })).contract
  run-IsConsistent c transfers calls h r =
      run_keeps calls (record { contract = c; transfers = transfers }) r (new-IsConsistent c h)
