-- ===== src/Contract/Dao/History.antt =====
-- Who changes the configuration (contracts/src/dao.rs), over histories of calls.
use seda_rust.Base.{
  ℕ, ◌≡◌, refl, sym, ap, ◌∙◌, subst, arith, Bool, true, false, List, [], ◌∷◌, string_eq, bytes_eq,
  nat_eq, ◌==◌, All, leb, Bool-cases, inl, inr,
}
use seda_rust.Contract.State.{Env, World, AccountId, Bytes, Node, MainchainContract}
use seda_rust.Contract.Results.{Result, ok, panic, attempt, >>=-eq-ok, ok-injective}
use seda_rust.Contract.Storage.{require, refund, either}
use seda_rust.Contract.Storage.Settlement.{manage_ensures, manage_world_ensures}
use seda_rust.Contract.Token.{mint, burn}
use seda_rust.Contract.Clock.{get_current_epoch}
use seda_rust.Contract.Dao.{update_config, assert_dao}
use seda_rust.Contract.Registry.{
  get_expect_node_by_ed25519_public_key, get_expect_node, handle_node_balance_update, deposit_body,
  request_withdraw_body, cancel_withdraw_request_body, withdraw_body, register_node_body,
  unregister_node_body, update_node_body, deposit, withdraw, unregister_node, request_withdraw,
  cancel_withdraw_request, register_node, update_node,
}
use seda_rust.Contract.Epoch.{
  Flow, process_epoch, process_epoch_body, activate, activate_all, after_activation, bootstrap,
  select_ahead, store_committee, eligible_nodes,
}
use seda_rust.Contract.Epoch.Progress.{contract-leave}
use seda_rust.Contract.DataRequests.{post_data_request_body, post_data_request}
use seda_rust.Contract.Batches.{
  check_leader, check_signers, store_batch, post_batch_body, post_signed_batch,
}
use seda_rust.Contract.Calls.{
  Call, registers, unregisters, cancels, updates, deposits, requests, withdraws, processes_epoch,
  posts_request, posts_batch, configures, moves_tokens, step, run,
}

-- The configuration and the account that may change it.
abbrev pub SameRules : MainchainContract → MainchainContract → Type 0
SameRules c c' = (c'.config ≡ c.config) × (c'.dao ≡ c.dao)

-- A call by which the account asks to change the configuration.
unfoldable pub configures_as : AccountId → Env → Call → Bool
configures_as dao env (configures key value) = env.signer_account_id == dao
configures_as dao env call = false

deposit_body-SameRules :
    (env : Env) (amount : ℕ) (key : Bytes) (c c' : MainchainContract)
    → deposit_body env amount key c ≡ ok c'
    → SameRules c c'
unfolding deposit_body burn handle_node_balance_update
deposit_body-SameRules env amount key c c' h = ground arith

withdraw_body-SameRules :
    (env : Env) (amount : ℕ) (key : Bytes) (c c' : MainchainContract)
    → withdraw_body env amount key c ≡ ok c'
    → SameRules c c'
unfolding withdraw_body mint handle_node_balance_update
withdraw_body-SameRules env amount key c c' h = ground arith

request_withdraw_body-SameRules :
    (env : Env) (amount : ℕ) (key : Bytes) (c c' : MainchainContract)
    → request_withdraw_body env amount key c ≡ ok c'
    → SameRules c c'
unfolding request_withdraw_body get_expect_node_by_ed25519_public_key
request_withdraw_body-SameRules env amount key c c' h = ground arith

cancel_withdraw_request_body-SameRules :
    (env : Env) (key : Bytes) (c c' : MainchainContract)
    → cancel_withdraw_request_body env key c ≡ ok c'
    → SameRules c c'
unfolding cancel_withdraw_request_body
cancel_withdraw_request_body-SameRules env key c c' h = ground arith

register_node_body-SameRules :
    (env : Env) (node : Node) (c c' : MainchainContract)
    → register_node_body env node c ≡ ok c'
    → SameRules c c'
unfolding register_node_body
register_node_body-SameRules env node c c' h = ground arith

unregister_node_body-SameRules :
    (env : Env) (key : Bytes) (c c' : MainchainContract)
    → unregister_node_body env key c ≡ ok c'
    → SameRules c c'
unfolding unregister_node_body
unregister_node_body-SameRules env key c c' h = ground arith

check_leader-SameRules :
    (env : Env) (signature : Bytes) (c c' : MainchainContract)
    → check_leader env signature c ≡ ok c'
    → SameRules c c'
unfolding check_leader
check_leader-SameRules env signature c c' h = ground arith

activate_all-SameRules :
    (env : Env) (ids : List AccountId) (c c' : MainchainContract)
    → activate_all env ids c ≡ ok c'
    → SameRules c c'
unfolding activate_all activate
activate_all-SameRules env [] c c' h = ground arith
activate_all-SameRules env (id ∷ ids) c c' h =
    let (c₁, e, rest) = >>=-eq-ok (activate env id c) _ h in
    let (n, a) = activate_all-SameRules env ids c₁ c' rest in (n ∙ ground arith, a ∙ ground arith)

after_activation-SameRules :
    (phase : Bool) (env : Env) (epoch : ℕ) (c c' : MainchainContract) (flow : Flow)
    → after_activation phase env epoch c ≡ ok (flow, c')
    → SameRules c c'
unfolding after_activation bootstrap select_ahead store_committee
after_activation-SameRules true env epoch c c' flow h = ground arith
after_activation-SameRules false env epoch c c' flow h = ground arith

process_epoch-SameRules :
    (env : Env) (w w' : World) → process_epoch env w ≡ ok w' → SameRules w.contract w'.contract
unfolding process_epoch process_epoch_body
process_epoch-SameRules env w w' h =
    let ((flow, c), e, rest) = >>=-eq-ok (process_epoch_body env w.contract) _ h in
    let kept = contract-leave env _ flow (record w { contract = c }) w' rest in
    let epoch = get_current_epoch env in
    elim (Bool-cases (leb epoch w.contract.last_processed_epoch)) [
      | inl done ↦
          let same : w.contract ≡ c =
            ap (λ (p : Flow × MainchainContract). p.1) (ok-injective (rw done at e)) in
          (rw (kept, ← same) refl, rw (kept, ← same) refl)
      | inr due ↦
          let ids =
            eligible_nodes epoch w.contract.pending_nodes.entry w.contract.pending_nodes.keys in
          let (c₁, first, second) = >>=-eq-ok (activate_all env ids w.contract) _ (rw due at e) in
          let (n, a) = activate_all-SameRules env ids w.contract c₁ first in
          let (m, b) =
            after_activation-SameRules c₁.bootstrapping_phase env epoch c₁ c flow second in
          (rw (kept) (m ∙ n), rw (kept) (b ∙ a))
    ]

update_node_body-SameRules :
    (id : AccountId) (node : Node) (c c' : MainchainContract)
    → update_node_body id node c ≡ ok c'
    → SameRules c c'
unfolding update_node_body
update_node_body-SameRules id node c c' h = ground arith

post_batch_body-SameRules :
    (env : Env) (signature key : Bytes) (signers : List AccountId) (leader_signature : Bytes)
    (w w' : World)
    → post_batch_body env signature key signers leader_signature w ≡ ok w'
    → SameRules w.contract w'.contract
unfolding post_batch_body store_batch
post_batch_body-SameRules env signature key signers leader_signature w w' h =
    let (w₁, e₁, h₁) = >>=-eq-ok (process_epoch env w) _ h in
    let (c, e₂, h₂) = >>=-eq-ok (check_leader env leader_signature w₁.contract) _ h₁ in
    let (root, e₃, h₃) = >>=-eq-ok (check_signers env signature key signers c) _ h₂ in
    let (n, a) = process_epoch-SameRules env w w₁ e₁ in
    let (m, b) = check_leader-SameRules env leader_signature w₁.contract c e₂ in
    ((ground arith) ∙ m ∙ n, (ground arith) ∙ b ∙ a)

step-SameRules :
    (env : Env) (call : Call) (w w' : World)
    → configures_as w.contract.dao env call ≡ false
    → step env call w ≡ ok w'
    → SameRules w.contract w'.contract
unfolding step register_node update_node get_expect_node deposit withdraw unregister_node
    cancel_withdraw_request request_withdraw post_data_request post_data_request_body
    post_signed_batch update_config configures_as assert_dao
step-SameRules env (registers multi_addr key signature) w w' n h =
    let node : Node = record {
      multi_addr = multi_addr;
      balance = 0;
      ed25519_public_key = env.signer_account_pk;
      bn254_public_key = key;
    } in
    manage_ensures (SameRules w.contract) require env (register_node_body env node) w w'
      (λ c e. register_node_body-SameRules env node w.contract c e) (ground arith)
step-SameRules env (unregisters key) w w' n h =
    manage_ensures (SameRules w.contract) refund env _ w w'
      (λ c e. unregister_node_body-SameRules env key w.contract c e) h
step-SameRules env (cancels key) w w' n h =
    manage_ensures (SameRules w.contract) either env _ w w'
      (λ c e. cancel_withdraw_request_body-SameRules env key w.contract c e) h
step-SameRules env (updates command) w w' n h =
    let (node, found, rest) = >>=-eq-ok (get_expect_node env.signer_account_id w.contract) _ h in
    manage_ensures (SameRules w.contract) either env _ w w'
      (λ c e. update_node_body-SameRules env.signer_account_id _ w.contract c e) rest
step-SameRules env (deposits amount key) w w' n h =
    manage_ensures (SameRules w.contract) require env _ w w'
      (λ c e. deposit_body-SameRules env amount key w.contract c e) h
step-SameRules env (requests amount key) w w' n h =
    manage_ensures (SameRules w.contract) require env (request_withdraw_body env amount key) w w'
      (λ c e. request_withdraw_body-SameRules env amount key w.contract c e) (ground arith)
step-SameRules env (withdraws amount key) w w' n h =
    manage_ensures (SameRules w.contract) either env _ w w'
      (λ c e. withdraw_body-SameRules env amount key w.contract c e) h
step-SameRules env processes_epoch w w' n h = process_epoch-SameRules env w w' h
step-SameRules env (posts_request data_request) w w' n h =
    manage_ensures (SameRules w.contract) require env _ w w' (λ c e. ground arith) h
step-SameRules env (posts_batch signature key signers leader_signature) w w' n h =
    manage_world_ensures (SameRules w.contract) either env _ w w'
      (λ w₁ e. post_batch_body-SameRules env signature key signers leader_signature w w₁ e) h
step-SameRules env (configures key value) w w' n h = ground arith
step-SameRules env (moves_tokens token) w w' n h = ground arith

attempt-SameRules :
    (env : Env) (call : Call) (w : World) (r : Result World)
    → configures_as w.contract.dao env call ≡ false
    → step env call w ≡ r
    → SameRules w.contract (attempt w r).contract
attempt-SameRules env call w (ok w') n h = step-SameRules env call w w' n h
attempt-SameRules env call w (panic m) n h = (refl, refl)

-- Over any history of calls, with any panics, in which no call that changes the configuration is
-- signed by the DAO's account, the configuration and the DAO's account stay as they were.
pub run-SameRules :
    (calls : List (Env × Call)) (w : World)
    → All (λ (c : Env × Call). configures_as w.contract.dao c.0 c.1 ≡ false) calls
    → SameRules w.contract (run calls w).contract
unfolding run
run-SameRules [] w n = (refl, refl)
run-SameRules ((env, call) ∷ calls) w n =
    let w' = attempt w (step env call w) in
    let (same, dao) = attempt-SameRules env call w (step env call w) n.0 refl in
    let (later, later_dao) = run-SameRules calls w' (
      subst (λ d. All (λ (c : Env × Call). configures_as d c.0 c.1 ≡ false) calls) (sym dao) n.1) in
    (later ∙ same, later_dao ∙ dao)
