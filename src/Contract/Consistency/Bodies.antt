-- ===== src/Contract/Consistency/Bodies.antt =====
-- The bodies of the methods that change nodes keep the registry's invariant.
use seda_rust.Base.{
  ℕ, Bool, true, false, ◌≡◌, refl, sym, subst, List, [], ◌∷◌, length, arith, Option-cases,
  Bool-cases, inl, inr, add_u128, sub_u128, leb, ltb, bytes_eq, string_eq,
}
use seda_rust.Contract.Collections.{IsRemoval, remove}
use seda_rust.Contract.State.{Env, World, AccountId, Bytes, MainchainContract}
use seda_rust.Contract.Results.{ok, ok-injective, >>=-eq-ok}
use seda_rust.Contract.Storage.{either}
use seda_rust.Contract.Storage.Settlement.{contract-settle}
use seda_rust.Contract.Token.{set_account}
use seda_rust.Contract.Clock.{get_current_epoch}
use seda_rust.Contract.Registry.{
  internal_get_node, deposit_body, withdraw_body, unregister_node_body,
}
use seda_rust.Contract.Registry.Stake.{deposit_body-Deposited, withdraw_body-Withdrawn}
use seda_rust.Contract.Epoch.{
  Flow, activate, activate_all, store_committee, bootstrap, select_ahead, after_activation,
  process_epoch_body, process_epoch, eligible_nodes, returned, finished, leave,
}
use seda_rust.Contract.Consistency.{IsConsistent}
use seda_rust.Contract.Consistency.Same.{
  SameNodes-IsConsistent, set_account-SameNodes, store_committee-SameNodes,
}
use seda_rust.Contract.Consistency.Nodes.{
  handle_node_balance_update-IsConsistent, unregister-IsConsistent, activate-IsConsistent,
}

module _ (env : Env) (r : IsRemoval env.reorder) where
  pub deposit_body-IsConsistent :
      (amount : ℕ) (key : Bytes) (c c' : MainchainContract)
      → IsConsistent c
      → deposit_body env amount key c ≡ ok c'
      → IsConsistent c'
  unfolding internal_get_node set_account
  deposit_body-IsConsistent amount key c c' v h =
      let d = deposit_body-Deposited env amount key c c' h in
      let staked =
        handle_node_balance_update-IsConsistent env r d.account_id d.node
          (record d.node { balance = add_u128 d.node.balance amount })
          (set_account c env.signer_account_id (sub_u128 d.balance amount)) d.found refl refl
          (SameNodes-IsConsistent c _ (set_account-SameNodes env env.signer_account_id _ c) v) in
      subst IsConsistent (sym d.left_over) (SameNodes-IsConsistent _ _ (ground arith) staked)

  pub withdraw_body-IsConsistent :
      (amount : ℕ) (key : Bytes) (c c' : MainchainContract)
      → IsConsistent c
      → withdraw_body env amount key c ≡ ok c'
      → IsConsistent c'
  unfolding internal_get_node set_account
  withdraw_body-IsConsistent amount key c c' v h =
      let d = withdraw_body-Withdrawn env amount key c c' h in
      let unstaked =
        handle_node_balance_update-IsConsistent env r d.account_id d.node
          (record d.node { balance = sub_u128 d.node.balance amount })
          (set_account c env.signer_account_id (add_u128 d.balance amount)) d.found refl refl
          (SameNodes-IsConsistent c _ (set_account-SameNodes env env.signer_account_id _ c) v) in
      subst IsConsistent (sym d.left_over) (SameNodes-IsConsistent _ _ (ground arith) unstaked)

  pub unregister_node_body-IsConsistent :
      (key : Bytes) (c c' : MainchainContract)
      → IsConsistent c
      → unregister_node_body env key c ≡ ok c'
      → IsConsistent c'
  unfolding unregister_node_body
  unregister_node_body-IsConsistent key c c' v h =
      elim (Option-cases (c.nodes_by_ed25519_public_key key)) [
        | inl e ↦ SameNodes-IsConsistent c c' (ground arith) v
        | inr (id, indexed) ↦
            SameNodes-IsConsistent
              (record c { inactive_nodes = remove env.reorder c.inactive_nodes id }) c'
              (ground arith) (unregister-IsConsistent env r id c v)
      ]

  pub activate_all-IsConsistent :
      (ids : List AccountId) (c c' : MainchainContract)
      → IsConsistent c
      → activate_all env ids c ≡ ok c'
      → IsConsistent c'
  unfolding activate_all
  activate_all-IsConsistent [] c c' v h = subst IsConsistent (ok-injective h) v
  activate_all-IsConsistent (id ∷ ids) c c' v h =
      let (c₁, e, rest) = >>=-eq-ok (activate env id c) _ h in
      activate_all-IsConsistent ids c₁ c' (activate-IsConsistent env r id c c₁ e v) rest

  pub store_committee-IsConsistent :
      (epoch : ℕ) (c c' : MainchainContract)
      → IsConsistent c
      → store_committee env epoch c ≡ ok c'
      → IsConsistent c'
  store_committee-IsConsistent epoch c c' v h =
      SameNodes-IsConsistent c c' (store_committee-SameNodes env epoch c c' h) v

  pub select_ahead-IsConsistent :
      (epoch : ℕ) (c c' : MainchainContract) (flow : Flow)
      → IsConsistent c
      → select_ahead env epoch c ≡ ok (flow, c')
      → IsConsistent c'
  unfolding select_ahead
  select_ahead-IsConsistent epoch c c' flow v h =
      let (c₁, e, rest) = >>=-eq-ok _ _ h in
      SameNodes-IsConsistent c₁ c' (ground arith) (store_committee-IsConsistent _ c c₁ v e)

  pub bootstrap-IsConsistent :
      (epoch : ℕ) (c c' : MainchainContract)
      → IsConsistent c
      → bootstrap env epoch c ≡ ok c'
      → IsConsistent c'
  unfolding bootstrap
  bootstrap-IsConsistent epoch c c' v h =
      let (c₁, e, rest) = >>=-eq-ok _ _ h in
      store_committee-IsConsistent _ c₁ c'
        (store_committee-IsConsistent _ _ c₁ (SameNodes-IsConsistent c _ (ground arith) v) e) rest

  pub after_activation-IsConsistent :
      (phase : Bool) (epoch : ℕ) (c c' : MainchainContract) (flow : Flow)
      → IsConsistent c
      → after_activation phase env epoch c ≡ ok (flow, c')
      → IsConsistent c'
  unfolding after_activation
  after_activation-IsConsistent false epoch c c' flow v h =
      select_ahead-IsConsistent epoch c c' flow v h
  after_activation-IsConsistent true epoch c c' flow v h =
      elim (Bool-cases (ltb (length c.active_nodes.keys) c.config.committee_size)) [
        | inl few ↦ SameNodes-IsConsistent c c' (ground arith) v
        | inr enough ↦
            let (c₁, e, rest) = >>=-eq-ok (bootstrap env epoch c) _ (rw enough at h) in
            select_ahead-IsConsistent epoch c₁ c' flow (bootstrap-IsConsistent epoch c c₁ v e) rest
      ]

  pub process_epoch_body-IsConsistent :
      (c c' : MainchainContract) (flow : Flow)
      → IsConsistent c
      → process_epoch_body env c ≡ ok (flow, c')
      → IsConsistent c'
  unfolding process_epoch_body
  process_epoch_body-IsConsistent c c' flow v h =
      elim (Bool-cases (leb (get_current_epoch env) c.last_processed_epoch)) [
        | inl done ↦ SameNodes-IsConsistent c c' (ground arith) v
        | inr due ↦
            let (c₁, e, rest) =
              >>=-eq-ok
                (activate_all env
                  (eligible_nodes (get_current_epoch env) c.pending_nodes.entry
                    c.pending_nodes.keys)
                  c)
                _ (rw due at h) in
            after_activation-IsConsistent c₁.bootstrapping_phase _ c₁ c' flow
              (activate_all-IsConsistent _ c c₁ v e) rest
      ]

  pub process_epoch-IsConsistent :
      (w w' : World)
      → IsConsistent w.contract
      → process_epoch env w ≡ ok w'
      → IsConsistent w'.contract
  unfolding process_epoch
  process_epoch-IsConsistent w w' v h =
      let ((flow, c), e, rest) = >>=-eq-ok (process_epoch_body env w.contract) _ h in
      left flow c rest (process_epoch_body-IsConsistent w.contract c flow v e)
    where
      left :
          (flow : Flow) (c : MainchainContract)
          → leave env (env.storage_usage w.contract) flow (record w { contract = c }) ≡ ok w'
          → IsConsistent c
          → IsConsistent w'.contract
      left returned c h v = subst (λ (x : World). IsConsistent x.contract) (ok-injective h) v
      left finished c h v =
          subst IsConsistent (sym (contract-settle either env _ (record w { contract = c }) w' h)) v
