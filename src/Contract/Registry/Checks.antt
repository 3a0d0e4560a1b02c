-- ===== src/Contract/Registry/Checks.antt =====
-- When a withdrawal passes its checks, and what the books hold after a deposit.
use seda_rust.Base.{
  ℕ, ◌≤◌, ◌<◌, none, some, ◌≡◌, ◌↔◌, ◌⊎◌, inl, inr, ◌∷◌, ◌∙◌, sym, ap, subst, arith, leb, ltb,
  Bool-cases, refl, bytes_eq, string_eq, put, add_u128, sub_u128, lt→ltb, le→leb, ◌==◌,
  if◌then◌else◌,
}
use seda_rust.Contract.Collections.{UnorderedMap, insert}
use seda_rust.Contract.State.{
  Env, AccountId, Bytes, Node, WithdrawRequest, World, MainchainContract,
}
use seda_rust.Contract.Results.{ok, assert, insufficient_storage, ◌>>=◌, >>=-eq-ok, ok-injective}
use seda_rust.Contract.Storage.{
  either, settle, storage_cost, require_storage_deposit, refund_storage_deposit, manage_world,
  manage_storage_deposit,
}
use seda_rust.Contract.Token.{mint}
use seda_rust.Contract.Clock.{get_current_epoch}
use seda_rust.Contract.Registry.{
  internal_get_node, withdraw_body, withdraw, get_expect_node_by_ed25519_public_key,
}
use seda_rust.Contract.Registry.Stake.{Withdrawn, withdraw_body-Withdrawn, restake, requests_of}

-- What a withdrawal needs. The amount of the request plays no part.
pub record CanWithdraw (env : Env) (amount : ℕ) (key : Bytes) (c : MainchainContract) : Type 0 where
  pub balance : ℕ
  pub account_id : AccountId
  pub node : Node
  pub depositor : UnorderedMap Bytes ℕ
  pub deposited : ℕ
  pub request : WithdrawRequest
  pub positive : 0 < amount
  pub indexed : c.nodes_by_ed25519_public_key key ≡ some account_id
  pub found : internal_get_node account_id c ≡ some node
  pub covered : amount ≤ node.balance
  pub depositor_had : c.depositors env.signer_account_id ≡ some depositor
  pub deposited_had : depositor.entry key ≡ some deposited
  pub within : amount ≤ deposited
  pub requested : requests_of key c env.signer_account_id ≡ some request
  pub due : request.epoch ≤ get_current_epoch env
  pub had : c.token.accounts env.signer_account_id ≡ some balance

module _ (env : Env) (amount : ℕ) (key : Bytes) (c : MainchainContract) where
  Withdrawn-CanWithdraw :
      {c' : MainchainContract} → Withdrawn env amount key c c' → CanWithdraw env amount key c
  Withdrawn-CanWithdraw d = record {
    balance = d.balance;
    account_id = d.account_id;
    node = d.node;
    depositor = d.depositor;
    deposited = d.deposited;
    request = d.request;
    positive = d.positive;
    indexed = d.indexed;
    found = d.found;
    covered = d.covered;
    depositor_had = d.depositor_had;
    deposited_had = d.deposited_had;
    within = d.within;
    requested = d.requested;
    due = d.due;
    had = d.had;
  }

  -- The contract that the withdrawal leaves.
  unfoldable pub after_withdrawal : CanWithdraw env amount key c → MainchainContract
  after_withdrawal d =
      let unstaked =
        restake env (add_u128 d.balance amount) d.account_id
          (record d.node { balance = sub_u128 d.node.balance amount }) c in
      record unstaked {
        depositors =
            put unstaked.depositors env.signer_account_id
              (insert d.depositor key (sub_u128 d.deposited amount));
        last_total_balance = sub_u128 unstaked.last_total_balance amount;
        withdraw_requests =
            put unstaked.withdraw_requests key
              (λ j. if env.signer_account_id == j then none else requests_of key c j);
      }

  CanWithdraw-withdraw_body :
      (d : CanWithdraw env amount key c) → withdraw_body env amount key c ≡ ok (after_withdrawal d)
  unfolding withdraw_body mint get_expect_node_by_ed25519_public_key internal_get_node
      after_withdrawal
  CanWithdraw-withdraw_body d =
      rw
        (
          lt→ltb 0 amount d.positive,
          d.indexed,
          d.found,
          le→leb amount d.node.balance d.covered,
          d.depositor_had,
          d.deposited_had,
          le→leb amount d.deposited d.within,
          d.requested,
          le→leb d.request.epoch (get_current_epoch env) d.due,
          d.had,
          d.indexed,
        )
        refl

-- What `settle either` asks for: no more bytes than before, or a deposit that pays for those added.
abbrev pub IsCovered : Env → MainchainContract → MainchainContract → Type 0
IsCovered env c c' =
    (env.storage_usage c' ≤ env.storage_usage c)
    ⊎ (storage_cost env (env.storage_usage c') (env.storage_usage c) ≤ env.attached_deposit)

module _ (env : Env) where
  settle-IsCovered :
      (c : MainchainContract) (w w' : World)
      → settle either env (env.storage_usage c) w ≡ ok w'
      → IsCovered env c w.contract
  unfolding settle require_storage_deposit
  settle-IsCovered c w w' h =
      elim (Bool-cases (ltb (env.storage_usage c) (env.storage_usage w.contract))) [
        | inl more ↦
            let (_, paid, _) =
              >>=-eq-ok
                (assert
                  (leb (storage_cost env (env.storage_usage w.contract) (env.storage_usage c))
                    env.attached_deposit)
                  insufficient_storage)
                _ (rw more at h) in
            inr (ground arith)
        | inr fewer ↦ inl (ground arith)
      ]

  IsCovered-settle :
      (c : MainchainContract) (w : World)
      → IsCovered env c w.contract
      → (w' : World) × (settle either env (env.storage_usage c) w ≡ ok w')
  unfolding settle require_storage_deposit refund_storage_deposit
  IsCovered-settle c w covered =
      elim (Bool-cases (ltb (env.storage_usage c) (env.storage_usage w.contract))) [
        | inl more ↦ elim covered [
          | inl fewer ↦ absurd (ground arith)
          | inr paid ↦ (w, rw (more, le→leb _ _ paid) refl)
        ]
        | inr fewer ↦ (
          record w {
            transfers =
                (
                  env.signer_account_id,
                  storage_cost env (env.storage_usage c) (env.storage_usage w.contract),
                )
                ∷ w.transfers;
          },
          rw fewer refl,
        )
      ]

  -- A withdrawal goes through exactly when the amount is positive, the node is registered and holds
  -- it, the signer has deposited at least that much to it, has a request for the node whose epoch has
  -- come, and a token account, and the contract that it leaves takes no more storage than before, or
  -- the attached deposit pays for the difference. How much the request asked for makes no difference.
  pub withdraw_iff :
      (amount : ℕ) (key : Bytes) (w : World)
      → ((w' : World) × (withdraw env amount key w ≡ ok w')) ↔ (
          (d : CanWithdraw env amount key w.contract) × IsCovered env w.contract
            (after_withdrawal env amount key w.contract d))
  unfolding withdraw manage_storage_deposit manage_world
  withdraw_iff amount key w =
      let body = withdraw_body env amount key in
      (
        (λ p.
            let (w₁, e, settled) =
              >>=-eq-ok (body w.contract >>= λ c. ok (record w { contract = c })) _ p.1 in
            let (c, e', same) = >>=-eq-ok (body w.contract) _ e in
            let d =
              Withdrawn-CanWithdraw env amount key w.contract
                (withdraw_body-Withdrawn env amount key w.contract c e') in
            let left : after_withdrawal env amount key w.contract d ≡ w₁.contract =
              ok-injective (sym (CanWithdraw-withdraw_body env amount key w.contract d) ∙ e')
              ∙ ap (λ (x : World). x.contract) (ok-injective same) in
            (
              d,
              subst (IsCovered env w.contract) (sym left)
                  (settle-IsCovered w.contract w₁ p.0 settled),
            )),
        (λ q.
            let (w', settled) =
              IsCovered-settle w.contract
                (record w { contract = after_withdrawal env amount key w.contract q.0 }) q.1 in
            (w', rw (CanWithdraw-withdraw_body env amount key w.contract q.0) settled)),
      )
