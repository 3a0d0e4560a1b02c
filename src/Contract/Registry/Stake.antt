-- ===== src/Contract/Registry/Stake.antt =====
-- What a deposit and a withdrawal that succeed did: every intermediate value that the code computed,
-- and the contract that it left.
use seda_rust.Base.{
  ℕ, true, Option, none, some, ◌≡◌, ◌≤◌, ◌<◌, string_eq, bytes_eq, put, delete, unwrap_or,
  Bool-cases, Option-cases, inl, inr, leb, ltb, leb→le, ltb→lt, add_u128, sub_u128, sym,
}
use seda_rust.Contract.Collections.{insert, empty, UnorderedMap}
use seda_rust.Contract.State.{Env, AccountId, Bytes, Node, WithdrawRequest, MainchainContract}
use seda_rust.Contract.Results.{ok, ok-injective}
use seda_rust.Contract.Token.{set_account, mint, burn}
use seda_rust.Contract.Clock.{get_current_epoch}
use seda_rust.Contract.Registry.{
  internal_get_node, get_expect_node_by_ed25519_public_key, handle_node_balance_update,
  deposit_body, withdraw_body,
}

-- The contract after the token balance and then the node's balance were written.
abbrev pub restake : Env → ℕ → AccountId → Node → MainchainContract → MainchainContract
restake env token_balance account_id node c =
    handle_node_balance_update env account_id node
      (set_account c env.signer_account_id token_balance)

pub record Deposited (env : Env) (amount : ℕ) (key : Bytes) (c c' : MainchainContract)
    : Type 0 where
  pub balance : ℕ
  pub account_id : AccountId
  pub node : Node
  pub had : c.token.accounts env.signer_account_id ≡ some balance
  pub indexed : c.nodes_by_ed25519_public_key key ≡ some account_id
  pub found : internal_get_node account_id c ≡ some node
  pub left_over :
      let staked =
        restake env
          (sub_u128 balance amount)
          account_id
          (record node { balance = add_u128 node.balance amount })
          c in
      c' ≡ record staked {
        depositors =
            put staked.depositors env.signer_account_id
              (insert (unwrap_or (staked.depositors env.signer_account_id) empty) key amount);
        last_total_balance = add_u128 staked.last_total_balance amount;
      }

pub deposit_body-Deposited :
    (env : Env) (amount : ℕ) (key : Bytes) (c c' : MainchainContract)
    → deposit_body env amount key c ≡ ok c'
    → Deposited env amount key c c'
unfolding deposit_body burn get_expect_node_by_ed25519_public_key internal_get_node
deposit_body-Deposited env amount key c c' h =
    elim (Option-cases (c.token.accounts env.signer_account_id)) [
      | inl e ↦ absurd (cc (rw e at h))
      | inr (balance, had) ↦ elim (Option-cases (c.nodes_by_ed25519_public_key key)) [
        | inl e ↦ absurd (cc (rw (had, e) at h))
        | inr (account_id, indexed) ↦ elim (Option-cases (internal_get_node account_id c)) [
          | inl e ↦ absurd (cc (rw (had, indexed, e) at h))
          | inr (node, found) ↦ record {
            balance = balance;
            account_id = account_id;
            node = node;
            had = had;
            indexed = indexed;
            found = found;
            left_over = sym (ok-injective (rw (had, indexed, found) at h));
          }
        ]
      ]
    ]

-- The requests of withdrawal from a node; none where nothing was ever stored.
abbrev pub requests_of : Bytes → MainchainContract → AccountId → Option WithdrawRequest
requests_of key c = unwrap_or (c.withdraw_requests key) (λ account_id. none)

pub record Withdrawn (env : Env) (amount : ℕ) (key : Bytes) (c c' : MainchainContract)
    : Type 0 where
  pub balance : ℕ
  pub account_id : AccountId
  pub node : Node
  pub depositor : UnorderedMap Bytes ℕ
  pub deposited : ℕ
  pub request : WithdrawRequest
  pub positive : 0 < amount
  pub indexed : c.nodes_by_ed25519_public_key key ≡ some account_id
  pub found : internal_get_node account_id c ≡ some node
  pub covered : amount ≤ node.balance
  pub depositor_had : c.depositors env.signer_account_id ≡ some depositor
  pub deposited_had : depositor.entry key ≡ some deposited
  pub within : amount ≤ deposited
  pub requested : requests_of key c env.signer_account_id ≡ some request
  pub due : request.epoch ≤ get_current_epoch env
  pub had : c.token.accounts env.signer_account_id ≡ some balance
  pub left_over :
      let unstaked =
        restake env
          (add_u128 balance amount)
          account_id
          (record node { balance = sub_u128 node.balance amount })
          c in
      c' ≡ record unstaked {
        depositors =
            put unstaked.depositors env.signer_account_id
              (insert depositor key (sub_u128 deposited amount));
        last_total_balance = sub_u128 unstaked.last_total_balance amount;
        withdraw_requests =
            put unstaked.withdraw_requests key (delete (requests_of key c) env.signer_account_id);
      }

module _ (env : Env) (amount : ℕ) (key : Bytes) (c c' : MainchainContract) where
  -- The last part of the inversion, below all the checks.
  withdraw_checked :
      (account_id : AccountId) (node : Node) (depositor : UnorderedMap Bytes ℕ) (deposited : ℕ)
      → c.nodes_by_ed25519_public_key key ≡ some account_id
      → internal_get_node account_id c ≡ some node
      → c.depositors env.signer_account_id ≡ some depositor
      → depositor.entry key ≡ some deposited
      → ltb 0 amount ≡ true
      → leb amount node.balance ≡ true
      → leb amount deposited ≡ true
      → withdraw_body env amount key c ≡ ok c'
      → Withdrawn env amount key c c'
  unfolding withdraw_body mint get_expect_node_by_ed25519_public_key internal_get_node
  withdraw_checked account_id node depositor deposited indexed found dh eh pos cov wit h =
      elim (Option-cases (requests_of key c env.signer_account_id)) [
        | inl e ↦ absurd (cc (rw (pos, indexed, found, cov, dh, eh, wit, e) at h))
        | inr (request, requested) ↦ elim (Bool-cases (leb request.epoch (get_current_epoch env))) [
          | inr late ↦
              absurd (cc (rw (pos, indexed, found, cov, dh, eh, wit, requested, late) at h))
          | inl due ↦ elim (Option-cases (c.token.accounts env.signer_account_id)) [
            | inl e ↦
                absurd (cc (rw (pos, indexed, found, cov, dh, eh, wit, requested, due, e) at h))
            | inr (balance, had) ↦ record {
              balance = balance;
              account_id = account_id;
              node = node;
              depositor = depositor;
              deposited = deposited;
              request = request;
              positive = ltb→lt 0 amount pos;
              indexed = indexed;
              found = found;
              covered = leb→le amount node.balance cov;
              depositor_had = dh;
              deposited_had = eh;
              within = leb→le amount deposited wit;
              requested = requested;
              due = leb→le request.epoch (get_current_epoch env) due;
              had = had;
              left_over = rw eh (
                  sym (
                    ok-injective (
                      rw (pos, indexed, found, cov, dh, eh, wit, requested, due, had, indexed) at
                        h)));
            }
          ]
        ]
      ]

  pub withdraw_body-Withdrawn :
      withdraw_body env amount key c ≡ ok c' → Withdrawn env amount key c c'
  unfolding withdraw_body get_expect_node_by_ed25519_public_key internal_get_node
  withdraw_body-Withdrawn h = elim (Bool-cases (ltb 0 amount)) [
    | inr e ↦ absurd (cc (rw e at h))
    | inl pos ↦ elim (Option-cases (c.nodes_by_ed25519_public_key key)) [
      | inl e ↦ absurd (cc (rw (pos, e) at h))
      | inr (account_id, indexed) ↦ elim (Option-cases (internal_get_node account_id c)) [
        | inl e ↦ absurd (cc (rw (pos, indexed, e) at h))
        | inr (node, found) ↦ elim (Bool-cases (leb amount node.balance)) [
          | inr e ↦ absurd (cc (rw (pos, indexed, found, e) at h))
          | inl cov ↦ elim (Option-cases (c.depositors env.signer_account_id)) [
            | inl e ↦ absurd (cc (rw (pos, indexed, found, cov, e) at h))
            | inr (depositor, dh) ↦ elim (Option-cases (depositor.entry key)) [
              | inl e ↦ absurd (cc (rw (pos, indexed, found, cov, dh, e) at h))
              | inr (deposited, eh) ↦ elim (Bool-cases (leb amount deposited)) [
                | inr e ↦ absurd (cc (rw (pos, indexed, found, cov, dh, eh, e) at h))
                | inl wit ↦
                    withdraw_checked account_id node depositor deposited indexed found dh eh pos cov
                      wit h
              ]
            ]
          ]
        ]
      ]
    ]
  ]
