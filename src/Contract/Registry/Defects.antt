-- ===== src/Contract/Registry/Defects.antt =====
-- Where the registry does not do what it means to: deposits that replace one another, tokens that
-- wrap below zero, and a second registration that erases the stake of the first.
use seda_rust.Base.{
  ℕ, ◌+◌, ◌-◌, ◌<◌, ◌≤◌, le→leb, true, Option, none, some, ◌≡◌, refl, bytes_eq, string_eq, put,
  arith, String, Bool-cases, inl, inr, add_u128, sub_u128, u128_mod, sub_u128_wraps, ◌∙◌, ap,
  put_self, leb, ltb, lt→ltb, lt→leb, unwrap_or,
}
use seda_rust.Contract.Collections.{UnorderedMap, insert, empty}
use seda_rust.Contract.State.{Env, World, AccountId, Bytes, Node, MainchainContract}
use seda_rust.Contract.Results.{ok, panic, not_enough_balance}
use seda_rust.Contract.Storage.{
  require, settle, manage_storage_deposit, manage_world, storage_cost, require_storage_deposit,
}
use seda_rust.Contract.Verify.{bn254_verify}
use seda_rust.Contract.Storage.Settlement.{manage_ensures}
use seda_rust.Contract.Token.{set_account, burn}
use seda_rust.Contract.Registry.{
  internal_get_node, deposit_body, deposit, request_withdraw_body, request_withdraw,
  get_expect_node_by_ed25519_public_key, register_node, register_node_body,
}
use seda_rust.Contract.Registry.Lookup.{handle_node_balance_update-SameBooks}
use seda_rust.Contract.Registry.Stake.{Deposited, deposit_body-Deposited, restake}
use seda_rust.Contract.Registry.Effects.{deposit_body-Moved}

-- The books' entry of one depositor for one node.
abbrev pub Recorded : AccountId → Bytes → ℕ → MainchainContract → Type 0
Recorded signer key amount c =
    (m : UnorderedMap Bytes ℕ) × (c.depositors signer ≡ some m) × (m.entry key ≡ some amount)

module _ (env : Env) (amount : ℕ) (key : Bytes) where
  deposit_body-Recorded :
      (c c' : MainchainContract)
      → Deposited env amount key c c'
      → Recorded env.signer_account_id key amount c'
  deposit_body-Recorded c c' d =
      let paid =
        restake env (sub_u128 d.balance amount) d.account_id
          (record d.node { balance = add_u128 d.node.balance amount }) c in
      let m = unwrap_or (paid.depositors env.signer_account_id) empty in
      (
        insert m key amount,
        rw d.left_over (put_self paid.depositors env.signer_account_id (insert m key amount)),
        put_self m.entry key amount,
      )

  index-deposit_body :
      (c c' : MainchainContract)
      → Deposited env amount key c c'
      → c'.nodes_by_ed25519_public_key ≡ c.nodes_by_ed25519_public_key
  unfolding set_account
  index-deposit_body c c' d =
      rw d.left_over
        (handle_node_balance_update-SameBooks env d.account_id
          (record d.node { balance = add_u128 d.node.balance amount })
          (set_account c env.signer_account_id (sub_u128 d.balance amount))).index

request_refused :
    (env : Env) (amount more : ℕ) (key : Bytes) (c : MainchainContract) (id : AccountId)
    (node : Node)
    → amount < more
    → c.nodes_by_ed25519_public_key key ≡ some id
    → internal_get_node id c ≡ some node
    → Recorded env.signer_account_id key amount c
    → request_withdraw_body env more key c ≡ panic not_enough_balance
unfolding request_withdraw_body get_expect_node_by_ed25519_public_key internal_get_node
request_refused env amount more key c id node less indexed found (m, had, entry) =
    let pos : ltb 0 more ≡ true = lt→ltb 0 more (omega arith) in
    elim (Bool-cases (leb more node.balance)) [
      | inr poor ↦ rw (pos, indexed, found, poor)
      | inl rich ↦ rw (pos, indexed, found, rich, had, entry, lt→leb more amount less)
    ]

-- After a deposit the depositor's record for that node is the amount of this deposit alone: a request
-- to withdraw more than it is refused, however much the same depositor had deposited before.
pub deposit_forgets :
    (env env' : Env) (amount more : ℕ) (key : Bytes) (w w' : World)
    → env'.signer_account_id ≡ env.signer_account_id
    → amount < more
    → deposit env amount key w ≡ ok w'
    → request_withdraw env' more key w' ≡ panic not_enough_balance
unfolding deposit request_withdraw manage_storage_deposit
deposit_forgets env env' amount more key w w' same less h =
    rw
      (manage_ensures (λ c. request_withdraw_body env' more key c ≡ panic not_enough_balance)
        require env (deposit_body env amount key) w w'
        (λ c e.
          let d = deposit_body-Deposited env amount key w.contract c e in
          request_refused env' amount more key c d.account_id _ less
            (ap (λ (index : Bytes → Option AccountId). index key)
                (index-deposit_body env amount key w.contract c d)
              ∙ d.indexed)
            (deposit_body-Moved env amount key w.contract c d).node_after
            (rw same (deposit_body-Recorded env amount key w.contract c d)))
        h)
      refl

deposit_body_succeeds :
    (env : Env) (amount tokens : ℕ) (key : Bytes) (c : MainchainContract) (id : AccountId)
    (node : Node)
    → c.token.accounts env.signer_account_id ≡ some tokens
    → c.nodes_by_ed25519_public_key key ≡ some id
    → internal_get_node id c ≡ some node
    → (c' : MainchainContract) × (deposit_body env amount key c ≡ ok c')
unfolding deposit_body burn get_expect_node_by_ed25519_public_key internal_get_node
deposit_body_succeeds env amount tokens key c id node had indexed found =
    let staked =
      restake env (sub_u128 tokens amount) id
        (record node { balance = add_u128 node.balance amount }) c in
    (
      record staked {
        depositors =
            put staked.depositors env.signer_account_id
              (insert (unwrap_or (staked.depositors env.signer_account_id) empty) key amount);
        last_total_balance = add_u128 staked.last_total_balance amount;
      },
      rw (had, indexed, found) refl,
    )

-- A deposit of more than the signer's tokens is not refused: if the node is registered the body of
-- the deposit succeeds, and the signer's balance wraps below zero to the top of the 128-bit range.
pub deposit_overdraft :
    (env : Env) (amount tokens : ℕ) (key : Bytes) (c : MainchainContract) (id : AccountId)
    (node : Node)
    → tokens < amount
    → amount < u128_mod
    → c.token.accounts env.signer_account_id ≡ some tokens
    → c.nodes_by_ed25519_public_key key ≡ some id
    → internal_get_node id c ≡ some node
    → (c' : MainchainContract) × (deposit_body env amount key c ≡ ok c')
      × (c'.token.accounts env.signer_account_id ≡ some (tokens + u128_mod - amount))
deposit_overdraft env amount tokens key c id node short word had indexed found =
    let (c', e) = succeeds in
    let d = deposit_body-Deposited env amount key c c' e in
    let b : d.balance ≡ tokens = cc (d.had) in
    (
      c',
      e,
      (deposit_body-Moved env amount key c c' d).tokens_after
          ∙ ap some (ap (λ t. sub_u128 t amount) b ∙ sub_u128_wraps tokens amount short word),
    )
  where
    succeeds : (c' : MainchainContract) × (deposit_body env amount key c ≡ ok c')
    succeeds = deposit_body_succeeds env amount tokens key c id node had indexed found

-- The node of a registration, and the contract that registers it.
abbrev pub fresh_node : Env → String → Bytes → Node
fresh_node env multi_addr key = record {
  multi_addr = multi_addr;
  balance = 0;
  bn254_public_key = key;
  ed25519_public_key = env.signer_account_pk;
}

abbrev pub registered : Env → Node → MainchainContract → MainchainContract
registered env node c = record c {
  inactive_nodes = insert c.inactive_nodes env.signer_account_id node;
  nodes_by_bn254_public_key =
      put c.nodes_by_bn254_public_key node.bn254_public_key env.signer_account_id;
  nodes_by_ed25519_public_key =
      put c.nodes_by_ed25519_public_key node.ed25519_public_key env.signer_account_id;
}

-- An account whose inactive node has a stake may register again, if both keys are new, the signature is
-- valid and the deposit pays for the storage: the call succeeds, the account's node is then a fresh one
-- with no balance, so that the stake is lost to it, and the total still counts that stake.
pub register_again_resets :
    (env : Env) (multi_addr : String) (key signature : Bytes) (w : World) (old : Node)
    → w.contract.active_nodes.entry env.signer_account_id ≡ none
    → w.contract.inactive_nodes.entry env.signer_account_id ≡ some old
    → 0 < old.balance
    → w.contract.nodes_by_bn254_public_key key ≡ none
    → w.contract.nodes_by_ed25519_public_key env.signer_account_pk ≡ none
    → bn254_verify env (env.account_bytes env.signer_account_id) signature key ≡ ok true
    → storage_cost env
        (env.storage_usage (registered env (fresh_node env multi_addr key) w.contract))
        (env.storage_usage w.contract)
      ≤ env.attached_deposit
    → (w' : World) × (register_node env multi_addr key signature w ≡ ok w')
      × (internal_get_node env.signer_account_id w.contract ≡ some old)
      × (internal_get_node env.signer_account_id w'.contract ≡ some (fresh_node env multi_addr key))
      × (w'.contract.last_total_balance ≡ w.contract.last_total_balance)
unfolding register_node register_node_body internal_get_node manage_storage_deposit manage_world
    settle require_storage_deposit
register_again_resets env multi_addr key signature w old inactive had stake new_key new_id valid
      paid =
    let node = fresh_node env multi_addr key in
    (
      record w { contract = registered env node w.contract },
      rw (new_key, new_id, valid, le→leb _ _ paid) refl,
      rw (inactive, had) refl,
      rw inactive (put_self w.contract.inactive_nodes.entry env.signer_account_id node),
      refl,
    )
