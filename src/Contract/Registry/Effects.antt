-- ===== src/Contract/Registry/Effects.antt =====
-- What a deposit and a withdrawal do to the tokens, the node and the books.
use seda_rust.Base.{
  ℕ, ◌<◌, some, ◌≡◌, ◌≢◌, ◌==◌, string_eq, bytes_eq, if◌then◌else◌, add_u128, sub_u128, u128_mod,
  sub-add_u128, add-sub_u128, ==_refl, ap, ◌∙◌, put_self, put_ne, ne-==,
}
use seda_rust.Contract.State.{Env, World, AccountId, Bytes, Node, MainchainContract}
use seda_rust.Contract.Results.{ok}
use seda_rust.Contract.Storage.{require, either}
use seda_rust.Contract.Storage.Settlement.{manage_ensures}
use seda_rust.Contract.Token.{set_account}
use seda_rust.Contract.Registry.{internal_get_node, handle_node_balance_update, deposit, withdraw}
use seda_rust.Contract.Registry.Lookup.{
  get_node-handle_node_balance_update, SameBooks, handle_node_balance_update-SameBooks,
}
use seda_rust.Contract.Registry.Stake.{
  Deposited, deposit_body-Deposited, Withdrawn, withdraw_body-Withdrawn, restake,
}

-- The token balance of one account and the stake of one node are rewritten, the total of the books
-- with them, and every other account and node is left alone.
pub record Moved (signer id : AccountId) (tokens : ℕ) (node : Node) (total : ℕ)
    (c c' : MainchainContract) : Type 0 where
  pub tokens_after : c'.token.accounts signer ≡ some tokens
  pub other_tokens : (j : AccountId) → signer ≢ j → c'.token.accounts j ≡ c.token.accounts j
  pub node_after : internal_get_node id c' ≡ some node
  pub other_nodes : (j : AccountId) → id ≢ j → internal_get_node j c' ≡ internal_get_node j c
  pub total_after : c'.last_total_balance ≡ total

-- Writing both balances moves the stake, whatever the amounts.
restake-Moved :
    (env : Env) (tokens : ℕ) (id : AccountId) (node : Node) (c : MainchainContract)
    → let c' = restake env tokens id node c in
      (c'.token.accounts env.signer_account_id ≡ some tokens)
      × ((j : AccountId) → env.signer_account_id ≢ j → c'.token.accounts j ≡ c.token.accounts j)
      × (internal_get_node id c' ≡ some node)
      × ((j : AccountId) → id ≢ j → internal_get_node j c' ≡ internal_get_node j c)
      × (c'.last_total_balance ≡ c.last_total_balance)
unfolding set_account internal_get_node
restake-Moved env tokens id node c = (
  rw books.token (put_self c.token.accounts env.signer_account_id tokens),
  (λ j ne. rw books.token (put_ne c.token.accounts env.signer_account_id j tokens ne)),
  get_node-handle_node_balance_update env id id node paid ∙ if_self id,
  (λ j ne. get_node-handle_node_balance_update env id j node paid ∙ if_other j ne),
  books.total,
)
  where
    paid : MainchainContract
    paid = set_account c env.signer_account_id tokens

    books : SameBooks paid (handle_node_balance_update env id node paid)
    books = handle_node_balance_update-SameBooks env id node paid

    if_self : (j : AccountId) → (if j == j then some node else internal_get_node j paid) ≡ some node
    if_self j = rw (==_refl j)

    if_other :
        (j : AccountId)
        → id ≢ j
        → (if id == j then some node else internal_get_node j paid) ≡ internal_get_node j c
    if_other j ne = rw (ne-== id j ne)

pub deposit_body-Moved :
    (env : Env) (amount : ℕ) (key : Bytes) (c c' : MainchainContract)
    (d : Deposited env amount key c c')
    → Moved env.signer_account_id d.account_id
        (sub_u128 d.balance amount)
        (record d.node { balance = add_u128 d.node.balance amount })
        (add_u128 c.last_total_balance amount)
        c
        c'
unfolding internal_get_node
deposit_body-Moved env amount key c c' d =
    let (tokens, others, found, rest, total) =
      restake-Moved env (sub_u128 d.balance amount) d.account_id
        (record d.node { balance = add_u128 d.node.balance amount }) c in
    rw d.left_over (record {
      tokens_after = tokens;
      other_tokens = others;
      node_after = found;
      other_nodes = rest;
      total_after = ap (λ t. add_u128 t amount) total;
    })

pub withdraw_body-Moved :
    (env : Env) (amount : ℕ) (key : Bytes) (c c' : MainchainContract)
    (d : Withdrawn env amount key c c')
    → Moved env.signer_account_id d.account_id
        (add_u128 d.balance amount)
        (record d.node { balance = sub_u128 d.node.balance amount })
        (sub_u128 c.last_total_balance amount)
        c
        c'
unfolding internal_get_node
withdraw_body-Moved env amount key c c' d =
    let (tokens, others, found, rest, total) =
      restake-Moved env (add_u128 d.balance amount) d.account_id
        (record d.node { balance = sub_u128 d.node.balance amount }) c in
    rw d.left_over (record {
      tokens_after = tokens;
      other_tokens = others;
      node_after = found;
      other_nodes = rest;
      total_after = ap (λ t. sub_u128 t amount) total;
    })

module _ (env : Env) (amount : ℕ) (key : Bytes) (w w' : World) (tokens : ℕ) (id : AccountId)
    (node : Node) (had : w.contract.token.accounts env.signer_account_id ≡ some tokens)
    (indexed : w.contract.nodes_by_ed25519_public_key key ≡ some id)
    (found : internal_get_node id w.contract ≡ some node) where
  -- A deposit that succeeds takes the amount from the signer's tokens, modulo 2^128, adds it to the
  -- node that the key names and to the total, and changes no other account's tokens and no other node.
  pub deposit-Moved :
      deposit env amount key w ≡ ok w'
      → Moved env.signer_account_id id
          (sub_u128 tokens amount)
          (record node { balance = add_u128 node.balance amount })
          (add_u128 w.contract.last_total_balance amount)
          w.contract
          w'.contract
  unfolding deposit
  deposit-Moved h =
      manage_ensures
        (Moved env.signer_account_id id (sub_u128 tokens amount)
          (record node { balance = add_u128 node.balance amount })
          (add_u128 w.contract.last_total_balance amount) w.contract)
        require env _ w w'
        (λ c e.
          let d = deposit_body-Deposited env amount key w.contract c e in
          let b : d.balance ≡ tokens = cc (d.had) in
          let i : d.account_id ≡ id = cc (d.indexed) in
          let n : d.node ≡ node = cc (d.found, i) in
          rw (← b, ← i, ← n) (deposit_body-Moved env amount key w.contract c d))
        h

  -- A withdrawal that succeeds gives the amount back: the node and the total lose it, the signer's
  -- tokens gain it, modulo 2^128, and no other account's tokens and no other node change.
  withdraw-Moved :
      withdraw env amount key w ≡ ok w'
      → Moved env.signer_account_id id
          (add_u128 tokens amount)
          (record node { balance = sub_u128 node.balance amount })
          (sub_u128 w.contract.last_total_balance amount)
          w.contract
          w'.contract
  unfolding withdraw
  withdraw-Moved h =
      manage_ensures
        (Moved env.signer_account_id id (add_u128 tokens amount)
          (record node { balance = sub_u128 node.balance amount })
          (sub_u128 w.contract.last_total_balance amount) w.contract)
        either env _ w w'
        (λ c e.
          let d = withdraw_body-Withdrawn env amount key w.contract c e in
          let b : d.balance ≡ tokens = cc (d.had) in
          let i : d.account_id ≡ id = cc (d.indexed) in
          let n : d.node ≡ node = cc (d.found, i) in
          rw (← b, ← i, ← n) (withdraw_body-Moved env amount key w.contract c d))
        h

module _ (env env' : Env) (amount : ℕ) (key : Bytes) (w₀ w₁ w₂ w₃ : World) (tokens : ℕ)
    (id : AccountId) (node : Node) where
  -- Depositing an amount and later withdrawing the same amount restores the signer's tokens, the node
  -- and the total, if the balances are words of 128 bits, also where the arithmetic wrapped on the way.
  -- In between the deposit may age and other calls may run, as long as they leave these three alone.
  pub withdraw-deposit :
      (same_signer : env'.signer_account_id ≡ env.signer_account_id)
      → amount < u128_mod
      → tokens < u128_mod
      → node.balance < u128_mod
      → w₀.contract.last_total_balance < u128_mod
      → w₀.contract.token.accounts env.signer_account_id ≡ some tokens
      → w₀.contract.nodes_by_ed25519_public_key key ≡ some id
      → internal_get_node id w₀.contract ≡ some node
      → deposit env amount key w₀ ≡ ok w₁
      → w₂.contract.token.accounts env.signer_account_id
        ≡ w₁.contract.token.accounts env.signer_account_id
      → w₂.contract.nodes_by_ed25519_public_key key ≡ some id
      → internal_get_node id w₂.contract ≡ internal_get_node id w₁.contract
      → w₂.contract.last_total_balance ≡ w₁.contract.last_total_balance
      → withdraw env' amount key w₂ ≡ ok w₃
      → (w₃.contract.token.accounts env.signer_account_id ≡ some tokens)
        × (internal_get_node id w₃.contract ≡ some node)
        × (w₃.contract.last_total_balance ≡ w₀.contract.last_total_balance)
  withdraw-deposit same a t n l had indexed found d kt ki kn kl wd =
      let m = deposit-Moved env amount key w₀ w₁ tokens id node had indexed found d in
      let u =
        withdraw-Moved env' amount key w₂ w₃ (sub_u128 tokens amount) id
          (record node { balance = add_u128 node.balance amount }) (rw same (kt ∙ m.tokens_after))
          ki (kn ∙ m.node_after) wd in
      (
        (rw (← same) u.tokens_after) ∙ ap some (add-sub_u128 tokens amount t a),
        u.node_after
            ∙ ap (λ b. some (record node { balance = b })) (sub-add_u128 node.balance amount n a),
        u.total_after
            ∙ ap (λ b. sub_u128 b amount) (kl ∙ m.total_after)
            ∙ sub-add_u128 w₀.contract.last_total_balance amount l a,
      )
