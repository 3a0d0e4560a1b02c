-- ===== src/Contract/Registry/Lookup.antt =====
-- What `internal_get_node` returns after each operation of the registry that writes a node.
use seda_rust.Base.{false, some, ◌≡◌, ◌==◌, string_eq, bytes_eq, if◌then◌else◌, arith, is_some}
use seda_rust.Contract.State.{Env, AccountId, Node, MainchainContract}
use seda_rust.Contract.Results.{ok}
use seda_rust.Contract.Epoch.{activate}
use seda_rust.Contract.Registry.{internal_get_node, handle_node_balance_update, update_node_body}

-- The node is found under its account, with its new balance, and all others are as before.
pub get_node-handle_node_balance_update :
    (env : Env) (id j : AccountId) (node : Node) (c : MainchainContract)
    → internal_get_node j (handle_node_balance_update env id node c)
      ≡ (if id == j then some node else internal_get_node j c)
unfolding internal_get_node handle_node_balance_update
get_node-handle_node_balance_update env id j node c = ground (arith, string_eq.beq_iff id j)

pub get_node-update_node_body :
    (id j : AccountId) (node : Node) (c c' : MainchainContract)
    → update_node_body id node c ≡ ok c'
    → internal_get_node j c' ≡ (if id == j then some node else internal_get_node j c)
unfolding internal_get_node update_node_body
get_node-update_node_body id j node c c' h = ground (arith, string_eq.beq_iff id j)

-- Activating a node does not change who is registered.
pub get_node-activate :
    (env : Env) (id j : AccountId) (c c' : MainchainContract)
    → is_some (c.active_nodes.entry id) ≡ false
    → activate env id c ≡ ok c'
    → internal_get_node j c' ≡ internal_get_node j c
unfolding internal_get_node activate
get_node-activate env id j c c' n h = ground (arith, string_eq.beq_iff id j)

-- What a change of a node's balance leaves alone.
pub record SameBooks (c c' : MainchainContract) : Type 0 where
  pub token : c'.token ≡ c.token
  pub total : c'.last_total_balance ≡ c.last_total_balance
  pub depositors : c'.depositors ≡ c.depositors
  pub requests : c'.withdraw_requests ≡ c.withdraw_requests
  pub index : c'.nodes_by_ed25519_public_key ≡ c.nodes_by_ed25519_public_key

pub handle_node_balance_update-SameBooks :
    (env : Env) (id : AccountId) (node : Node) (c : MainchainContract)
    → SameBooks c (handle_node_balance_update env id node c)
unfolding handle_node_balance_update
handle_node_balance_update-SameBooks env id node c = ground arith
