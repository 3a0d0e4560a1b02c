-- ===== src/Contract/Views.antt =====
-- The view methods of contracts/src/node_registry.rs. `usize` has 32 bits on wasm.
pub mod Pages
use seda_rust.Base.{
  ℕ, zero, suc, ◌+◌, ◌-◌, ◌%◌, ◌^◌, Bool, Option, none, some, List, [], ◌∷◌, ◌++◌, ltb, length,
  get_elem?, is_some, if◌then◌else◌, sub_u64,
}
use seda_rust.Contract.Collections.{UnorderedMap}
use seda_rust.Contract.State.{AccountId, Bytes, Node, NodeInfo, DepositInfo, MainchainContract}
use seda_rust.Contract.Results.{Result, ok, unwrap_none, assert, expect, ◌>>=◌, ◌>>◌}
use seda_rust.Contract.Registry.{internal_get_node}

abbrev pub usize_mod : ℕ
usize_mod = 2 ^ 32

unfoldable pub node_info : AccountId → Node → NodeInfo
node_info account_id node = record {
  account_id = account_id;
  multi_addr = node.multi_addr;
  balance = node.balance;
  bn254_public_key = node.bn254_public_key;
  ed25519_public_key = node.ed25519_public_key;
}

-- The body of the `if let` in `internal_get_nodes`.
unfoldable pub push_node :
    (AccountId → Option Node) → Option AccountId → List NodeInfo → Result (List NodeInfo)
unfolding node_info
push_node entry none nodes = ok nodes
push_node entry (some node_id) nodes = do
  node ← expect (entry node_id) unwrap_none
  ok (nodes ++ node_info node_id node ∷ [])

-- The `while` loop: `index` falls by one a round.
unfoldable pub collect_nodes :
    UnorderedMap AccountId Node → ℕ → ℕ → List NodeInfo → Result (List NodeInfo)
unfolding push_node
collect_nodes nodes_map limit zero nodes = ok nodes
collect_nodes nodes_map limit (suc i) nodes =
    let rest = (do
      nodes' ←
          push_node nodes_map.entry (get_elem? nodes_map.keys ((suc i + usize_mod - 1) % usize_mod))
            nodes
      collect_nodes nodes_map limit i nodes') in
    do assert (ltb limit usize_mod) unwrap_none; if ltb (length nodes) limit then rest else ok nodes

unfoldable pub internal_get_nodes : UnorderedMap AccountId Node → ℕ → ℕ → Result (List NodeInfo)
internal_get_nodes nodes_map limit offset =
    collect_nodes nodes_map limit (sub_u64 (length nodes_map.keys) offset) []

unfoldable pub get_inactive_nodes : ℕ → ℕ → MainchainContract → Result (List NodeInfo)
get_inactive_nodes limit offset c = internal_get_nodes c.inactive_nodes limit offset

unfoldable pub get_active_nodes : ℕ → ℕ → MainchainContract → Result (List NodeInfo)
get_active_nodes limit offset c = internal_get_nodes c.active_nodes limit offset

unfoldable pub is_node_active : AccountId → MainchainContract → Bool
is_node_active account_id c = is_some (c.active_nodes.entry account_id)

unfoldable pub get_node_balance : AccountId → MainchainContract → Result ℕ
get_node_balance account_id c = do
  node ← expect (internal_get_node account_id c) unwrap_none
  ok node.balance

abbrev some_info : AccountId → Option Node → Option NodeInfo
some_info account_id none = none
some_info account_id (some node) = some (node_info account_id node)

unfoldable pub get_node : AccountId → MainchainContract → Option NodeInfo
unfolding node_info
get_node account_id c = some_info account_id (internal_get_node account_id c)

-- The entries of a depositor's map, in the order of its keys.
unfoldable pub list_deposits : (Bytes → Option ℕ) → List Bytes → Result (List DepositInfo)
list_deposits entry [] = ok []
list_deposits entry (key ∷ keys) = do
  amount ← expect (entry key) unwrap_none
  deposits ← list_deposits entry keys
  ok (record { node_ed25519_public_key = key; amount = amount } ∷ deposits)

unfoldable pub get_deposits : AccountId → MainchainContract → Result (List DepositInfo)
unfolding list_deposits
get_deposits account_id c = do
  depositor ← expect (c.depositors account_id) unwrap_none
  list_deposits depositor.entry depositor.keys

unfoldable pub get_node_by_ed25519_public_key : Bytes → MainchainContract → Result NodeInfo
unfolding node_info
get_node_by_ed25519_public_key key c = do
  account_id ← expect (c.nodes_by_ed25519_public_key key) unwrap_none
  node ← expect (internal_get_node account_id c) unwrap_none
  ok (node_info account_id node)

unfoldable pub get_node_by_bn254_public_key : Bytes → MainchainContract → Result NodeInfo
unfolding node_info
get_node_by_bn254_public_key key c = do
  account_id ← expect (c.nodes_by_bn254_public_key key) unwrap_none
  node ← expect (internal_get_node account_id c) unwrap_none
  ok (node_info account_id node)
