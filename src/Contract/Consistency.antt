-- ===== src/Contract/Consistency.antt =====
-- The registry's invariant: the node maps list their keys, and the indexes of both public keys give the
-- account under which a node stands.
pub mod Nodes
pub mod Same
pub mod Bodies
pub mod Calls
use seda_rust.Base.{Option, some, ◌≡◌}
use seda_rust.Contract.Collections.{IsKeyed}
use seda_rust.Base.{string_eq}
use seda_rust.Contract.State.{AccountId, Bytes, Node, MainchainContract}

-- The index gives, for the key of every node of a map, the account under which it stands.
abbrev pub IsIndexed :
    (AccountId → Option Node) → (Bytes → Option AccountId) → (Node → Bytes) → Type 0
IsIndexed entry index key =
    (id : AccountId) (node : Node) → entry id ≡ some node → index (key node) ≡ some id

pub record IsConsistent (c : MainchainContract) : Type 0 where
  pub active_keyed : IsKeyed c.active_nodes
  pub inactive_keyed : IsKeyed c.inactive_nodes
  pub pending_keyed : IsKeyed c.pending_nodes
  pub active_ed25519 :
      IsIndexed c.active_nodes.entry c.nodes_by_ed25519_public_key (λ n. n.ed25519_public_key)
  pub inactive_ed25519 :
      IsIndexed c.inactive_nodes.entry c.nodes_by_ed25519_public_key (λ n. n.ed25519_public_key)
  pub active_bn254 :
      IsIndexed c.active_nodes.entry c.nodes_by_bn254_public_key (λ n. n.bn254_public_key)
  pub inactive_bn254 :
      IsIndexed c.inactive_nodes.entry c.nodes_by_bn254_public_key (λ n. n.bn254_public_key)
