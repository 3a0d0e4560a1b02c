-- ===== src/Contract/Consistency/Nodes.antt =====
-- Every operation of the registry and of the epochs keeps the registry's invariant.
use seda_rust.Base.{
  none, some, ◌≡◌, string_eq, bytes_eq, arith, Option-cases, inl, inr, add_u64, subst,
  bytes_beq_iff,
}
use seda_rust.Contract.Collections.{IsRemoval, remove, insert-IsKeyed, remove-IsKeyed}
use seda_rust.Contract.State.{Env, AccountId, Node, MainchainContract}
use seda_rust.Contract.Results.{ok, ok-injective}
use seda_rust.Contract.Clock.{get_current_epoch}
use seda_rust.Contract.Consistency.{IsConsistent}
use seda_rust.Contract.Epoch.{activate}
use seda_rust.Contract.Registry.{
  internal_get_node, handle_node_balance_update, update_node_body, register_node_body,
}

module _ (env : Env) (r : IsRemoval env.reorder) where
  pub handle_node_balance_update-IsConsistent :
      (id : AccountId) (old node : Node) (c : MainchainContract)
      → internal_get_node id c ≡ some old
      → node.ed25519_public_key ≡ old.ed25519_public_key
      → node.bn254_public_key ≡ old.bn254_public_key
      → IsConsistent c
      → IsConsistent (handle_node_balance_update env id node c)
  unfolding handle_node_balance_update internal_get_node
  handle_node_balance_update-IsConsistent id old node c found ed bn v = record {
    active_keyed = ground (
      arith,
      insert-IsKeyed c.active_nodes id node v.active_keyed,
      remove-IsKeyed env.reorder c.active_nodes id r v.active_keyed,
      v.active_keyed,
    );
    inactive_keyed =
        ground (arith, insert-IsKeyed c.inactive_nodes id node v.inactive_keyed, v.inactive_keyed);
    pending_keyed = ground (
      arith,
      insert-IsKeyed c.pending_nodes id
          (add_u64 (get_current_epoch env) c.config.epoch_delay_for_election) v.pending_keyed,
      v.pending_keyed,
    );
    active_ed25519 = λ j n h. ground (
      arith,
      v.active_ed25519 id old,
      v.inactive_ed25519 id old,
      v.active_ed25519 j n,
      string_eq.beq_iff id j,
    );
    active_bn254 = λ j n h. ground (
      arith,
      v.active_bn254 id old,
      v.inactive_bn254 id old,
      v.active_bn254 j n,
      string_eq.beq_iff id j,
    );
    inactive_ed25519 = λ j n h. ground (
      arith,
      v.active_ed25519 id old,
      v.inactive_ed25519 id old,
      v.inactive_ed25519 j n,
      string_eq.beq_iff id j,
    );
    inactive_bn254 = λ j n h. ground (
      arith,
      v.active_bn254 id old,
      v.inactive_bn254 id old,
      v.inactive_bn254 j n,
      string_eq.beq_iff id j,
    );
  }

  pub unregister-IsConsistent :
      (id : AccountId) (c : MainchainContract)
      → IsConsistent c
      → IsConsistent (record c { inactive_nodes = remove env.reorder c.inactive_nodes id })
  unregister-IsConsistent id c v = record {
    active_keyed = v.active_keyed;
    inactive_keyed = remove-IsKeyed env.reorder c.inactive_nodes id r v.inactive_keyed;
    pending_keyed = v.pending_keyed;
    active_ed25519 = v.active_ed25519;
    active_bn254 = v.active_bn254;
    inactive_ed25519 = λ j n h. ground (arith, v.inactive_ed25519 j n);
    inactive_bn254 = λ j n h. ground (arith, v.inactive_bn254 j n);
  }

  pub activate-IsConsistent :
      (id : AccountId) (c c' : MainchainContract)
      → activate env id c ≡ ok c'
      → IsConsistent c
      → IsConsistent c'
  unfolding activate
  activate-IsConsistent id c c' e v = elim (Option-cases (c.inactive_nodes.entry id)) [
    | inl missing ↦ cc (rw missing at e)
    | inr (node, found) ↦ subst IsConsistent (ok-injective (rw found at e)) (record {
      active_keyed = insert-IsKeyed c.active_nodes id node v.active_keyed;
      inactive_keyed = remove-IsKeyed env.reorder c.inactive_nodes id r v.inactive_keyed;
      pending_keyed = remove-IsKeyed env.reorder c.pending_nodes id r v.pending_keyed;
      active_ed25519 = λ j n h.
          ground (arith, v.active_ed25519 j n, v.inactive_ed25519 id node, string_eq.beq_iff id j);
      active_bn254 = λ j n h.
          ground (arith, v.active_bn254 j n, v.inactive_bn254 id node, string_eq.beq_iff id j);
      inactive_ed25519 = λ j n h.
          ground
            (arith, v.inactive_ed25519 j n, v.inactive_ed25519 id node, string_eq.beq_iff id j);
      inactive_bn254 = λ j n h.
          ground (arith, v.inactive_bn254 j n, v.inactive_bn254 id node, string_eq.beq_iff id j);
    })
  ]

pub update_node_body-IsConsistent :
    (id : AccountId) (old node : Node) (c c' : MainchainContract)
    → internal_get_node id c ≡ some old
    → node.ed25519_public_key ≡ old.ed25519_public_key
    → node.bn254_public_key ≡ old.bn254_public_key
    → update_node_body id node c ≡ ok c'
    → IsConsistent c
    → IsConsistent c'
unfolding update_node_body internal_get_node
update_node_body-IsConsistent id old node c c' found ed bn e v =
    subst IsConsistent (ok-injective e) (record {
      active_keyed =
          ground (arith, insert-IsKeyed c.active_nodes id node v.active_keyed, v.active_keyed);
      inactive_keyed =
          ground
            (arith, insert-IsKeyed c.inactive_nodes id node v.inactive_keyed, v.inactive_keyed);
      pending_keyed = ground (arith, v.pending_keyed);
      active_ed25519 = λ j n h. ground (
        arith,
        v.active_ed25519 id old,
        v.inactive_ed25519 id old,
        v.active_ed25519 j n,
        string_eq.beq_iff id j,
      );
      active_bn254 = λ j n h. ground (
        arith,
        v.active_bn254 id old,
        v.inactive_bn254 id old,
        v.active_bn254 j n,
        string_eq.beq_iff id j,
      );
      inactive_ed25519 = λ j n h. ground (
        arith,
        v.active_ed25519 id old,
        v.inactive_ed25519 id old,
        v.inactive_ed25519 j n,
        string_eq.beq_iff id j,
      );
      inactive_bn254 = λ j n h. ground (
        arith,
        v.active_bn254 id old,
        v.inactive_bn254 id old,
        v.inactive_bn254 j n,
        string_eq.beq_iff id j,
      );
    })

-- A second registration by one account overwrites its inactive node: the invariant holds all the
-- same, since the two public keys are new.
pub register_node_body-IsConsistent :
    (env : Env) (node : Node) (c c' : MainchainContract)
    → c.nodes_by_ed25519_public_key node.ed25519_public_key ≡ none
    → c.nodes_by_bn254_public_key node.bn254_public_key ≡ none
    → register_node_body env node c ≡ ok c'
    → IsConsistent c
    → IsConsistent c'
unfolding register_node_body
register_node_body-IsConsistent env node c c' ed bn e v =
    subst IsConsistent (ok-injective e) (record {
      active_keyed = v.active_keyed;
      inactive_keyed = insert-IsKeyed c.inactive_nodes env.signer_account_id node v.inactive_keyed;
      pending_keyed = v.pending_keyed;
      active_ed25519 = λ j n h. ground (
        arith,
        v.active_ed25519 j n,
        string_eq.beq_iff env.signer_account_id j,
        bytes_beq_iff node.ed25519_public_key n.ed25519_public_key,
      );
      active_bn254 = λ j n h. ground (
        arith,
        v.active_bn254 j n,
        string_eq.beq_iff env.signer_account_id j,
        bytes_beq_iff node.bn254_public_key n.bn254_public_key,
      );
      inactive_ed25519 = λ j n h. ground (
        arith,
        v.inactive_ed25519 j n,
        string_eq.beq_iff env.signer_account_id j,
        bytes_beq_iff node.ed25519_public_key n.ed25519_public_key,
      );
      inactive_bn254 = λ j n h. ground (
        arith,
        v.inactive_bn254 j n,
        string_eq.beq_iff env.signer_account_id j,
        bytes_beq_iff node.bn254_public_key n.bn254_public_key,
      );
    })
