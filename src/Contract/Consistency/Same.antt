-- ===== src/Contract/Consistency/Same.antt =====
-- Methods that leave the nodes and their index alone.
use seda_rust.Base.{ℕ, ◌≡◌, refl, arith, bytes_eq}
use seda_rust.Contract.State.{Env, AccountId, Bytes, MainchainContract}
use seda_rust.Contract.Results.{ok}
use seda_rust.Contract.Token.{set_account}
use seda_rust.Contract.Registry.{
  request_withdraw_body, cancel_withdraw_request_body, get_expect_node_by_ed25519_public_key,
}
use seda_rust.Contract.Epoch.{store_committee}
use seda_rust.Contract.Batches.{check_leader}
use seda_rust.Contract.Consistency.{IsConsistent}

-- What the invariant reads.
pub record SameNodes (c c' : MainchainContract) : Type 0 where
  pub active : c'.active_nodes ≡ c.active_nodes
  pub inactive : c'.inactive_nodes ≡ c.inactive_nodes
  pub pending : c'.pending_nodes ≡ c.pending_nodes
  pub by_ed25519 : c'.nodes_by_ed25519_public_key ≡ c.nodes_by_ed25519_public_key
  pub by_bn254 : c'.nodes_by_bn254_public_key ≡ c.nodes_by_bn254_public_key

pub SameNodes-IsConsistent :
    (c c' : MainchainContract) → SameNodes c c' → IsConsistent c → IsConsistent c'
SameNodes-IsConsistent c c' s v = record {
  active_keyed = rw s.active v.active_keyed;
  inactive_keyed = rw s.inactive v.inactive_keyed;
  pending_keyed = rw s.pending v.pending_keyed;
  active_ed25519 = rw (s.active, s.by_ed25519) v.active_ed25519;
  inactive_ed25519 = rw (s.inactive, s.by_ed25519) v.inactive_ed25519;
  active_bn254 = rw (s.active, s.by_bn254) v.active_bn254;
  inactive_bn254 = rw (s.inactive, s.by_bn254) v.inactive_bn254;
}

module _ (env : Env) where
  pub set_account-SameNodes :
      (id : AccountId) (b : ℕ) (c : MainchainContract) → SameNodes c (set_account c id b)
  unfolding set_account
  set_account-SameNodes id b c = record {
    active = refl;
    inactive = refl;
    pending = refl;
    by_ed25519 = refl;
    by_bn254 = refl;
  }

  pub request_withdraw_body-SameNodes :
      (amount : ℕ) (key : Bytes) (c c' : MainchainContract)
      → request_withdraw_body env amount key c ≡ ok c'
      → SameNodes c c'
  unfolding request_withdraw_body get_expect_node_by_ed25519_public_key
  request_withdraw_body-SameNodes amount key c c' h = ground arith

  pub cancel_withdraw_request_body-SameNodes :
      (key : Bytes) (c c' : MainchainContract)
      → cancel_withdraw_request_body env key c ≡ ok c'
      → SameNodes c c'
  unfolding cancel_withdraw_request_body
  cancel_withdraw_request_body-SameNodes key c c' h = ground arith

  pub store_committee-SameNodes :
      (epoch : ℕ) (c c' : MainchainContract) → store_committee env epoch c ≡ ok c' → SameNodes c c'
  unfolding store_committee
  store_committee-SameNodes epoch c c' h = ground arith

  pub check_leader-SameNodes :
      (signature : Bytes) (c c' : MainchainContract)
      → check_leader env signature c ≡ ok c'
      → SameNodes c c'
  unfolding check_leader
  check_leader-SameNodes signature c c' h = ground arith
