-- ===== src/Contract/Epoch/Activation.antt =====
-- `process_epoch` of contracts/src/epoch.rs: which nodes it activates, that a processed epoch is not
-- processed again, and the pending account without a node that stops it.
use seda_rust.Base.{
  ℕ, true, List, [], ◌∷◌, ◌≡◌, refl, sym, ap, arith, contains, Option, none, Option-cases, inl, inr,
  string_eq, bytes_eq, is_some, if◌then◌else◌, ◌&&◌, is_some→some,
}
use seda_rust.Contract.Collections.{NoDup, insert, remove}
use seda_rust.Contract.State.{Env, AccountId, MainchainContract}
use seda_rust.Contract.Results.{ok, panic, unwrap_none, ok-injective}
use seda_rust.Contract.Epoch.{eligible_nodes, is_eligible, activate, activate_all}

-- What activating some accounts does to each account.
pub record Activated (ids : List AccountId) (c c' : MainchainContract) : Type 0 where
  pub active_after :
      (j : AccountId)
      → c'.active_nodes.entry j
        ≡ (if contains ids j then c.inactive_nodes.entry j else c.active_nodes.entry j)
  pub inactive_after :
      (j : AccountId)
      → c'.inactive_nodes.entry j ≡ (if contains ids j then none else c.inactive_nodes.entry j)
  pub pending_after :
      (j : AccountId)
      → c'.pending_nodes.entry j ≡ (if contains ids j then none else c.pending_nodes.entry j)

module _ (env : Env) where
  pub activate_all-Activated :
      (ids : List AccountId) (c c' : MainchainContract)
      → NoDup ids
      → activate_all env ids c ≡ ok c'
      → Activated ids c c'
  unfolding activate_all activate
  activate_all-Activated [] c c' d e =
      let same = ok-injective e in
      record {
        active_after = λ j. ap (λ (c : MainchainContract). c.active_nodes.entry j) (sym same);
        inactive_after = λ j. ap (λ (c : MainchainContract). c.inactive_nodes.entry j) (sym same);
        pending_after = λ j. ap (λ (c : MainchainContract). c.pending_nodes.entry j) (sym same);
      }
  activate_all-Activated (id ∷ ids) c c' d e = elim (Option-cases (c.inactive_nodes.entry id)) [
    | inl missing ↦ absurd (cc (rw missing at e))
    | inr (node, found) ↦
        let first : MainchainContract = record c {
          active_nodes = insert c.active_nodes id node;
          inactive_nodes = remove env.reorder c.inactive_nodes id;
          pending_nodes = remove env.reorder c.pending_nodes id;
        } in
        let rest : Activated ids first c' =
          activate_all-Activated ids first c' d.1 (rw found at e) in
        record {
          active_after =
              λ j. ground (arith, rest.active_after j, string_eq.beq_iff id j, d.0, found);
          inactive_after =
              λ j. ground (arith, rest.inactive_after j, string_eq.beq_iff id j, d.0, found);
          pending_after =
              λ j. ground (arith, rest.pending_after j, string_eq.beq_iff id j, d.0, found);
        }
  ]

  pub activate_all_total :
      (ids : List AccountId) (c : MainchainContract)
      → NoDup ids
      → ((j : AccountId) → contains ids j ≡ true → is_some (c.inactive_nodes.entry j) ≡ true)
      → (c' : MainchainContract) × (activate_all env ids c ≡ ok c')
  unfolding activate_all activate
  activate_all_total [] c d h = (c, refl)
  activate_all_total (id ∷ ids) c d h =
      let (node, found) =
        is_some→some (c.inactive_nodes.entry id) (h id (ground (arith, string_eq.beq_iff id id))) in
      rw found
        (activate_all_total ids _ d.1 (λ j m. ground (arith, h j, string_eq.beq_iff id j, d.0)))

  -- An account that is to be activated and has no inactive entry makes the whole run panic.
  pub activate_all_panics :
      (ids : List AccountId) (id : AccountId) (c : MainchainContract)
      → contains ids id ≡ true
      → c.inactive_nodes.entry id ≡ none
      → activate_all env ids c ≡ panic unwrap_none
  unfolding activate_all activate
  activate_all_panics [] id c m gone = cc
  activate_all_panics (j ∷ ids) id c m gone = elim (Option-cases (c.inactive_nodes.entry j)) [
    | inl missing ↦ rw missing
    | inr (node, found) ↦
        rw found
          (activate_all_panics ids id _ (ground (arith, string_eq.beq_iff j id)) (ground arith))
  ]

-- The eligible accounts are those with an entry whose epoch has come, each once.
pub contains-eligible_nodes :
    (epoch : ℕ) (entry : AccountId → Option ℕ) (keys : List AccountId) (j : AccountId)
    → contains (eligible_nodes epoch entry keys) j
      ≡ (contains keys j && is_eligible epoch (entry j))
unfolding eligible_nodes
contains-eligible_nodes epoch entry [] j = refl
contains-eligible_nodes epoch entry (k ∷ keys) j =
    ground (arith, contains-eligible_nodes epoch entry keys j, string_eq.beq_iff k j)

pub NoDup-eligible_nodes :
    (epoch : ℕ) (entry : AccountId → Option ℕ) (keys : List AccountId)
    → NoDup keys
    → NoDup (eligible_nodes epoch entry keys)
unfolding eligible_nodes
NoDup-eligible_nodes epoch entry [] d = tt
NoDup-eligible_nodes epoch entry (k ∷ keys) d =
    ground
      (arith, NoDup-eligible_nodes epoch entry keys d.1, contains-eligible_nodes epoch entry keys k)
