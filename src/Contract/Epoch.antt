-- ===== src/Contract/Epoch.antt =====
-- contracts/src/epoch.rs: `process_epoch`, which activates the pending nodes whose epoch has come and
-- selects the committee of a later epoch. Its two early `return`s leave the whole method, so they
-- skip the settlement of the storage deposit.
pub mod Activation
pub mod Progress
use seda_rust.Base.{
  ℕ, Bool, true, false, Option, none, some, List, [], ◌∷◌, leb, ltb, string_eq, nat_eq, put, length,
  if◌then◌else◌, add_u64,
}
use seda_rust.Contract.Collections.{insert, remove}
use seda_rust.Contract.State.{Env, World, AccountId, MainchainContract}
use seda_rust.Contract.Results.{Result, ok, unwrap_none, expect, ◌>>=◌}
use seda_rust.Contract.Storage.{settle, either}
use seda_rust.Contract.Dao.{epoch_committees_lookahead}
use seda_rust.Contract.Clock.{get_current_epoch}
use seda_rust.Contract.Committee.{select_committee}

-- How the body of the method ended.
pub data Flow : Type 0 where
  returned finished : Flow

abbrev pub is_eligible : ℕ → Option ℕ → Bool
is_eligible epoch none = false
is_eligible epoch (some activation_epoch) = leb activation_epoch epoch

unfoldable pub eligible_nodes : ℕ → (AccountId → Option ℕ) → List AccountId → List AccountId
eligible_nodes epoch entry [] = []
eligible_nodes epoch entry (id ∷ ids) =
    let rest = eligible_nodes epoch entry ids in
    if is_eligible epoch (entry id) then id ∷ rest else rest

unfoldable pub activate : Env → AccountId → MainchainContract → Result MainchainContract
activate env account_id c = do
  node ← expect (c.inactive_nodes.entry account_id) unwrap_none
  ok (record c {
    active_nodes = insert c.active_nodes account_id node;
    inactive_nodes = remove env.reorder c.inactive_nodes account_id;
    pending_nodes = remove env.reorder c.pending_nodes account_id;
  })

unfoldable pub activate_all : Env → List AccountId → MainchainContract → Result MainchainContract
activate_all env [] c = ok c
activate_all env (id ∷ ids) c = do c' ← activate env id c; activate_all env ids c'

-- Selects a committee with the last random number and stores it for an epoch.
unfoldable pub store_committee : Env → ℕ → MainchainContract → Result MainchainContract
store_committee env epoch c = do
  committee ← select_committee env c.last_generated_random_number c
  ok (record c { committees = put c.committees epoch committee })

-- `for i in 0..EPOCH_COMMITTEES_LOOKAHEAD`, of the bootstrapping phase.
unfoldable pub bootstrap : Env → ℕ → MainchainContract → Result MainchainContract
bootstrap env epoch c = do
  c₁ ← store_committee env (add_u64 epoch 0) (record c { bootstrapping_phase = false })
  store_committee env (add_u64 epoch 1) c₁

-- What follows once the bootstrapping phase is over.
unfoldable pub select_ahead : Env → ℕ → MainchainContract → Result (Flow × MainchainContract)
select_ahead env epoch c = do
  c' ← store_committee env (add_u64 epoch epoch_committees_lookahead) c
  ok (finished, record c' { last_processed_epoch = epoch })

-- What follows once the pending nodes are activated, in the bootstrapping phase and after it.
unfoldable pub after_activation :
    Bool → Env → ℕ → MainchainContract → Result (Flow × MainchainContract)
after_activation true env epoch c =
    if ltb (length c.active_nodes.keys) c.config.committee_size
    then ok (returned, c)
    else do c' ← bootstrap env epoch c; select_ahead env epoch c'
after_activation false env epoch c = select_ahead env epoch c

unfoldable pub process_epoch_body : Env → MainchainContract → Result (Flow × MainchainContract)
process_epoch_body env c =
    let epoch = get_current_epoch env in
    if leb epoch c.last_processed_epoch then ok (returned, c) else do
      c' ← activate_all env (eligible_nodes epoch c.pending_nodes.entry c.pending_nodes.keys) c
      after_activation c'.bootstrapping_phase env epoch c'

abbrev pub leave : Env → ℕ → Flow → World → Result World
leave env initial returned w = ok w
leave env initial finished w = settle either env initial w

unfoldable pub process_epoch : Env → World → Result World
process_epoch env w = do
  (flow, c) ← process_epoch_body env w.contract
  leave env (env.storage_usage w.contract) flow (record w { contract = c })
