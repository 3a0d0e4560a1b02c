-- ===== src/Contract/Epoch/Progress.antt =====
-- What one `process_epoch` of contracts/src/epoch.rs achieves, that it is done once an epoch, and the
-- pending account without a node that stops it.
use seda_rust.Base.{
  ℕ, ◌≤◌, ◌<◌, Bool, true, false, ◌≡◌, refl, sym, ap, arith, contains, some, none, Bool-cases, inl,
  inr, string_eq, bytes_eq, leb, if◌then◌else◌, lt→leb, le→leb, leb→le, List, [], ◌∷◌, ◌∙◌,
}
use seda_rust.Contract.Collections.{IsKeyed}
use seda_rust.Contract.State.{Env, World, AccountId, Bytes, MainchainContract}
use seda_rust.Contract.Results.{ok, panic, unwrap_none, ok-injective, >>=-eq-ok}
use seda_rust.Contract.Storage.{either, refund}
use seda_rust.Contract.Storage.Settlement.{contract-settle, manage_ensures}
use seda_rust.Contract.Clock.{get_current_epoch}
use seda_rust.Contract.Registry.{unregister_node, unregister_node_body}
use seda_rust.Contract.Epoch.{
  Flow, returned, finished, leave, eligible_nodes, is_eligible, activate, activate_all,
  store_committee, bootstrap, select_ahead, after_activation, process_epoch_body, process_epoch,
}
use seda_rust.Contract.Epoch.Activation.{
  activate_all-Activated, activate_all_panics, contains-eligible_nodes, NoDup-eligible_nodes,
}

-- Selecting committees leaves the nodes alone.
nodes-after_activation :
    (phase : Bool) (env : Env) (epoch : ℕ) (c c' : MainchainContract) (flow : Flow)
    → after_activation phase env epoch c ≡ ok (flow, c')
    → (c'.active_nodes ≡ c.active_nodes)
      × (c'.inactive_nodes ≡ c.inactive_nodes)
      × (c'.pending_nodes ≡ c.pending_nodes)
unfolding after_activation bootstrap select_ahead store_committee
nodes-after_activation true env epoch c c' flow h = ground arith
nodes-after_activation false env epoch c c' flow h = ground arith

-- A run that is left early keeps its contract; so does one that is settled.
pub contract-leave :
    (env : Env) (initial : ℕ) (flow : Flow) (w w' : World)
    → leave env initial flow w ≡ ok w'
    → w'.contract ≡ w.contract
contract-leave env initial returned w w' h = ap (λ (x : World). x.contract) (sym (ok-injective h))
contract-leave env initial finished w w' h = contract-settle either env initial w w' h

-- What happens to one account, by its pending entry.
pub record Advanced (epoch : ℕ) (c c' : MainchainContract) : Type 0 where
  pub active_after :
      (j : AccountId)
      → c'.active_nodes.entry j ≡ (
          if is_eligible epoch (c.pending_nodes.entry j)
          then c.inactive_nodes.entry j
          else c.active_nodes.entry j)
  pub inactive_after :
      (j : AccountId)
      → c'.inactive_nodes.entry j
        ≡ (if is_eligible epoch (c.pending_nodes.entry j) then none else c.inactive_nodes.entry j)
  pub pending_after :
      (j : AccountId)
      → c'.pending_nodes.entry j
        ≡ (if is_eligible epoch (c.pending_nodes.entry j) then none else c.pending_nodes.entry j)

eligible-contains :
    (epoch : ℕ) (c : MainchainContract) (j : AccountId)
    → IsKeyed c.pending_nodes
    → contains (eligible_nodes epoch c.pending_nodes.entry c.pending_nodes.keys) j
      ≡ is_eligible epoch (c.pending_nodes.entry j)
eligible-contains epoch c j keyed = ground (
  arith,
  contains-eligible_nodes epoch c.pending_nodes.entry c.pending_nodes.keys j,
  keyed.listed j,
)

process_epoch_body-Advanced :
    (env : Env) (c c' : MainchainContract) (flow : Flow)
    → IsKeyed c.pending_nodes
    → c.last_processed_epoch < get_current_epoch env
    → process_epoch_body env c ≡ ok (flow, c')
    → Advanced (get_current_epoch env) c c'
unfolding process_epoch_body
process_epoch_body-Advanced env c c' flow keyed due h =
    let epoch = get_current_epoch env in
    let ids = eligible_nodes epoch c.pending_nodes.entry c.pending_nodes.keys in
    let (c₁, e, rest) =
      >>=-eq-ok (activate_all env ids c) _ (rw (lt→leb epoch c.last_processed_epoch due) at h) in
    let a =
      activate_all-Activated env ids c c₁
        (NoDup-eligible_nodes epoch c.pending_nodes.entry c.pending_nodes.keys keyed.nodup) e in
    let (active, inactive, pending) =
      nodes-after_activation c₁.bootstrapping_phase env epoch c₁ c' flow rest in
    record {
      active_after = λ j. rw (active, ← eligible-contains epoch c j keyed) (a.active_after j);
      inactive_after = λ j. rw (inactive, ← eligible-contains epoch c j keyed) (a.inactive_after j);
      pending_after = λ j. rw (pending, ← eligible-contains epoch c j keyed) (a.pending_after j);
    }

-- Processing an epoch that is due moves each account whose pending epoch has come from the inactive to
-- the active nodes, with the node it had, whatever its balance is by then, and changes no other node.
pub process_epoch-Advanced :
    (env : Env) (w w' : World)
    → IsKeyed w.contract.pending_nodes
    → w.contract.last_processed_epoch < get_current_epoch env
    → process_epoch env w ≡ ok w'
    → Advanced (get_current_epoch env) w.contract w'.contract
unfolding process_epoch
process_epoch-Advanced env w w' keyed due h =
    let ((flow, c), e, rest) = >>=-eq-ok (process_epoch_body env w.contract) _ h in
    rw (contract-leave env _ flow (record w { contract = c }) w' rest)
      (process_epoch_body-Advanced env w.contract c flow keyed due e)

-- An account whose pending epoch has come and that has no inactive node makes `process_epoch` panic.
pub process_epoch_panics :
    (env : Env) (w : World) (id : AccountId) (epoch : ℕ)
    → IsKeyed w.contract.pending_nodes
    → w.contract.last_processed_epoch < get_current_epoch env
    → w.contract.pending_nodes.entry id ≡ some epoch
    → epoch ≤ get_current_epoch env
    → w.contract.inactive_nodes.entry id ≡ none
    → process_epoch env w ≡ panic unwrap_none
unfolding process_epoch process_epoch_body
process_epoch_panics env w id epoch keyed due pending come gone =
    let now = get_current_epoch env in
    let c = w.contract in
    let member : contains (eligible_nodes now c.pending_nodes.entry c.pending_nodes.keys) id
        ≡ true =
      eligible-contains now c id keyed ∙ ap (is_eligible now) pending ∙ le→leb epoch now come in
    rw
      (
        lt→leb now c.last_processed_epoch due,
        activate_all_panics env (eligible_nodes now c.pending_nodes.entry c.pending_nodes.keys) id c
            member gone,
      )
      refl

unregister_node_body_gone :
    (env : Env) (key : Bytes) (c c' : MainchainContract) (id : AccountId)
    → c.nodes_by_ed25519_public_key key ≡ some id
    → unregister_node_body env key c ≡ ok c'
    → (c'.inactive_nodes.entry id ≡ none)
      × (c'.pending_nodes ≡ c.pending_nodes)
      × (c'.last_processed_epoch ≡ c.last_processed_epoch)
unfolding unregister_node_body
unregister_node_body_gone env key c c' id indexed h = ground (arith, string_eq.beq_iff id id)

-- After a node has left while its activation is pending, and as long as the pending nodes, the epoch last
-- processed and what its account has as inactive node stay the same, `process_epoch` panics in every
-- block, from the epoch of that activation on, of an epoch not yet processed.
pub unregister_stops_epochs :
    (env later : Env) (key : Bytes) (w w' w'' : World) (id : AccountId) (epoch : ℕ)
    → IsKeyed w.contract.pending_nodes
    → w.contract.nodes_by_ed25519_public_key key ≡ some id
    → w.contract.pending_nodes.entry id ≡ some epoch
    → unregister_node env key w ≡ ok w'
    → w''.contract.inactive_nodes.entry id ≡ w'.contract.inactive_nodes.entry id
    → w''.contract.pending_nodes ≡ w'.contract.pending_nodes
    → w''.contract.last_processed_epoch ≡ w'.contract.last_processed_epoch
    → epoch ≤ get_current_epoch later
    → w.contract.last_processed_epoch < get_current_epoch later
    → process_epoch later w'' ≡ panic unwrap_none
unfolding unregister_node
unregister_stops_epochs env later key w w' w'' id epoch keyed indexed pending h stays same past come
      due =
    let (gone, kept, last) =
      manage_ensures
        (λ c.
          (c.inactive_nodes.entry id ≡ none)
          × (c.pending_nodes ≡ w.contract.pending_nodes)
          × (c.last_processed_epoch ≡ w.contract.last_processed_epoch))
        refund env (unregister_node_body env key) w w'
        (λ c e. unregister_node_body_gone env key w.contract c id indexed e) h in
    process_epoch_panics later w'' id epoch (rw (same, kept) keyed) (rw (past, last) due)
      (rw (same, kept) pending) come (stays ∙ gone)

phase-activate_all :
    (env : Env) (ids : List AccountId) (c c' : MainchainContract)
    → activate_all env ids c ≡ ok c'
    → c'.bootstrapping_phase ≡ c.bootstrapping_phase
unfolding activate_all activate
phase-activate_all env [] c c' h =
    ap (λ (c : MainchainContract). c.bootstrapping_phase) (sym (ok-injective h))
phase-activate_all env (id ∷ ids) c c' h =
    let (c₁, e, rest) = >>=-eq-ok (activate env id c) _ h in
    phase-activate_all env ids c₁ c' rest ∙ ground arith

last-select_ahead :
    (env : Env) (epoch : ℕ) (phase : Bool) (c c' : MainchainContract) (flow : Flow)
    → phase ≡ false
    → after_activation phase env epoch c ≡ ok (flow, c')
    → c'.last_processed_epoch ≡ epoch
unfolding after_activation select_ahead store_committee
last-select_ahead env epoch true c c' flow over h = cc
last-select_ahead env epoch false c c' flow over h = ground arith

last-process_epoch_body :
    (env : Env) (c c' : MainchainContract) (flow : Flow)
    → c.bootstrapping_phase ≡ false
    → process_epoch_body env c ≡ ok (flow, c')
    → get_current_epoch env ≤ c'.last_processed_epoch
unfolding process_epoch_body
last-process_epoch_body env c c' flow over h =
    let epoch = get_current_epoch env in
    elim (Bool-cases (leb epoch c.last_processed_epoch)) [
      | inl done ↦
          let e : c.last_processed_epoch ≡ c'.last_processed_epoch = ground arith in
          let old : epoch ≤ c.last_processed_epoch = leb→le epoch c.last_processed_epoch done in
          omega arith
      | inr due ↦
          let ids = eligible_nodes epoch c.pending_nodes.entry c.pending_nodes.keys in
          let (c₁, e, rest) = >>=-eq-ok (activate_all env ids c) _ (rw due at h) in
          let last =
            last-select_ahead env epoch c₁.bootstrapping_phase c₁ c' flow
              (phase-activate_all env ids c c₁ e ∙ over) rest in
          omega (arith, last)
    ]

-- Outside the bootstrapping phase an epoch is processed once: any further call in a block of the same
-- epoch, by whomever, succeeds and changes nothing at all.
pub process_epoch_once :
    (env again : Env) (w w' : World)
    → w.contract.bootstrapping_phase ≡ false
    → get_current_epoch again ≡ get_current_epoch env
    → process_epoch env w ≡ ok w'
    → process_epoch again w' ≡ ok w'
unfolding process_epoch process_epoch_body
process_epoch_once env again w w' over same h =
    let ((flow, c), e, rest) = >>=-eq-ok (process_epoch_body env w.contract) _ h in
    let last : get_current_epoch env ≤ c.last_processed_epoch =
      last-process_epoch_body env w.contract c flow over e in
    let kept : w'.contract.last_processed_epoch ≡ c.last_processed_epoch =
      ap (λ (c : MainchainContract). c.last_processed_epoch)
        (contract-leave env _ flow (record w { contract = c }) w' rest) in
    let past : leb (get_current_epoch again) w'.contract.last_processed_epoch ≡ true =
      rw same (le→leb _ _ (omega arith)) in
    rw past refl
