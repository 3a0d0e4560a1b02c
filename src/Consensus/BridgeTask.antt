-- ===== src/Consensus/BridgeTask.antt =====
-- wasm/consensus/src/tasks/bridge.rs: a data request taken from another chain to the main chain.
use seda_rust.Base.{ℕ, none, some, [], String}
use seda_rust.Runtime.Promises.{
  Chain, near, PromiseStatus, call_self, chain_view, chain_call, unfulfilled, pending, fulfilled,
  rejected,
}
use seda_rust.Runtime.Bytes.{int_to_bytes, int_from_bytes}
use seda_rust.Consensus.Program.{
  Run, Libraries, ◌>>=◌, ◌>>◌, pure, expect, shared_memory_get, shared_memory_set, memory_read,
  memory_write, add_to_queue, result, println,
}

pub record Bridge : Type 0 where
  pub chain : Chain
  pub contract_id : String
  pub method_name : String
  pub deposit : ℕ
  pub args : String

module _ (l : Libraries) where
  unfoldable pub handle : Bridge → Run (Unit {0})
  handle bridge = do
    contract_id ← expect (l.env_var "ORACLE_CONTRACT_ID")
    shared_memory_set "contract_id" (l.utf8 contract_id)
    memory_write "bridge_deposit" (int_to_bytes 16 bridge.deposit)
    add_to_queue (
        chain_view (record {
          chain = bridge.chain;
          contract_id = bridge.contract_id;
          method_name = bridge.method_name;
          args = l.utf8 bridge.args;
        }))
    add_to_queue (call_self (record { function_name = "bridge_step_1"; args = [] }))

  -- The arm of a result, and the one of anything else, which only logs.
  unfoldable pub post_data : String → ℕ → PromiseStatus → Run (Unit {0})
  post_data contract_id deposit (fulfilled (some bytes)) = do
    data_ ← expect (l.from_utf8 bytes)
    add_to_queue (
        chain_call (record {
          chain = near;
          contract_id = contract_id;
          method_name = "post_data_request";
          args = l.data_request_json data_;
          deposit = deposit;
        }))
    add_to_queue (call_self (record { function_name = "bridge_step_2"; args = [] }))
  post_data contract_id deposit (fulfilled none) = pure tt
  post_data contract_id deposit (rejected error) = pure tt
  post_data contract_id deposit unfulfilled = pure tt
  post_data contract_id deposit pending = pure tt

  unfoldable pub bridge_step_1 : Run (Unit {0})
  unfolding post_data
  bridge_step_1 = do
    contract_bytes ← shared_memory_get "contract_id"
    contract_id ← expect (l.from_utf8 contract_bytes)
    status ← result 0
    deposit_bytes ← memory_read "bridge_deposit"
    deposit ← expect (int_from_bytes 16 deposit_bytes)
    post_data contract_id deposit status

  abbrev pub report : PromiseStatus → Run (Unit {0})
  report (fulfilled (some bytes)) = do text ← expect (l.from_utf8 bytes); pure tt
  report (fulfilled none) = pure tt
  report (rejected error) = pure tt
  report unfulfilled = pure tt
  report pending = pure tt

  unfoldable pub bridge_step_2 : Run (Unit {0})
  bridge_step_2 = do status ← result 0; println "{\"status\": \"success\"}"; report status
