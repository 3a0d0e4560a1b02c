-- ===== src/Contract/Calls.antt =====
-- The contract as the chain drives it: one call after the other, each with its own environment, and a
-- call that panics is rolled back. (The dispatch is what `near_bindgen` generates for the public
-- methods of contracts/src.)
use seda_rust.Base.{ℕ, List, [], ◌∷◌, String}
use seda_rust.Contract.State.{Env, World, AccountId, Bytes, UpdateNode, UpdateConfig, FungibleToken}
use seda_rust.Contract.Results.{Result, ok, attempt, ◌>>=◌}
use seda_rust.Contract.Dao.{update_config}
use seda_rust.Contract.Registry.{
  register_node, unregister_node, update_node, deposit, request_withdraw, cancel_withdraw_request,
  withdraw,
}
use seda_rust.Contract.Epoch.{process_epoch}
use seda_rust.Contract.DataRequests.{post_data_request}
use seda_rust.Contract.Batches.{post_signed_batch}

pub data Call : Type 0 where
  registers : String → Bytes → Bytes → Call
  unregisters cancels : Bytes → Call
  updates : UpdateNode → Call
  deposits requests withdraws : ℕ → Bytes → Call
  processes_epoch : Call
  posts_request : String → Call
  posts_batch : Bytes → Bytes → List AccountId → Bytes → Call
  configures : UpdateConfig → ℕ → Call
  -- a method of the token standard, which may leave any balances
  moves_tokens : FungibleToken → Call

unfoldable pub step : Env → Call → World → Result World
step env (registers multi_addr key signature) w = register_node env multi_addr key signature w
step env (unregisters key) w = unregister_node env key w
step env (cancels key) w = cancel_withdraw_request env key w
step env (updates command) w = update_node env command w
step env (deposits amount key) w = deposit env amount key w
step env (requests amount key) w = do (answer, w') ← request_withdraw env amount key w; ok w'
step env (withdraws amount key) w = withdraw env amount key w
step env processes_epoch w = process_epoch env w
step env (posts_request data_request) w = post_data_request env data_request w
step env (posts_batch signature key signers leader_signature) w =
    post_signed_batch env signature key signers leader_signature w
step env (configures key value) w = do
  c ← update_config env key value w.contract
  ok (record w { contract = c })
step env (moves_tokens token) w = ok (record w { contract = record w.contract { token = token } })

unfoldable pub run : List (Env × Call) → World → World
run [] w = w
run ((env, call) ∷ calls) w = run calls (attempt w (step env call w))
