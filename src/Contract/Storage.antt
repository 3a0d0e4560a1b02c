-- ===== src/Contract/Storage.antt =====
-- contracts/src/storage.rs: `manage_storage_deposit!`, which charges a call for the bytes that it
-- adds to the contract, or pays its signer back for those that it frees.
pub mod Settlement
use seda_rust.Base.{ℕ, ◌∷◌, leb, ltb, if◌then◌else◌, sub_u64, mul_u128}
use seda_rust.Contract.State.{Env, World, MainchainContract}
use seda_rust.Contract.Results.{Result, ok, insufficient_storage, assert, ◌>>=◌, ◌>>◌}

-- `storage_cost`, of the bytes from `low` up to `high`.
unfoldable pub storage_cost : Env → ℕ → ℕ → ℕ
storage_cost env high low = mul_u128 env.storage_byte_cost (sub_u64 high low)

unfoldable pub require_storage_deposit : Env → ℕ → World → Result World
require_storage_deposit env initial w = do
  assert (leb (storage_cost env (env.storage_usage w.contract) initial) env.attached_deposit)
      insufficient_storage
  ok w

unfoldable pub refund_storage_deposit : Env → ℕ → World → Result World
refund_storage_deposit env initial w = ok (record w {
  transfers =
      (env.signer_account_id, storage_cost env initial (env.storage_usage w.contract))
      ∷ w.transfers;
})

-- The macro's last step, in its three forms. `initial` is the usage before the body ran.
pub data Direction : Type 0 where
  require refund either : Direction

unfoldable pub settle : Direction → Env → ℕ → World → Result World
unfolding require_storage_deposit refund_storage_deposit
settle require env initial w = require_storage_deposit env initial w
settle refund env initial w = refund_storage_deposit env initial w
settle either env initial w =
    if ltb initial (env.storage_usage w.contract)
    then require_storage_deposit env initial w
    else refund_storage_deposit env initial w

-- The macro around a body that is itself a method, and around one that touches the contract alone.
unfoldable pub manage_world : Direction → Env → (World → Result World) → World → Result World
manage_world direction env body w = do
  w' ← body w
  settle direction env (env.storage_usage w.contract) w'

unfoldable pub manage_storage_deposit :
    Direction → Env → (MainchainContract → Result MainchainContract) → World → Result World
unfolding manage_world
manage_storage_deposit direction env body =
    manage_world direction env
      (λ w. do contract ← body w.contract; ok (record w { contract = contract }))
