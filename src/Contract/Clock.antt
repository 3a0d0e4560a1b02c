-- ===== src/Contract/Clock.antt =====
-- The slot and the epoch of a block (contracts/src/slot.rs, and `get_current_epoch` of epoch.rs).
use seda_rust.Base.{ℕ, ◌/◌, ◌*◌}
use seda_rust.Contract.State.{Env}
use seda_rust.Contract.Dao.{near_blocks_per_seda_slot, slots_per_epoch}

unfoldable pub get_current_slot : Env → ℕ
get_current_slot env = env.block_height / near_blocks_per_seda_slot

unfoldable pub get_current_epoch : Env → ℕ
get_current_epoch env = env.block_height / (near_blocks_per_seda_slot * slots_per_epoch)
