-- ===== src/Consensus/Task.antt =====
-- wasm/consensus/src/main.rs and tasks/mod.rs: the task that the command line names. clap reads it.
use seda_rust.Base.{String}
use seda_rust.Consensus.Program.{Run, Libraries}
use seda_rust.Consensus.BatchTask
use seda_rust.Consensus.BridgeTask
use seda_rust.Consensus.BridgeTask.{Bridge}
use seda_rust.Consensus.P2pTask

pub data Task : Type 0 where
  batch : Task
  bridge : Bridge → Task
  p2p : String → Task

unfoldable pub handle : Libraries → Task → Run (Unit {0})
handle l batch = BatchTask.handle l
handle l (bridge b) = BridgeTask.handle l b
handle l (p2p message) = P2pTask.handle l message
