-- ===== src/Node/Jobs.antt =====
-- node/src/runtime_job.rs: what the runtime's worker does with an event. Bytes that are no text panic.
use seda_rust.Base.{ℕ, false, Option, none, some, List, [], ◌∷◌, String}
use seda_rust.Runtime.Promises.{
  Event, EventData, HostResult, batch_chain_tick, chain_tick, p2p_message, cli_call,
}
use seda_rust.Runtime.Host.{Runtime}
use seda_rust.Runtime.Start.{VmConfig, Ended, start_runtime}
use seda_rust.Runtime.Start

abbrev text_arg : HostResult String → Option (List String)
text_arg (HostResult.ok text) = some ("p2p" ∷ text ∷ [])
text_arg (HostResult.err e) = none

unfoldable pub args_of : (List ℕ → HostResult String) → EventData → Option (List String)
args_of from_utf8 batch_chain_tick = some ("batch" ∷ [])
args_of from_utf8 chain_tick = some []
args_of from_utf8 (cli_call args) = some args
args_of from_utf8 (p2p_message message) = text_arg (from_utf8 message.data_)

abbrev pub vm_config : List String → VmConfig
vm_config args = record { args = args; program_name = "test"; debug = false; start_func = none }

unfoldable pub runtime_job : {S : Type 0} → ℕ → Runtime S → Event → S → Ended S
runtime_job fuel r event s = elim (args_of r.vm.from_utf8 event.event_data) [
  | none ↦ Start.panicked
  | some args ↦ start_runtime fuel r (vm_config args) s
]
