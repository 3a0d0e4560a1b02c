-- ===== src/Runtime/Host.antt =====
-- runtime/core/src/host_adapter.rs: what the runtime asks of its surroundings. `S` is whatever state
-- is out there: the database, the network, the chains, and the memory that the machine's imports reach.
use seda_rust.Base.{ℕ, Bool, Option, List, String}
use seda_rust.Runtime.Promises.{
  ChainViewAction, ChainCallAction, CallSelfAction, Event, P2PCommand, PromiseQueue, HostResult,
}

-- What is left in one of the output pipes of a call: the file system does not give it, it was closed,
-- its bytes are no text, or its text.
pub data Pipe : Type 0 where
  unavailable closed not_text : Pipe
  text : String → Pipe

-- What a call of an exported function leaves behind.
pub record VmRun : Type 0 where
  pub stdout : Pipe
  pub stderr : Pipe
  pub runtime_error : Option String
  pub result : List ℕ
  pub next_queue : PromiseQueue

-- wasmer and WASI: each step of the preparation succeeds or not, then the call runs. `utf8` and
-- `from_utf8` are the encoding of texts.
pub record Vm (S : Type 0) : Type 0 where
  pub finalize : CallSelfAction → Bool
  pub create_wasm_imports : CallSelfAction → Bool
  pub new_instance : CallSelfAction → Bool
  pub get_function : String → Bool
  pub call : CallSelfAction → PromiseQueue → S → VmRun × S
  pub utf8 : String → List ℕ
  pub from_utf8 : List ℕ → HostResult String

pub record HostAdapter (S : Type 0) : Type 0 where
  pub db_get : String → S → HostResult (Option String) × S
  pub db_set : String → String → S → HostResult Unit × S
  pub http_fetch : String → S → HostResult String × S
  pub chain_call : ChainCallAction → S → HostResult (List ℕ) × S
  pub chain_view : ChainViewAction → S → HostResult (List ℕ) × S
  pub trigger_event : Event → S → HostResult Unit × S
  -- Sending on the channel to the peer-to-peer server: false when its receiver is gone.
  pub send : P2PCommand → S → Bool × S

-- `wasm_module` says whether `init` has given the runtime its module; the machine runs that module.
pub record Runtime (S : Type 0) : Type 0 where
  pub wasm_module : Bool
  pub limited : Bool
  pub host_adapter : HostAdapter S
  pub vm : Vm S
