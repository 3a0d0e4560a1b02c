-- ===== src/Runtime/Start.antt =====
-- runtime/core/src/runtime.rs, `new`, `init` and `start_runtime`: a run from its entry
-- point to the result shown.
use seda_rust.Base.{
  ℕ, Bool, true, false, Option, none, some, List, [], ◌∷◌, String, unwrap_or, if◌then◌else◌,
}
use seda_rust.Runtime.Promises.{
  Promise, PromiseQueue, PromiseStatus, call_self, unfulfilled, pending, fulfilled, rejected,
  add_promise, HostResult,
}
use seda_rust.Runtime.Status.{VmResult, exit_info_of_execution}
use seda_rust.Runtime.Host.{Runtime, HostAdapter, Vm}
use seda_rust.Runtime.Execute
use seda_rust.Runtime.Execute.{Io, Execution, finished, execute_promise_queue}

-- A runtime without a module. `machine` is what the module to come will run on; making the host's
-- adapter may fail.
unfoldable pub new :
    {S : Type 0} → Bool → HostResult (HostAdapter S) → Vm S → HostResult (Runtime S)
new limited (HostResult.err e) machine = HostResult.err e
new limited (HostResult.ok host_adapter) machine =
    HostResult.ok
      (record { wasm_module = false; limited = limited; host_adapter = host_adapter; vm = machine })

-- `init` is given what wasmer makes of the binary.
unfoldable pub init :
    {S : Type 0} → HostResult (Vm S) → Runtime S → HostResult (Unit {0}) × Runtime S
init (HostResult.err e) r = (HostResult.err e, r)
init (HostResult.ok vm) r = (HostResult.ok tt, record r { wasm_module = true; vm = vm })

pub record VmConfig : Type 0 where
  pub program_name : String
  pub start_func : Option String
  pub args : List String
  pub debug : Bool

abbrev pub last : {A : Type 0} → List A → Option A
last [] = none
last (x ∷ []) = some x
last (x ∷ y ∷ ys) = last (y ∷ ys)

unfoldable pub result_of_status : PromiseStatus → Option (List ℕ)
result_of_status (fulfilled data_) = data_
result_of_status (rejected data_) = some data_
result_of_status unfulfilled = none
result_of_status pending = none

-- How a run is shown, or that it panicked. `ended` also knows the surroundings it leaves.
pub data Ended (S : Type 0) : Type 0 where
  ended : VmResult → S → Ended S
  panicked out_of_fuel : Ended S

-- The last promise of the last queue traced. A queue traced is not empty: `none` is the `unwrap`.
unfoldable pub result_of_trace : Option PromiseQueue → Option (Option (List ℕ))
result_of_trace none = some none
result_of_trace (some queue) = elim (last queue) [
  | none ↦ none
  | some promise ↦ some (result_of_status promise.status)
]

unfoldable pub shown : {S : Type 0} → Execution S → Ended S
shown Execute.panicked = panicked
shown Execute.out_of_fuel = out_of_fuel
shown (finished result trace io) = elim (result_of_trace (last trace)) [
  | none ↦ panicked
  | some data_ ↦
      ended
        (record {
          stdout = io.stdout;
          stderr = io.stderr;
          result = data_;
          exit_info = exit_info_of_execution result;
        })
        io.state
]

abbrev pub entry : VmConfig → Promise
entry config = record {
  action =
      call_self
        (record { function_name = unwrap_or config.start_func "_start"; args = config.args });
  status = unfulfilled;
}

-- `self.wasm_module` is unwrapped first.
unfoldable pub start_runtime : {S : Type 0} → ℕ → Runtime S → VmConfig → S → Ended S
unfolding shown
start_runtime fuel r config s =
    if r.wasm_module
    then shown (
        execute_promise_queue fuel r (add_promise (entry config) []) []
          (record { state = s; stdout = []; stderr = [] }))
    else panicked
