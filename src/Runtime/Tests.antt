-- ===== src/Runtime/Tests.antt =====
-- The runtime on a small machine and host.
pub mod Codes
pub mod Cells
pub mod Memory
use seda_rust.Base.{
  ◌↔◌, ◌⊎◌, ℕ, suc, ◌+◌, ◌≡◌, ◌≢◌, refl, arith, Bool, true, false, none, some, List, [], ◌∷◌,
  length,
}
use seda_rust.Runtime.Promises.{
  Promise, HostResult, call_self, database_set, unfulfilled, add_promise, is_limited_action,
}
use seda_rust.Runtime.Bytes.{int_from_bytes, int_to_bytes}
use seda_rust.Runtime.Host.{HostAdapter, Vm, Runtime, VmRun, Pipe, text, closed}
use seda_rust.Runtime.Execute
use seda_rust.Runtime.Execute.{
  Io, Execution, execute_promise_queue, settle_all, out_of_fuel, finished,
}
use seda_rust.Runtime.Execute.Settled.{Holds, Extends, settle_all-Extends}
use seda_rust.Runtime.Execute.Traced.{
  EndsTraced, execute_promise_queue-EndsTraced, start_runtime-panicked,
}
use seda_rust.Runtime.Execute.Limited.{with_host, execute_promise_queue-limited}
use seda_rust.Runtime.Execute.Forgets.{settle_all-forgets}
use seda_rust.Runtime.Start
use seda_rust.Runtime.Start.{start_runtime, VmConfig}

-- A host whose state counts what it was asked for.
abbrev counting : HostAdapter ℕ
counting = record {
  db_get = λ key n. (HostResult.ok none, suc n);
  db_set = λ key value n. (HostResult.ok tt, suc n);
  http_fetch = λ url n. (HostResult.ok "page", suc n);
  chain_call = λ a n. (HostResult.err "no chain", suc n);
  chain_view = λ a n. (HostResult.err "no chain", suc n);
  trigger_event = λ event n. (HostResult.ok tt, suc n);
  send = λ command n. (true, suc n);
}

abbrev run_of : Pipe → VmRun
run_of out = record {
  stdout = out;
  stderr = text "";
  runtime_error = none;
  result = 7 ∷ [];
  next_queue = [];
}

abbrev machine : Pipe → Vm ℕ
machine out = record {
  finalize = λ a. true;
  create_wasm_imports = λ a. true;
  new_instance = λ a. true;
  get_function = λ name. true;
  call = λ a current n. (run_of out, n);
  utf8 = λ s. [];
  from_utf8 = λ bytes. HostResult.ok "text";
}

abbrev runtime : Bool → Pipe → Runtime ℕ
runtime limited out = record {
  wasm_module = true;
  limited = limited;
  host_adapter = counting;
  vm = machine out;
}

abbrev call : Promise
call = record {
  action = call_self (record { function_name = "f"; args = [] });
  status = unfulfilled;
}

abbrev write : Promise
write = record { action = database_set "key" (1 ∷ []); status = unfulfilled }

abbrev io : Io ℕ
io = record { state = 0; stdout = []; stderr = [] }

abbrev bytes : List ℕ
bytes = 1 ∷ 2 ∷ []

settle_all-Extends_example :
    Holds
      (Extends [] (call ∷ write ∷ []))
      (settle_all (runtime false (text "hello")) [] (call ∷ write ∷ []) [] io)
settle_all-Extends_example =
    settle_all-Extends (runtime false (text "hello")) [] (call ∷ write ∷ []) [] io

execute_promise_queue-EndsTraced_example :
    EndsTraced (execute_promise_queue 3 (runtime false (text "hello")) (call ∷ write ∷ []) [] io)
execute_promise_queue-EndsTraced_example =
    execute_promise_queue-EndsTraced 3 (runtime false (text "hello")) (call ∷ write ∷ []) [] io tt

abbrev vm_config : VmConfig
vm_config = record { program_name = "test"; start_func = none; args = []; debug = false }

panics_at_start : start_runtime 3 (runtime false closed) vm_config 0 ≡ Start.panicked
unfolding start_runtime execute_promise_queue settle_all Execute.settle Execute.perform
    Execute.run_call Execute.and_then Execute.read_stdout Start.shown add_promise is_limited_action
panics_at_start = refl

start_runtime-panicked_example :
    (start_runtime 3 (runtime false closed) vm_config 0 ≡ Start.panicked) ↔ (
      ((runtime false closed).wasm_module ≡ false)
      ⊎ (execute_promise_queue 3
            (runtime false closed)
            (add_promise (Start.entry vm_config) [])
            []
            io
          ≡ Execute.panicked))
start_runtime-panicked_example = start_runtime-panicked 3 (runtime false closed) vm_config 0

-- A host that answers nothing but HTTP requests.
abbrev deaf : HostAdapter ℕ
deaf = record counting { db_set = λ key value n. (HostResult.err "deaf", n) }

execute_promise_queue-limited_example :
    execute_promise_queue 3 (runtime true (text "hello")) (call ∷ write ∷ []) [] io
    ≡ execute_promise_queue 3
        (with_host deaf (runtime true (text "hello")))
        (call ∷ write ∷ [])
        []
        io
execute_promise_queue-limited_example =
    execute_promise_queue-limited (runtime true (text "hello")) deaf refl (λ url n. refl) 3
      (call ∷ write ∷ []) [] io

settle_all-forgets_example :
    settle_all (runtime false (text "hello")) [] (write ∷ call ∷ []) (write ∷ []) io
    ≡ settle_all (runtime false (text "hello")) [] (write ∷ call ∷ []) [] io
settle_all-forgets_example =
    settle_all-forgets (runtime false (text "hello")) [] (write ∷ call ∷ []) (write ∷ []) [] io refl

-- A runtime that was made but given no module.
abbrev bare : Runtime ℕ
bare = elim (Start.new false (HostResult.ok counting) (machine closed)) [
  | HostResult.ok r ↦ r
  | HostResult.err e ↦ runtime false closed
]

panics_without_module : start_runtime 3 bare vm_config 0 ≡ Start.panicked
unfolding start_runtime Start.new
panics_without_module = refl

loads_module :
    Start.init (HostResult.ok (machine (text "hello"))) bare
    ≡ (HostResult.ok tt, runtime false (text "hello"))
unfolding Start.new Start.init
loads_module = refl
