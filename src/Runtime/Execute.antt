-- ===== src/Runtime/Execute.antt =====
-- runtime/core/src/runtime.rs, `execute_promise_queue`: one queue after another until one is empty.
pub mod Limited
pub mod Settled
pub mod Traced
pub mod Forgets
use Prim.Native.String
use seda_rust.Base.{
  ℕ, zero, suc, Bool, true, false, ◌&&◌, Option, none, some, List, [], ◌∷◌, ◌++◌, String,
  if◌then◌else◌,
}
use seda_rust.Runtime.Promises.{
  PromiseAction, PromiseStatus, PromiseQueue, HostResult, CallSelfAction, call_self, database_set,
  database_get, http, chain_view, chain_call, trigger_event, p2p_broadcast, pending, fulfilled,
  rejected, broadcast, is_limited_action, display, status_of, status_of_option,
}
use seda_rust.Runtime.Status.{
  ExecutionResult, VmResultStatus, done, failed, empty_queue, wasi_env_initialize_failure,
  failed_to_create_vm_imports, failed_to_create_wasmer_instance, failed_to_get_wasm_fn,
  failed_to_get_wasm_stdout, failed_to_get_wasm_stderr, failed_to_convert_vm_pipe_to_string,
  execution_error,
}
use seda_rust.Runtime.Host.{Runtime, VmRun, Pipe, unavailable, closed, not_text, text}

-- The surroundings, and what the calls printed so far.
pub record Io (S : Type 0) : Type 0 where
  pub state : S
  pub stdout : List String
  pub stderr : List String

-- The loop goes on with a value, returns from `execute_promise_queue`, or panics.
pub data Turn (S A : Type 0) : Type 0 where
  continues : A → Io S → Turn S A
  returns : ExecutionResult → Io S → Turn S A
  panics : Turn S A

unfoldable pub and_then : {S A B : Type 0} → Turn S A → (A → Io S → Turn S B) → Turn S B
and_then (continues a io) f = f a io
and_then (returns result io) f = returns result io
and_then panics f = panics

abbrev pub with_state : {S : Type 0} → S → Io S → Io S
with_state s io = record io { state = s }

-- Texts that are empty are not recorded.
abbrev pub push_text : String → List String → List String
push_text String.[] out = out
push_text (String.◌∷◌ c s) out = out ++ String.◌∷◌ c s ∷ []

abbrev pub not_allowed : PromiseAction → String
not_allowed action =
    String.◌++◌ "Method `" (String.◌++◌ (display action) "` not allowed in limited runtime")

module _ {S : Type 0} where
  unfoldable pub read_stdout : Pipe → Io S → Turn S Unit
  read_stdout unavailable io = returns (failed failed_to_get_wasm_stdout) io
  read_stdout closed io = panics
  read_stdout not_text io = returns (failed failed_to_convert_vm_pipe_to_string) io
  read_stdout (text s) io = continues tt (record io { stdout = push_text s io.stdout })

  unfoldable pub read_stderr : Pipe → Io S → Turn S Unit
  read_stderr unavailable io = returns (failed failed_to_get_wasm_stderr) io
  read_stderr closed io = panics
  read_stderr not_text io = returns (failed failed_to_get_wasm_stderr) io
  read_stderr (text s) io = continues tt (record io { stderr = push_text s io.stderr })

  abbrev pub require : Bool → VmResultStatus → Io S → Turn S Unit
  require true status io = continues tt io
  require false status io = returns (failed status) io

  -- The status of the call and the queue it filled, unless the machine stopped with an error.
  unfoldable pub outcome : VmRun → Option String → Io S → Turn S (PromiseStatus × PromiseQueue)
  outcome run none io = continues (fulfilled (some run.result), run.next_queue) io
  outcome run (some error) io = returns (done (execution_error error)) io

  -- The arm `CallSelf`.
  unfoldable pub run_call :
      Runtime S → CallSelfAction → PromiseQueue → Io S → Turn S (PromiseStatus × PromiseQueue)
  run_call r a current io =
      and_then (require (r.vm.finalize a) wasi_env_initialize_failure io) (λ _ io1.
        and_then (require (r.vm.create_wasm_imports a) failed_to_create_vm_imports io1) (λ _ io2.
          and_then (require (r.vm.new_instance a) failed_to_create_wasmer_instance io2) (λ _ io3.
            and_then (require (r.vm.get_function a.function_name) failed_to_get_wasm_fn io3)
              (λ _ io4.
                let (run, s) = r.vm.call a current io4.state in
                and_then (read_stdout run.stdout (with_state s io4)) (λ _ io5.
                  and_then (read_stderr run.stderr io5)
                    (λ _ io6. outcome run run.runtime_error io6))))))

  abbrev pub settled :
      PromiseQueue → PromiseStatus → S → Io S → Turn S (PromiseStatus × PromiseQueue)
  settled next status s io = continues (status, next) (with_state s io)

  unfoldable pub set_in_database :
      Runtime S
      → String
      → HostResult String
      → PromiseQueue
      → Io S
      → Turn S (PromiseStatus × PromiseQueue)
  set_in_database r key (HostResult.err e) next io =
      settled next (rejected (r.vm.utf8 e)) io.state io
  set_in_database r key (HostResult.ok value) next io =
      let (result, s) = r.host_adapter.db_set key value io.state in
      settled next (status_of r.vm.utf8 (λ _. []) result) s io

  -- The arms of the `match` on an action that is allowed. Only `CallSelf` replaces the next queue, and
  -- a broadcast leaves its promise pending.
  unfoldable pub perform :
      Runtime S
      → PromiseAction
      → PromiseQueue
      → PromiseQueue
      → Io S
      → Turn S (PromiseStatus × PromiseQueue)
  perform r (call_self a) current next io = run_call r a current io
  perform r (database_set key value) current next io =
      set_in_database r key (r.vm.from_utf8 value) next io
  perform r (database_get key) current next io =
      let (result, s) = r.host_adapter.db_get key io.state in
      settled next (status_of_option r.vm.utf8 r.vm.utf8 result) s io
  perform r (http url) current next io =
      let (result, s) = r.host_adapter.http_fetch url io.state in
      settled next (status_of r.vm.utf8 r.vm.utf8 result) s io
  perform r (chain_view a) current next io =
      let (result, s) = r.host_adapter.chain_view a io.state in
      settled next (status_of r.vm.utf8 (λ bytes. bytes) result) s io
  perform r (chain_call a) current next io =
      let (result, s) = r.host_adapter.chain_call a io.state in
      settled next (status_of r.vm.utf8 (λ bytes. bytes) result) s io
  perform r (trigger_event event) current next io =
      let (result, s) = r.host_adapter.trigger_event event io.state in
      settled next (status_of r.vm.utf8 (λ _. []) result) s io
  perform r (p2p_broadcast bytes) current next io =
      let (sent, s) = r.host_adapter.send (broadcast bytes) io.state in
      if sent then settled next pending s io else panics

  unfoldable pub settle :
      Runtime S
      → PromiseAction
      → PromiseQueue
      → PromiseQueue
      → Io S
      → Turn S (PromiseStatus × PromiseQueue)
  settle r action current next io =
      if r.limited && is_limited_action action
      then settled next (rejected (r.vm.utf8 (not_allowed action))) io.state io
      else perform r action current next io

  -- The `for` loop: `before` is settled, the rest is as the queue was given.
  unfoldable pub settle_all :
      Runtime S
      → PromiseQueue
      → PromiseQueue
      → PromiseQueue
      → Io S
      → Turn S (PromiseQueue × PromiseQueue)
  settle_all r before [] next io = continues (before, next) io
  settle_all r before (p ∷ rest) next io =
      and_then (settle r p.action (before ++ record p { status = pending } ∷ rest) next io)
        (λ (status, next') io'.
          settle_all r (before ++ record p { status = status } ∷ []) rest next' io')

-- What a run comes to. `out_of_fuel` is none of the source's outcomes: it says that the rounds given
-- were too few.
pub data Execution (S : Type 0) : Type 0 where
  finished : ExecutionResult → List PromiseQueue → Io S → Execution S
  panicked out_of_fuel : Execution S

module _ {S : Type 0} where
  abbrev pub next_round :
      List PromiseQueue
      → (PromiseQueue → List PromiseQueue → Io S → Execution S)
      → Turn S (PromiseQueue × PromiseQueue)
      → Execution S
  next_round trace again (continues (queue, next) io) = again next (trace ++ queue ∷ []) io
  next_round trace again (returns result io) = finished result trace io
  next_round trace again panics = panicked

  unfoldable pub execute_promise_queue :
      ℕ → Runtime S → PromiseQueue → List PromiseQueue → Io S → Execution S
  execute_promise_queue zero r queue trace io = out_of_fuel
  execute_promise_queue (suc fuel) r [] trace io = finished (done empty_queue) trace io
  execute_promise_queue (suc fuel) r (p ∷ rest) trace io =
      next_round trace (execute_promise_queue fuel r) (settle_all r [] (p ∷ rest) [] io)
