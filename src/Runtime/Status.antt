-- ===== src/Runtime/Status.antt =====
-- runtime/core/src/vm_result.rs: how a run ends, and the exit information shown for it.
use Prim.Native.String
use seda_rust.Base.{ℕ, Option, List, String}

pub record ExitInfo : Type 0 where
  pub exit_message : String
  pub exit_code : ℕ

pub record VmResult : Type 0 where
  pub stdout : List String
  pub stderr : List String
  pub result : Option (List ℕ)
  pub exit_info : ExitInfo

pub data VmResultStatus : Type 0 where
  empty_queue : VmResultStatus
  ok : String → VmResultStatus
  failed_to_set_config wasi_env_initialize_failure : VmResultStatus
  failed_to_create_vm_imports failed_to_create_wasmer_instance : VmResultStatus
  failed_to_get_wasm_fn failed_to_get_wasm_stdout failed_to_get_wasm_stderr : VmResultStatus
  failed_to_convert_vm_pipe_to_string : VmResultStatus
  execution_error : String → VmResultStatus

abbrev info : String → ℕ → ExitInfo
info message code = record { exit_message = message; exit_code = code }

unfoldable pub exit_info_of : VmResultStatus → ExitInfo
exit_info_of empty_queue = info "Success: Empty Promise Queue" 0
exit_info_of (ok msg) = info (String.◌++◌ "Success: " msg) 0
exit_info_of failed_to_set_config = info "Error: Failed to set VM Config" 1
exit_info_of wasi_env_initialize_failure = info "Error: Failed to initialize Wasi Env" 2
exit_info_of failed_to_create_vm_imports = info "Error: Failed to create host imports for VM" 3
exit_info_of failed_to_create_wasmer_instance = info "Error: Failed to create WASMER instance" 4
exit_info_of failed_to_get_wasm_fn =
    info "Error: Failed to find specified function in WASM binary" 5
exit_info_of failed_to_get_wasm_stdout = info "Error: Failed to get STDOUT of VM" 6
exit_info_of failed_to_get_wasm_stderr = info "Error: Failed to get STDERR of VM" 7
exit_info_of failed_to_convert_vm_pipe_to_string =
    info "Error: Failed to convert VM pipe output to String" 8
exit_info_of (execution_error err) = info (String.◌++◌ "Execution Error: " err) 8

-- Rust's `Result` with a status on both sides.
pub data ExecutionResult : Type 0 where
  done failed : VmResultStatus → ExecutionResult

unfoldable pub exit_info_of_execution : ExecutionResult → ExitInfo
exit_info_of_execution (done status) = exit_info_of status
exit_info_of_execution (failed status) = exit_info_of status
