-- ===== src/Runtime/Context.antt =====
-- runtime/core/src/context.rs and errors.rs: what a host function works on, and how it ends. The
-- linear memory of a module is wasmer's: a value of `M`.
use seda_rust.Base.{ℕ, Bool, true, false, Option, none, some, List, [], String}
use seda_rust.Runtime.Promises.{PromiseQueue, HostResult}
use seda_rust.Runtime.InMemory.{InMemory}

pub data Level : Type 0 where
  debug error info trace warn : Level

pub record LogLine : Type 0 where
  pub level : Level
  pub message : String
  pub line_info : String

-- `memory` is none until the module is instantiated; `logs` is what was handed to the log.
pub record VmContext (M : Type 0) : Type 0 where
  pub result : List ℕ
  pub memory : Option M
  pub memory_adapter : InMemory
  pub shared_memory : InMemory
  pub promise_queue : PromiseQueue
  pub current_promise_queue : PromiseQueue
  pub private_key : ℕ
  pub logs : List LogLine

unfoldable pub create_vm_context :
    {M : Type 0} → InMemory → InMemory → PromiseQueue → PromiseQueue → ℕ → VmContext M
create_vm_context memory_adapter shared_memory current_promise_queue promise_queue private_key =
    record {
      result = [];
      memory = none;
      memory_adapter = memory_adapter;
      shared_memory = shared_memory;
      promise_queue = promise_queue;
      current_promise_queue = current_promise_queue;
      private_key = private_key;
      logs = [];
    }

unfoldable pub init_with_instance : {M : Type 0} → M → VmContext M → VmContext M
init_with_instance memory env = record env { memory = some memory }

-- One constructor for each message that a host function gives; numbers are kept beside it. The last
-- two are the module's own traps, when it finds no memory for a vector, and when it reads an answer that
-- it cannot use.
pub data RuntimeError : Type 0 where
  memory_not_retrieved no_promise_data invalid_pointer write_out_of_bounds : RuntimeError
  promise_not_found : ℕ → RuntimeError
  wrong_length : ℕ → ℕ → RuntimeError
  json_error sdk_error : String → RuntimeError
  bn254_error out_of_memory guest_trap : RuntimeError

-- A host function returns, gives an error, which traps the module, or panics.
pub data Outcome (M A : Type 0) : Type 0 where
  returned : A → VmContext M → Outcome M A
  failed : RuntimeError → VmContext M → Outcome M A
  panicked : Outcome M A

abbrev pub Host : Type 0 → Type 0 → Type 0
Host M A = VmContext M → Outcome M A

abbrev pub bind : {M A B : Type 0} → Outcome M A → (A → Host M B) → Outcome M B
bind (returned a env) f = f a env
bind (failed e env) f = failed e env
bind panicked f = panicked

abbrev pub ◌>>=◌ : {M A B : Type 0} → Host M A → (A → Host M B) → Host M B
◌>>=◌ m f env = bind (m env) f

abbrev pub ◌>>◌ : {M B : Type 0} → Host M (Unit {0}) → Host M B → Host M B
m >> k = m >>= λ _. k

infixl 5 ◌>>=◌ ◌>>◌
abbrev pub pure : {M A : Type 0} → A → Host M A
pure a env = returned a env

abbrev pub fail : {M A : Type 0} → RuntimeError → Host M A
fail e env = failed e env

abbrev pub context : {M : Type 0} → Host M (VmContext M)
context env = returned env env

abbrev pub put_context : {M : Type 0} → VmContext M → Host M (Unit {0})
put_context env' env = returned tt env'

-- `ok_or` and `?`
abbrev pub ok_or : {M A : Type 0} → Option A → RuntimeError → Host M A
ok_or none e = fail e
ok_or (some a) e = pure a

abbrev pub ok_if : {M : Type 0} → Bool → RuntimeError → Host M (Unit {0})
ok_if true e = pure tt
ok_if false e = fail e

abbrev pub from_json : {M A : Type 0} → HostResult A → Host M A
from_json (HostResult.ok a) = pure a
from_json (HostResult.err e) = fail (json_error e)

abbrev pub from_sdk : {M A : Type 0} → HostResult A → Host M A
from_sdk (HostResult.ok a) = pure a
from_sdk (HostResult.err e) = fail (sdk_error e)
