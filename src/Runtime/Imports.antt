-- ===== src/Runtime/Imports.antt =====
-- runtime/core/src/imports.rs: the functions that a WASM module imports from its host.
pub mod Bounds
pub mod Status
use seda_rust.Base.{
  ℕ, zero, suc, ◌+◌, ◌%◌, ◌^◌, Bool, true, false, Option, none, some, List, [], ◌∷◌, ◌++◌, String,
  length, get_elem?, take, eqb, ltb, if◌then◌else◌, i32_as_usize, unwrap_or,
}
use seda_rust.Runtime.Promises.{Promise, HostResult, ok, add_promise}
use seda_rust.Runtime.InMemory
use seda_rust.Runtime.InMemory.{InMemory}
use seda_rust.Runtime.Linear.{Wasmer, read_cells}
use seda_rust.Runtime.Context.{
  VmContext, LogLine, Outcome, returned, failed, panicked, Host, RuntimeError, memory_not_retrieved,
  no_promise_data, invalid_pointer, write_out_of_bounds, promise_not_found, wrong_length,
  bn254_error, ◌>>=◌, ◌>>◌, pure, fail, context, put_context, ok_or, ok_if, from_json, from_sdk,
}

-- The cast of an `i64` to a `u32`; to a `usize` of 64 bits it keeps the pattern.
abbrev pub as_u32 : ℕ → ℕ
as_u32 n = n % 2 ^ 32

-- How often `for index in 0..n` runs for an `i64`.
abbrev pub rounds_below : ℕ → ℕ
rounds_below n = if ltb n (2 ^ 63) then n else 0

abbrev pub bool_as_u8 : Bool → ℕ
bool_as_u8 true = 1
bool_as_u8 false = 0

-- The two memories that a program reaches: its own, and the one shared with other programs.
pub data Adapter : Type 0 where
  own shared : Adapter

unfoldable pub get_memory : {M : Type 0} → Host M M
get_memory = do env ← context; ok_or env.memory memory_not_retrieved

unfoldable pub adapter : {M : Type 0} → Adapter → VmContext M → InMemory
adapter own env = env.memory_adapter
adapter shared env = env.shared_memory

unfoldable pub with_adapter : {M : Type 0} → Adapter → InMemory → VmContext M → VmContext M
with_adapter own memory env = record env { memory_adapter = memory }
with_adapter shared memory env = record env { shared_memory = memory }

module _ {M : Type 0} (w : Wasmer M) where
  unfoldable pub key_at : ℕ → ℕ → Host M String
  unfolding get_memory
  key_at ptr n = do m ← get_memory; ok_or (w.get_utf8_string m ptr n) no_promise_data

  unfoldable pub bytes_at : ℕ → ℕ → Host M (List ℕ)
  unfolding get_memory
  bytes_at ptr n = do
    m ← get_memory
    ok_if (w.deref m ptr n) invalid_pointer
    pure (read_cells w m ptr n)

  -- `derefed_ptr.get(index)` of a slice of `n` cells, and its `set`.
  unfoldable pub set_cell : ℕ → ℕ → ℕ → ℕ → Host M (Unit {0})
  unfolding get_memory
  set_cell ptr n index byte = do
    ok_if (ltb index n) write_out_of_bounds
    m ← get_memory
    env ← context
    put_context (record env { memory = some (w.store m (ptr + index) byte) })

  unfoldable pub write_cells : ℕ → ℕ → ℕ → List ℕ → Host M (Unit {0})
  write_cells ptr n index [] = pure tt
  write_cells ptr n index (byte ∷ bytes) = do
    set_cell ptr n index byte
    write_cells ptr n (suc index) bytes

  -- A value goes to the module's buffer, which must have its length.
  unfoldable pub copy_out : List ℕ → ℕ → ℕ → Host M (Unit {0})
  unfolding get_memory
  copy_out value ptr n = do
    ok_if (eqb n (length value)) (wrong_length n (length value))
    m ← get_memory
    ok_if (w.deref m ptr (as_u32 n)) invalid_pointer
    write_cells ptr (as_u32 n) 0 (take n value)

  unfoldable pub promise_then : ℕ → ℕ → Host M (Unit {0})
  unfolding key_at
  promise_then ptr n = do
    promise_data_raw ← key_at ptr n
    promise ← from_json (w.promise_from_str promise_data_raw)
    env ← context
    put_context (record env { promise_queue = add_promise promise env.promise_queue })

  -- The promise of that index, and its status as JSON.
  unfoldable pub status_at : ℕ → Host M (List ℕ)
  status_at index = do
    env ← context
    promise ←
        ok_or (get_elem? env.current_promise_queue (i32_as_usize index)) (promise_not_found index)
    status ← from_json (w.status_to_string promise.status)
    pure (w.utf8 status)

  unfoldable pub promise_status_length : ℕ → Host M ℕ
  unfolding status_at
  promise_status_length index = do bytes ← status_at index; pure (length bytes)

  -- The loop of `promise_status_write`; `promise_status_bytes[index]` panics past the end.
  unfoldable pub write_status : ℕ → ℕ → List ℕ → ℕ → ℕ → Host M (Unit {0})
  write_status ptr n bytes index zero = pure tt
  write_status ptr n bytes index (suc rounds) = do
    ok_if (ltb index n) write_out_of_bounds
    byte ← elim (get_elem? bytes index) [ none ↦ λ env. panicked | some byte ↦ pure byte ]
    set_cell ptr n index byte
    write_status ptr n bytes (suc index) rounds

  unfoldable pub promise_status_write : ℕ → ℕ → ℕ → Host M (Unit {0})
  unfolding get_memory status_at
  promise_status_write index ptr n = do
    m ← get_memory
    bytes ← status_at index
    ok_if (w.deref m ptr (as_u32 n)) invalid_pointer
    write_status ptr (as_u32 n) bytes 0 (rounds_below n)

  -- The bytes under a key, none if there are none.
  unfoldable pub read_value : Adapter → String → Host M (List ℕ)
  unfolding adapter
  read_value a key = do
    env ← context
    value ← from_sdk (InMemory.get (λ bytes. ok bytes) (adapter a env) key)
    pure (unwrap_or value [])

  -- `memory_read`, and `shared_memory_read` below
  unfoldable pub memory_read : Adapter → ℕ → ℕ → ℕ → ℕ → Host M (Unit {0})
  memory_read a key key_length result_ptr result_length = do
    k ← key_at key (as_u32 key_length)
    value ← read_value a k
    copy_out value result_ptr result_length

  -- `memory_read_length`, and `shared_memory_read_length` below
  unfoldable pub memory_read_length : Adapter → ℕ → ℕ → Host M ℕ
  memory_read_length a key key_length = do
    k ← key_at key (as_u32 key_length)
    value ← read_value a k
    pure (length value)

  -- `memory_write`, and `shared_memory_write` below
  unfoldable pub memory_write : Adapter → ℕ → ℕ → ℕ → ℕ → Host M (Unit {0})
  unfolding adapter with_adapter
  memory_write a key key_length value value_len = do
    k ← key_at key (as_u32 key_length)
    bytes ← bytes_at value (as_u32 value_len)
    env ← context
    put_context (with_adapter a (InMemory.put (λ bytes. bytes) (adapter a env) k bytes).1 env)

  abbrev pub shared_memory_read : ℕ → ℕ → ℕ → ℕ → Host M (Unit {0})
  shared_memory_read = memory_read shared

  abbrev pub shared_memory_read_length : ℕ → ℕ → Host M ℕ
  shared_memory_read_length = memory_read_length shared

  abbrev pub shared_memory_write : ℕ → ℕ → ℕ → ℕ → Host M (Unit {0})
  shared_memory_write = memory_write shared

  unfoldable pub shared_memory_contains_key : ℕ → ℕ → Host M ℕ
  shared_memory_contains_key key key_length = do
    k ← key_at key (as_u32 key_length)
    env ← context
    pure (bool_as_u8 (InMemory.contains_key env.shared_memory k))

  unfoldable pub execution_result : ℕ → ℕ → Host M (Unit {0})
  execution_result ptr n = do
    bytes ← bytes_at ptr n
    env ← context
    put_context (record env { result = bytes })

  unfoldable pub log : ℕ → ℕ → ℕ → ℕ → ℕ → ℕ → Host M (Unit {0})
  log level level_len msg msg_len line_info line_info_len = do
    raw ← key_at level level_len
    level' ← from_json (w.level_from_str raw)
    message ← key_at msg (as_u32 msg_len)
    line ← key_at line_info (as_u32 line_info_len)
    env ← context
    put_context (record env {
      logs = env.logs ++ record { level = level'; message = message; line_info = line } ∷ [];
    })

  unfoldable pub bn254_verify : ℕ → ℕ → ℕ → ℕ → ℕ → ℕ → Host M ℕ
  bn254_verify message message_length signature signature_length public_key public_key_length = do
    message' ← bytes_at message (as_u32 message_length)
    signature' ← bytes_at signature (as_u32 signature_length)
    public_key' ← bytes_at public_key (as_u32 public_key_length)
    signature_obj ← ok_or (w.signature_from_uncompressed signature') bn254_error
    public_key_obj ← ok_or (w.public_key_from_uncompressed public_key') bn254_error
    pure (bool_as_u8 (w.verify message' signature_obj public_key_obj))

  unfoldable pub bn254_sign : ℕ → ℕ → ℕ → ℕ → Host M (Unit {0})
  bn254_sign message message_length result_ptr result_length = do
    message' ← bytes_at message (as_u32 message_length)
    env ← context
    signature ← ok_or (w.sign message' env.private_key) bn254_error
    result ← ok_or (w.signature_to_uncompressed signature) bn254_error
    copy_out result result_ptr result_length
