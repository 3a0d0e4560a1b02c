-- ===== src/Runtime/Sdk.antt =====
-- runtime/sdk/src/wasm/memory.rs, promise.rs, bn254.rs, log.rs and execution.rs: what a WASM program
-- calls, over the imports of its host. `alloc` is the module's allocator: a new vector with the bytes
-- given.
pub mod Store
use seda_rust.Base.{
  ℕ, zero, suc, ◌%◌, ◌^◌, Bool, true, false, Option, none, some, List, [], ◌∷◌, String, length, eqb,
  if◌then◌else◌,
}
use seda_rust.Runtime.Promises.{PromiseStatus, Promise, HostResult}
use seda_rust.Runtime.Linear.{Wasmer, read_cells}
use seda_rust.Runtime.Context.{
  VmContext, Outcome, returned, failed, panicked, Host, guest_trap, out_of_memory, ◌>>=◌, ◌>>◌,
  pure, fail, context, put_context, ok_or,
}
use seda_rust.Runtime.Imports
use seda_rust.Runtime.Imports.{Adapter, own, shared, get_memory, as_u32}

abbrev pub Alloc : Type 0 → Type 0
Alloc M = List ℕ → M → Option (ℕ × M)

abbrev pub replicate : ℕ → List ℕ
replicate zero = []
replicate (suc n) = 0 ∷ replicate n

module _ {M : Type 0} (w : Wasmer M) (alloc : Alloc M) where
  -- A vector of the module: its address.
  unfoldable pub vector : List ℕ → Host M ℕ
  unfolding get_memory
  vector bytes = do
    m ← get_memory
    (ptr, m') ← ok_or (alloc bytes m) out_of_memory
    env ← context
    put_context (record env { memory = some m' })
    pure ptr

  -- The bytes of a vector.
  unfoldable pub vector_bytes : ℕ → ℕ → Host M (List ℕ)
  unfolding get_memory
  vector_bytes ptr n = do m ← get_memory; pure (read_cells w m ptr n)

  -- `memory_read`, and `shared_memory_get` below
  unfoldable pub memory_read : Adapter → String → Host M (List ℕ)
  memory_read a key = do
    k ← vector (w.utf8 key)
    value_len ← Imports.memory_read_length w a k (length (w.utf8 key))
    ptr ← vector (replicate (as_u32 value_len))
    Imports.memory_read w a k (length (w.utf8 key)) ptr value_len
    vector_bytes ptr (as_u32 value_len)

  -- `memory_write`, and `shared_memory_set` below
  unfoldable pub memory_write : Adapter → String → List ℕ → Host M (Unit {0})
  memory_write a key value = do
    v ← vector value
    k ← vector (w.utf8 key)
    Imports.memory_write w a k (length (w.utf8 key)) v (length value)

  abbrev pub shared_memory_get : String → Host M (List ℕ)
  shared_memory_get = memory_read shared

  abbrev pub shared_memory_set : String → List ℕ → Host M (Unit {0})
  shared_memory_set = memory_write shared

  -- An answer other than 0 and 1 is unreachable.
  abbrev pub bool_of_u8 : ℕ → Host M Bool
  bool_of_u8 n = if eqb n 0 then pure false else if eqb n 1 then pure true else fail guest_trap

  unfoldable pub shared_memory_contains_key : String → Host M Bool
  shared_memory_contains_key key = do
    k ← vector (w.utf8 key)
    result ← Imports.shared_memory_contains_key w k (length (w.utf8 key))
    bool_of_u8 result

  -- The signature and the key that a program gives are points.
  unfoldable pub bn254_verify : (ℕ → Option (List ℕ)) → List ℕ → ℕ → ℕ → Host M Bool
  bn254_verify public_key_to_uncompressed message signature public_key = do
    signature_bytes ← ok_or (w.signature_to_uncompressed signature) guest_trap
    public_key_bytes ← ok_or (public_key_to_uncompressed public_key) guest_trap
    m ← vector message
    s ← vector signature_bytes
    k ← vector public_key_bytes
    result ←
        Imports.bn254_verify w m (length message) s (length signature_bytes) k
          (length public_key_bytes)
    bool_of_u8 result

  unfoldable pub bn254_sign : List ℕ → Host M ℕ
  bn254_sign message = do
    ptr ← vector (replicate 64)
    m ← vector message
    Imports.bn254_sign w m (length message) ptr 64
    bytes ← vector_bytes ptr 64
    ok_or (w.signature_from_uncompressed bytes) guest_trap

  -- `level_str` is the JSON of the level.
  unfoldable pub log : List ℕ → String → String → Host M (Unit {0})
  log level_str msg line_info = do
    l ← vector level_str
    m ← vector (w.utf8 msg)
    i ← vector (w.utf8 line_info)
    Imports.log w l (length level_str) m (length (w.utf8 msg)) i (length (w.utf8 line_info))

  -- `Promise::add_to_queue`; `to_string` is the JSON of a promise.
  unfoldable pub add_to_queue : (Promise → String) → Promise → Host M (Unit {0})
  add_to_queue to_string promise = do
    data_ ← vector (w.utf8 (to_string promise))
    Imports.promise_then w data_ (length (w.utf8 (to_string promise)))

  -- `Promise::result`; `from_str` reads the JSON of a status.
  unfoldable pub result : (String → Option PromiseStatus) → ℕ → Host M PromiseStatus
  result from_str index = do
    n ← Imports.promise_status_length w index
    ptr ← vector (replicate (as_u32 n))
    Imports.promise_status_write w index ptr n
    bytes ← vector_bytes ptr (as_u32 n)
    text ← ok_or (w.from_utf8 bytes) guest_trap
    ok_or (from_str text) guest_trap

  unfoldable pub execution_result : List ℕ → Host M (Unit {0})
  execution_result bytes = do ptr ← vector bytes; Imports.execution_result w ptr (length bytes)
