-- ===== src/Runtime/Sdk/Store.antt =====
-- The two memories of runtime/sdk/src/wasm/memory.rs, as a program sees them: maps from texts to bytes.
pub mod Steps
pub mod Calls
pub mod Refine
use seda_rust.Base.{
  ℕ, ◌^◌, ◌<◌, ◌≡◌, Bool, true, Option, none, some, List, [], ◌∷◌, String, length, is_some,
  unwrap_or, put, string_eq,
}
use seda_rust.Runtime.Linear.{Wasmer, read_cells}
use seda_rust.Runtime.Context.{Host, ◌>>=◌, ◌>>◌, pure}
use seda_rust.Runtime.Imports.{Adapter, own, shared}
use seda_rust.Runtime.Sdk
use seda_rust.Runtime.Sdk.{Alloc}

-- What a program asks of the memories, and what it is told.
pub data Op : Type 0 where
  reads : Adapter → String → Op
  writes : Adapter → String → List ℕ → Op
  contains : String → Op

pub data Reply : Type 0 where
  value : List ℕ → Reply
  written : Reply
  answer : Bool → Reply

module _ {M : Type 0} (w : Wasmer M) (alloc : Alloc M) where
  unfoldable pub perform : Op → Host M Reply
  perform (reads a key) = do bytes ← Sdk.memory_read w alloc a key; pure (value bytes)
  perform (writes a key bytes) = do Sdk.memory_write w alloc a key bytes; pure written
  perform (contains key) = do b ← Sdk.shared_memory_contains_key w alloc key; pure (answer b)

  unfoldable pub perform_all : List Op → Host M (List Reply)
  perform_all [] = pure []
  perform_all (op ∷ ops) = do reply ← perform op; replies ← perform_all ops; pure (reply ∷ replies)

  -- A text fits in the numbers that the imports take, and so do the bytes written.
  abbrev pub Fits : Op → Type 0
  Fits (reads a key) = length (w.utf8 key) < 2 ^ 32
  Fits (writes a key bytes) = (length (w.utf8 key) < 2 ^ 32) × (length bytes < 2 ^ 32)
  Fits (contains key) = length (w.utf8 key) < 2 ^ 32

  -- What is relied on of the module's allocator: a new vector holds its bytes, lies in the memory, and
  -- leaves the vectors that are alive as they were.
  pub record IsAllocator : Type 0 where
    pub live : M → ℕ → ℕ → Bool
    pub fresh :
        (bytes : List ℕ) (m : M) (ptr : ℕ) (m' : M)
        → alloc bytes m ≡ some (ptr, m')
        → (live m' ptr (length bytes) ≡ true) × (read_cells w m' ptr (length bytes) ≡ bytes)
    pub keeps :
        (bytes : List ℕ) (m : M) (ptr : ℕ) (m' : M) (q n : ℕ)
        → alloc bytes m ≡ some (ptr, m')
        → live m q n ≡ true
        → (live m' q n ≡ true) × (read_cells w m' q n ≡ read_cells w m q n)
    pub inside : (m : M) (q n : ℕ) → live m q n ≡ true → w.deref m q n ≡ true

-- The specification: a map for each memory. A key that was never written reads as no bytes.
abbrev pub Maps : Type 0
Maps = Adapter → String → Option (List ℕ)

abbrev pub set_map : Maps → Adapter → String → List ℕ → Maps
set_map maps own key bytes own = put (maps own) key bytes
set_map maps own key bytes shared = maps shared
set_map maps shared key bytes own = maps own
set_map maps shared key bytes shared = put (maps shared) key bytes

unfoldable pub spec : Op → Maps → Reply × Maps
spec (reads a key) maps = (value (unwrap_or (maps a key) []), maps)
spec (writes a key bytes) maps = (written, set_map maps a key bytes)
spec (contains key) maps = (answer (is_some (maps shared key)), maps)

unfoldable pub spec_all : List Op → Maps → List Reply × Maps
spec_all [] maps = ([], maps)
spec_all (op ∷ ops) maps =
    let (reply, maps') = spec op maps in
    let (replies, last) = spec_all ops maps' in (reply ∷ replies, last)
