-- ===== src/Runtime/InMemory.antt =====
-- runtime/core/src/storage: the memory that a WASM program keeps at its host, and the one that it
-- shares with other programs.
use seda_rust.Base.{ℕ, Bool, Option, none, some, List, String, string_eq}
use seda_rust.Base.HashMap
use seda_rust.Base.HashMap.{HashMap}
use seda_rust.Runtime.Promises.{HostResult, ok, err}

abbrev pub InMemory : Type 0
InMemory = HashMap String (List ℕ)

-- `Option<Result>` to `Result<Option>`.
abbrev pub transpose : {O : Type 0} → Option (HostResult O) → HostResult (Option O)
transpose none = ok none
transpose (some (ok value)) = ok (some value)
transpose (some (err e)) = err e

abbrev pub map_option : {A B : Type 0} → (A → B) → Option A → Option B
map_option f none = none
map_option f (some a) = some (f a)

unfoldable pub get :
    {O : Type 0} → (List ℕ → HostResult O) → InMemory → String → HostResult (Option O)
get from_bytes memory key = transpose (map_option from_bytes (HashMap.get memory key))

-- What was stored before, and the memory after.
unfoldable pub put :
    {V : Type 0} → (V → List ℕ) → InMemory → String → V → Option (List ℕ) × InMemory
put to_bytes memory key value = (HashMap.get memory key, HashMap.insert memory key (to_bytes value))

unfoldable pub contains_key : InMemory → String → Bool
contains_key memory key = HashMap.contains_key memory key
