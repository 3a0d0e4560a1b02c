-- ===== src/Runtime/Sdk/Store/Calls.antt =====
-- The calls of runtime/sdk/src/wasm/memory.rs, from the vectors that they make to what they return.

use seda_rust.Base.{
  ℕ, ◌^◌, ◌<◌, ◌≡◌, refl, ap, ◌∙◌, arith, true, some, List, String, length, is_some, string_eq,
  Bool-cases, inl, inr,
}
use seda_rust.Base.HashMap
use seda_rust.Runtime.InMemory
use seda_rust.Runtime.Linear.{Wasmer, IsLinear, read_cells}
use seda_rust.Runtime.Context.{VmContext, returned}
use seda_rust.Runtime.Imports
use seda_rust.Runtime.Imports.{
  Adapter, own, shared, bool_as_u8, get_memory, as_u32, adapter, with_adapter,
}
use seda_rust.Runtime.Imports.Bounds.{at, stored}
use seda_rust.Runtime.Sdk
use seda_rust.Runtime.Sdk.{Alloc, vector, vector_bytes, replicate}
use seda_rust.Runtime.Sdk.Store.{IsAllocator}
use seda_rust.Runtime.Sdk.Store.Steps.{
  Ends, With, bind-Ends, vector-Ends, Vector, length-replicate, fresh-Vector, kept-Vector,
  key_at_lem, bytes_at_lem, length_lem, read_lem,
}

-- The context after a write.
abbrev pub wrote : {M : Type 0} → Adapter → String → List ℕ → VmContext M → VmContext M
wrote a key bytes env = with_adapter a (HashMap.insert (adapter a env) key bytes) env

module _ {M : Type 0} (w : Wasmer M) (alloc : Alloc M) (linear : IsLinear w)
    (allocator : IsAllocator w alloc) (encodes : (s : String) → w.from_utf8 (w.utf8 s) ≡ some s)
    (env : VmContext M) (m : M) where
  pub memory_read-Ends :
      (a : Adapter) (key : String)
      → length (w.utf8 key) < 2 ^ 32
      → length (stored a env key) < 2 ^ 32
      → Ends
          (With env (λ bytes m'. bytes ≡ stored a env key))
          (Sdk.memory_read w alloc a key (at env m))
  unfolding Sdk.memory_read vector_bytes get_memory
  memory_read-Ends a key small fits =
      bind-Ends env _ _ _ _ (vector-Ends w alloc env (w.utf8 key) m) (λ k m1 made.
        let v = fresh-Vector w alloc linear allocator encodes env (w.utf8 key) m k m1 made in
        rw (length_lem w alloc linear allocator encodes env a m1 k key small v) (
          let n = length (stored a env key) in
          bind-Ends env _ _ _ _ (vector-Ends w alloc env (replicate (as_u32 n)) m1) (λ ptr m2 made2.
            let v2 =
              kept-Vector w alloc linear allocator encodes env (replicate (as_u32 n)) m1 ptr m2 k
                (w.utf8 key) made2 v in
            let b =
              fresh-Vector w alloc linear allocator encodes env (replicate (as_u32 n)) m1 ptr m2
                made2 in
            let count : length (replicate (as_u32 n)) ≡ n =
              length-replicate (as_u32 n) ∙ omega arith in
            let inside : w.deref m2 ptr n ≡ true =
              rw count at (allocator.inside m2 ptr (length (replicate (as_u32 n))) b.alive) in
            let (m3, done, r) =
              read_lem w alloc linear allocator encodes env a m2 k ptr key small fits v2 inside in
            let whole : as_u32 n ≡ n = omega arith in
            let cells : read_cells w m3 ptr (as_u32 n) ≡ stored a env key =
              ap (read_cells w m3 ptr) whole ∙ r.cells in
            rw done (m3, refl, cells))))

  write_lem :
      (a : Adapter) (key : String) (bytes : List ℕ) (k v : ℕ)
      → length (w.utf8 key) < 2 ^ 32
      → length bytes < 2 ^ 32
      → Vector w alloc allocator m k (w.utf8 key)
      → Vector w alloc allocator m v bytes
      → Imports.memory_write w a k (length (w.utf8 key)) v (length bytes) (at env m)
        ≡ returned tt (at (wrote a key bytes env) m)
  unfolding Imports.memory_write InMemory.put adapter with_adapter
  write_lem own key bytes k v small fits t b =
      rw
        (
          key_at_lem w alloc linear allocator encodes env m k key small t,
          bytes_at_lem w alloc linear allocator encodes env m v bytes fits b,
        )
        refl
  write_lem shared key bytes k v small fits t b =
      rw
        (
          key_at_lem w alloc linear allocator encodes env m k key small t,
          bytes_at_lem w alloc linear allocator encodes env m v bytes fits b,
        )
        refl

  contains_lem :
      (key : String) (k : ℕ)
      → length (w.utf8 key) < 2 ^ 32
      → Vector w alloc allocator m k (w.utf8 key)
      → Imports.shared_memory_contains_key w k (length (w.utf8 key)) (at env m)
        ≡ returned (bool_as_u8 (is_some (HashMap.get env.shared_memory key))) (at env m)
  unfolding Imports.shared_memory_contains_key InMemory.contains_key HashMap.contains_key
  contains_lem key k small t =
      rw (key_at_lem w alloc linear allocator encodes env m k key small t) refl

module _ {M : Type 0} (w : Wasmer M) (alloc : Alloc M) (linear : IsLinear w)
    (allocator : IsAllocator w alloc) (encodes : (s : String) → w.from_utf8 (w.utf8 s) ≡ some s)
    (env : VmContext M) (m : M) where
  pub contains-Ends :
      (key : String)
      → length (w.utf8 key) < 2 ^ 32
      → Ends
          (With env (λ b m'. b ≡ is_some (HashMap.get env.shared_memory key)))
          (Sdk.shared_memory_contains_key w alloc key (at env m))
  unfolding Sdk.shared_memory_contains_key
  contains-Ends key small =
      bind-Ends env _ _ _ _ (vector-Ends w alloc env (w.utf8 key) m) (λ k m1 made.
        let t = fresh-Vector w alloc linear allocator encodes env (w.utf8 key) m k m1 made in
        rw (contains_lem w alloc linear allocator encodes env m1 key k small t)
          (elim (Bool-cases (is_some (HashMap.get env.shared_memory key))) [
            | inl e ↦ rw e (m1, refl, refl)
            | inr e ↦ rw e (m1, refl, refl)
          ]))

  pub memory_write-Ends :
      (a : Adapter) (key : String) (bytes : List ℕ)
      → length (w.utf8 key) < 2 ^ 32
      → length bytes < 2 ^ 32
      → Ends
          (λ u env'. (m' : M) × (env' ≡ at (wrote a key bytes env) m'))
          (Sdk.memory_write w alloc a key bytes (at env m))
  unfolding Sdk.memory_write
  memory_write-Ends a key bytes small fits =
      bind-Ends env _ _ _ _ (vector-Ends w alloc env bytes m) (λ v m1 made.
        let b = fresh-Vector w alloc linear allocator encodes env bytes m v m1 made in
        bind-Ends env _ _ _ _ (vector-Ends w alloc env (w.utf8 key) m1) (λ k m2 made2.
          let b2 =
            kept-Vector w alloc linear allocator encodes env (w.utf8 key) m1 k m2 v bytes made2 b in
          let t = fresh-Vector w alloc linear allocator encodes env (w.utf8 key) m1 k m2 made2 in
          rw (write_lem w alloc linear allocator encodes env m2 a key bytes k v small fits t b2)
            (m2, refl)))
