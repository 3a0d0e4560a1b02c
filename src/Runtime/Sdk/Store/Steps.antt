-- ===== src/Runtime/Sdk/Store/Steps.antt =====
-- One read, write or question of runtime/sdk/src/wasm/memory.rs, down to the linear memory.
use seda_rust.Base.{
  ℕ, zero, suc, ◌^◌, ◌<◌, ◌≡◌, refl, sym, ap, subst, ◌∙◌, arith, true, some, List, String, length,
  string_eq, Option-cases, inl, inr,
}
use seda_rust.Runtime.Linear.{Wasmer, IsLinear, read_cells}
use seda_rust.Runtime.Context.{
  VmContext, Outcome, returned, failed, panicked, Host, out_of_memory, bind, RuntimeError,
}
use seda_rust.Runtime.Imports
use seda_rust.Runtime.Imports.{
  Adapter, own, shared, get_memory, key_at, bytes_at, as_u32, adapter, with_adapter, read_value,
  copy_out,
}
use seda_rust.Runtime.Imports.Bounds.{at, Written, copy_out_lem, stored, stored-at, read_value_lem}
use seda_rust.Runtime.Sdk.{Alloc, vector, replicate}
use seda_rust.Runtime.Sdk.Store.{IsAllocator}

-- A part of a program ends: it returns, leaving the context but for its memory, or the module
-- finds no memory for a vector.
abbrev pub Traps : RuntimeError → Type 0
Traps out_of_memory = Unit
Traps _ = ⊥

abbrev pub Ends : {M A : Type 0} → (A → VmContext M → Type 0) → Outcome M A → Type 0
Ends P (returned a env) = P a env
Ends P (failed e env) = Traps e
Ends P panicked = ⊥

pub Ends-bind :
    {M A B : Type 0} (P : A → VmContext M → Type 0) (Q : B → VmContext M → Type 0) (r : Outcome M A)
    (f : A → Host M B)
    → Ends P r
    → ((a : A) (env : VmContext M) → P a env → Ends Q (f a env))
    → Ends Q (bind r f)
Ends-bind P Q (returned a env) f h k = k a env h
Ends-bind P Q (failed e env) f h k = h
Ends-bind P Q panicked f h k = h

-- It returned with memory `m'`, of which `P` holds.
abbrev pub With : {M A : Type 0} → VmContext M → (A → M → Type 0) → A → VmContext M → Type 0
With {M} env P a env' = (m' : M) × (env' ≡ at env m') × P a m'

pub bind-Ends :
    {M A B : Type 0} (env : VmContext M) (P : A → M → Type 0) (Q : B → VmContext M → Type 0)
    (r : Outcome M A) (f : A → Host M B)
    → Ends (With env P) r
    → ((a : A) (m : M) → P a m → Ends Q (f a (at env m)))
    → Ends Q (bind r f)
bind-Ends env P Q r f h k =
    Ends-bind (With env P) Q r f h
      (λ a env' (m, e, p). subst (λ x. Ends Q (f a x)) (sym e) (k a m p))

module _ {M : Type 0} (w : Wasmer M) (alloc : Alloc M) (env : VmContext M) where
  pub vector-Ends :
      (bytes : List ℕ) (m : M)
      → Ends (With env (λ ptr m'. alloc bytes m ≡ some (ptr, m'))) (vector w alloc bytes (at env m))
  unfolding vector get_memory
  vector-Ends bytes m = elim (Option-cases (alloc bytes m)) [
    | inl full ↦ rw full tt
    | inr ((ptr, m'), made) ↦ rw made (m', refl, refl)
  ]

-- A vector of the memory `m` that is alive and holds these bytes.
pub record Vector {M : Type 0} (w : Wasmer M) (alloc : Alloc M) (allocator : IsAllocator w alloc)
    (m : M) (ptr : ℕ) (bytes : List ℕ) : Type 0 where
  pub alive : allocator.live m ptr (length bytes) ≡ true
  pub cells : read_cells w m ptr (length bytes) ≡ bytes

pub length-replicate : (n : ℕ) → length (replicate n) ≡ n
length-replicate zero = refl
length-replicate (suc n) = ap suc (length-replicate n)

module _ {M : Type 0} (w : Wasmer M) (alloc : Alloc M) (linear : IsLinear w)
    (allocator : IsAllocator w alloc) (encodes : (s : String) → w.from_utf8 (w.utf8 s) ≡ some s)
    (env : VmContext M) where
  pub fresh-Vector :
      (bytes : List ℕ) (m : M) (ptr : ℕ) (m' : M)
      → alloc bytes m ≡ some (ptr, m')
      → Vector w alloc allocator m' ptr bytes
  fresh-Vector bytes m ptr m' made =
      let (alive, cells) = allocator.fresh bytes m ptr m' made in
      record { alive = alive; cells = cells }

  pub kept-Vector :
      (bytes : List ℕ) (m : M) (ptr : ℕ) (m' : M) (q : ℕ) (old : List ℕ)
      → alloc bytes m ≡ some (ptr, m')
      → Vector w alloc allocator m q old
      → Vector w alloc allocator m' q old
  kept-Vector bytes m ptr m' q old made v =
      let (alive, cells) = allocator.keeps bytes m ptr m' q (length old) made v.alive in
      record { alive = alive; cells = cells ∙ v.cells }

  pub key_at_lem :
      (m : M) (ptr : ℕ) (key : String)
      → length (w.utf8 key) < 2 ^ 32
      → Vector w alloc allocator m ptr (w.utf8 key)
      → key_at w ptr (as_u32 (length (w.utf8 key))) (at env m) ≡ returned key (at env m)
  unfolding key_at get_memory
  key_at_lem m ptr key small v =
      let n = length (w.utf8 key) in
      let text : w.get_utf8_string m ptr n ≡ some key =
        linear.get_utf8_string-cells m ptr n
        ∙ rw (allocator.inside m ptr n v.alive, v.cells) (encodes key) in
      let whole : as_u32 n ≡ n = omega arith in rw (whole, text) refl

  pub bytes_at_lem :
      (m : M) (ptr : ℕ) (bytes : List ℕ)
      → length bytes < 2 ^ 32
      → Vector w alloc allocator m ptr bytes
      → bytes_at w ptr (as_u32 (length bytes)) (at env m) ≡ returned bytes (at env m)
  unfolding bytes_at get_memory
  bytes_at_lem m ptr bytes small v =
      let inside = allocator.inside m ptr (length bytes) v.alive in
      let whole : as_u32 (length bytes) ≡ length bytes = omega arith in
      rw (whole, inside, v.cells) refl

  pub length_lem :
      (a : Adapter) (m : M) (ptr : ℕ) (key : String)
      → length (w.utf8 key) < 2 ^ 32
      → Vector w alloc allocator m ptr (w.utf8 key)
      → Imports.memory_read_length w a ptr (length (w.utf8 key)) (at env m)
        ≡ returned (length (stored a env key)) (at env m)
  unfolding Imports.memory_read_length
  length_lem a m ptr key small v =
      rw
        (
          key_at_lem m ptr key small v,
          read_value_lem w linear a key (at env m),
          stored-at a env m key,
        )
        refl

  -- What the host leaves in a vector of the right length.
  pub read_lem :
      (a : Adapter) (m : M) (k ptr : ℕ) (key : String)
      → length (w.utf8 key) < 2 ^ 32
      → length (stored a env key) < 2 ^ 32
      → Vector w alloc allocator m k (w.utf8 key)
      → w.deref m ptr (length (stored a env key)) ≡ true
      → (m' : M) × (Imports.memory_read w a k
            (length (w.utf8 key))
            ptr
            (length (stored a env key))
            (at env m)
          ≡ returned tt (at env m'))
        × Written w m m' ptr (stored a env key)
  unfolding Imports.memory_read
  read_lem a m k ptr key small fits v inside =
      let (m', done, r) = copy_out_lem w linear env m ptr (stored a env key) fits inside in
      (
        m',
        rw
            (
              key_at_lem m k key small v,
              read_value_lem w linear a key (at env m),
              stored-at a env m key,
            )
            done,
        r,
      )
