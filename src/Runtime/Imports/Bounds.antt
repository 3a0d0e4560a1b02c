-- ===== src/Runtime/Imports/Bounds.antt =====
-- What the host functions of runtime/core/src/imports.rs write into the memory of a module.
use seda_rust.Base.{
  ℕ, suc, ◌+◌, ◌^◌, ◌≤◌, ◌<◌, ◌≡◌, ◌⊎◌, inl, inr, refl, sym, ap, subst, ◌∙◌, arith, true, some,
  List, [], ◌∷◌, String, length, take, eqb, nat_eq, Bool-cases, lt→ltb, eqb_refl, Option-cases,
  unwrap_or, string_eq, eqb_iff,
}
use seda_rust.Runtime.Linear.{Wasmer, IsLinear, read_cells}
use seda_rust.Runtime.Context.{VmContext, Outcome, returned, failed, panicked, no_promise_data}
use seda_rust.Runtime.InMemory
use seda_rust.Base.HashMap
use seda_rust.Runtime.Imports.{
  get_memory, set_cell, write_cells, copy_out, as_u32, key_at, read_value, adapter, Adapter, own,
  shared, memory_read,
}

-- The context of a module whose memory is `m`.
abbrev pub at : {M : Type 0} → VmContext M → M → VmContext M
at env m = record env { memory = some m }

pub take_all : (xs : List ℕ) → take (length xs) xs ≡ xs
take_all [] = refl
take_all (x ∷ xs) = ap (λ ys. x ∷ ys) (take_all xs)

-- The bytes that a key stands for.
abbrev pub stored : {M : Type 0} → Adapter → VmContext M → String → List ℕ
stored a env key = unwrap_or (HashMap.get (adapter a env) key) []

pub stored-at :
    {M : Type 0} (a : Adapter) (env : VmContext M) (m : M) (key : String)
    → stored a (at env m) key ≡ stored a env key
unfolding adapter
stored-at own env m key = refl
stored-at shared env m key = refl

module _ {M : Type 0} (w : Wasmer M) where
  -- From `m` to `m'` the bytes were written at an address, nothing else was, and the bounds stayed.
  pub record Written (m m' : M) (ptr : ℕ) (bytes : List ℕ) : Type 0 where
    pub cells : read_cells w m' ptr (length bytes) ≡ bytes
    pub below : (j : ℕ) → j < ptr → w.load m' j ≡ w.load m j
    pub above : (j : ℕ) → ptr + length bytes ≤ j → w.load m' j ≡ w.load m j
    pub bounds : (p n : ℕ) → w.deref m' p n ≡ w.deref m p n

module _ {M : Type 0} (w : Wasmer M) (linear : IsLinear w) where
  Written-nil : (m : M) (ptr : ℕ) → Written w m m ptr []
  unfolding read_cells
  Written-nil m ptr = record {
    cells = refl;
    below = λ j h. refl;
    above = λ j h. refl;
    bounds = λ p n. refl;
  }

  Written-cons :
      (m m' : M) (ptr byte : ℕ) (bytes : List ℕ)
      → Written w (w.store m ptr byte) m' (ptr + 1) bytes
      → Written w m m' ptr (byte ∷ bytes)
  unfolding read_cells
  Written-cons m m' ptr byte bytes r = record {
    cells = ground (arith, r.below ptr, linear.load-store m ptr ptr byte, r.cells);
    below = λ j h. ground (arith, r.below j, linear.load-store m ptr j byte);
    above = λ j h. ground (arith, r.above j, linear.load-store m ptr j byte);
    bounds = λ p n. r.bounds p n ∙ linear.deref-store m ptr byte p n;
  }

  pub set_cell_lem :
      (env : VmContext M) (m : M) (ptr n index byte : ℕ)
      → index < n
      → set_cell w ptr n index byte (at env m) ≡ returned tt (at env (w.store m (ptr + index) byte))
  unfolding set_cell get_memory
  set_cell_lem env m ptr n index byte h = rw (lt→ltb index n h) refl

  pub write_cells_lem :
      (env : VmContext M) (ptr n index : ℕ) (bytes : List ℕ) (m : M)
      → index + length bytes ≤ n
      → (m' : M) × (write_cells w ptr n index bytes (at env m) ≡ returned tt (at env m'))
        × Written w m m' (ptr + index) bytes
  unfolding write_cells
  write_cells_lem env ptr n index [] m h = (m, refl, Written-nil m (ptr + index))
  write_cells_lem env ptr n index (byte ∷ bytes) m h =
      let (m', done, r) =
        write_cells_lem env ptr n (suc index) bytes (w.store m (ptr + index) byte) (omega arith) in
      let next : ptr + suc index ≡ ptr + index + 1 = omega arith in
      (
        m',
        rw (set_cell_lem env m ptr n index byte (omega arith)) done,
        Written-cons m m' (ptr + index) byte bytes (rw next at r),
      )

  -- A buffer of the value's length that lies in the memory receives the value.
  pub copy_out_lem :
      (env : VmContext M) (m : M) (ptr : ℕ) (value : List ℕ)
      → length value < 2 ^ 32
      → w.deref m ptr (length value) ≡ true
      → (m' : M) × (copy_out w value ptr (length value) (at env m) ≡ returned tt (at env m'))
        × Written w m m' ptr value
  unfolding copy_out get_memory
  copy_out_lem env m ptr value small inside =
      let (m', done, r) = write_cells_lem env ptr (length value) 0 value m (omega arith) in
      let whole : as_u32 (length value) ≡ length value = omega arith in
      let start : ptr + 0 ≡ ptr = omega arith in
      (m', rw (eqb_refl (length value), whole, inside, take_all value) done, rw start at r)

  -- How a host function that answers through a buffer may end.
  abbrev pub Answered : VmContext M → M → ℕ → ℕ → List ℕ → Outcome M (Unit {0}) → Type 0
  Answered env m ptr n value (returned u env') =
      (m' : M) × (env' ≡ at env m') × (n ≡ length value) × Written w m m' ptr value
  Answered env m ptr n value (failed e env') = env' ≡ at env m
  Answered env m ptr n value panicked = ⊥

  copy_out-Answered_inside :
      (env : VmContext M) (m : M) (ptr n : ℕ) (value : List ℕ)
      → length value < 2 ^ 32
      → n ≡ length value
      → w.deref m ptr (as_u32 n) ≡ true
      → Answered env m ptr n value (copy_out w value ptr n (at env m))
  copy_out-Answered_inside env m ptr n value small e inside =
      let whole : as_u32 n ≡ length value = omega arith in
      let (m', done, r) = copy_out_lem env m ptr value small (rw whole at inside) in
      let done' : copy_out w value ptr n (at env m) ≡ returned tt (at env m') =
        ap (λ k. copy_out w value ptr k (at env m)) e ∙ done in
      subst (Answered env m ptr n value) (sym done') (m', refl, e, r)

  pub copy_out-Answered :
      (env : VmContext M) (m : M) (ptr n : ℕ) (value : List ℕ)
      → length value < 2 ^ 32
      → Answered env m ptr n value (copy_out w value ptr n (at env m))
  unfolding copy_out get_memory
  copy_out-Answered env m ptr n value small = elim (Bool-cases (eqb n (length value))) [
    | inr other ↦ rw other refl
    | inl same ↦ elim (Bool-cases (w.deref m ptr (as_u32 n))) [
      | inr outside ↦ rw (same, outside) refl
      | inl inside ↦
          copy_out-Answered_inside env m ptr n value small ((eqb_iff n (length value)).0 same)
            inside
    ]
  ]

  pub read_value_lem :
      (a : Adapter) (key : String) (env : VmContext M)
      → read_value w a key env ≡ returned (stored a env key) env
  unfolding read_value InMemory.get
  read_value_lem a key env = ground arith

  key_at-cases :
      (env : VmContext M) (m : M) (ptr n : ℕ)
      → ((key : String) × (w.get_utf8_string m ptr n ≡ some key)
          × (key_at w ptr n (at env m) ≡ returned key (at env m)))
        ⊎ (key_at w ptr n (at env m) ≡ failed no_promise_data (at env m))
  unfolding key_at get_memory
  key_at-cases env m ptr n = elim (Option-cases (w.get_utf8_string m ptr n)) [
    | inl missing ↦ inr (rw missing refl)
    | inr (key, found) ↦ inl (key, found, rw found refl)
  ]

  -- Whatever a module passes to `memory_read`, the host does not panic. If the call returns, the buffer
  -- had the length of the value under the key, holds that value, and nothing else in the memory or the
  -- context changed; if it traps, nothing changed at all. Values are assumed to be shorter than 2^32
  -- bytes.
  pub memory_read-Answered :
      (a : Adapter) (env : VmContext M) (m : M) (key key_length ptr n : ℕ)
      → ((k : String) → length (stored a env k) < 2 ^ 32)
      → ((k : String) × (w.get_utf8_string m key (as_u32 key_length) ≡ some k)
          × Answered env m ptr n (stored a env k) (memory_read w a key key_length ptr n (at env m)))
        ⊎ (memory_read w a key key_length ptr n (at env m) ≡ failed no_promise_data (at env m))
  unfolding memory_read
  memory_read-Answered a env m key key_length ptr n small =
      elim (key_at-cases env m key (as_u32 key_length)) [
        | inr missing ↦ inr (rw missing refl)
        | inl (k, found, got) ↦ inl (
          k,
          found,
          rw (got, read_value_lem a k (at env m), stored-at a env m k)
              (copy_out-Answered env m ptr n (stored a env k) (small k)),
        )
      ]
