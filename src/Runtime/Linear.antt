-- ===== src/Runtime/Linear.antt =====
-- wasmer's view of a module's linear memory, as runtime/core/src/imports.rs uses it, and serde and
-- bn254 as far as the host functions call them. Numbers that the module passes are bit patterns.
use seda_rust.Base.{
  ℕ, zero, suc, ◌+◌, ◌≡◌, Bool, Option, none, List, [], ◌∷◌, String, ◌==◌, nat_eq, if◌then◌else◌,
}
use seda_rust.Runtime.Promises.{Promise, PromiseStatus, HostResult}
use seda_rust.Runtime.Context.{Level}

-- `deref` says whether a slice of that length at that address lies in the memory; its cells are read
-- and written one by one. A point of a curve is a number.
pub record Wasmer (M : Type 0) : Type 0 where
  pub deref : M → ℕ → ℕ → Bool
  pub load : M → ℕ → ℕ
  pub store : M → ℕ → ℕ → M
  pub get_utf8_string : M → ℕ → ℕ → Option String
  pub from_utf8 : List ℕ → Option String
  pub utf8 : String → List ℕ
  pub promise_from_str : String → HostResult Promise
  pub status_to_string : PromiseStatus → HostResult String
  pub level_from_str : String → HostResult Level
  pub signature_from_uncompressed : List ℕ → Option ℕ
  pub public_key_from_uncompressed : List ℕ → Option ℕ
  pub verify : List ℕ → ℕ → ℕ → Bool
  pub sign : List ℕ → ℕ → Option ℕ
  pub signature_to_uncompressed : ℕ → Option (List ℕ)

module _ {M : Type 0} (w : Wasmer M) where
  -- The bytes of `n` cells, collected.
  unfoldable pub read_cells : M → ℕ → ℕ → List ℕ
  read_cells m ptr zero = []
  read_cells m ptr (suc n) = w.load m ptr ∷ read_cells m (ptr + 1) n

  -- What wasmer documents: a cell holds what was last written to it, writing does not move the
  -- bounds, and a text is the cells of a slice that lies in the memory.
  pub record IsLinear : Type 0 where
    pub load-store :
        (m : M) (i j b : ℕ) → w.load (w.store m i b) j ≡ (if i == j then b else w.load m j)
    pub deref-store : (m : M) (i b p n : ℕ) → w.deref (w.store m i b) p n ≡ w.deref m p n
    pub get_utf8_string-cells :
        (m : M) (ptr n : ℕ)
        → w.get_utf8_string m ptr n
          ≡ (if w.deref m ptr n then w.from_utf8 (read_cells m ptr n) else none)
