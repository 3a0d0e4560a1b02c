-- ===== src/Runtime/Imports/Status.antt =====
-- promise_status_write of runtime/core/src/imports.rs: a status, and buffers that are too long for it.
use seda_rust.Base.{
  ℕ, suc, ◌+◌, ◌-◌, ◌^◌, ◌≤◌, ◌<◌, ◌≡◌, refl, ap, ◌∙◌, arith, true, none, some, List, [], ◌∷◌, ◌++◌,
  String, length, length-append, get_elem?, lt→ltb, i32_as_usize,
}
use seda_rust.Runtime.Promises.{Promise, HostResult}
use seda_rust.Runtime.Linear.{Wasmer, IsLinear}
use seda_rust.Runtime.Context.{VmContext, returned, panicked}
use seda_rust.Runtime.Imports.{
  get_memory, write_cells, write_status, status_at, promise_status_write, as_u32, rounds_below,
}
use seda_rust.Runtime.Imports.Bounds.{at, Written, set_cell_lem, write_cells_lem}

get_elem?-append :
    (pre : List ℕ) (b : ℕ) (rest : List ℕ) → get_elem? (pre ++ b ∷ rest) (length pre) ≡ some b
get_elem?-append [] b rest = refl
get_elem?-append (x ∷ pre) b rest = get_elem?-append pre b rest

get_elem?-length : (xs : List ℕ) → get_elem? xs (length xs) ≡ none
get_elem?-length [] = refl
get_elem?-length (x ∷ xs) = get_elem?-length xs

append_one : (pre : List ℕ) (b : ℕ) (rest : List ℕ) → pre ++ b ∷ rest ≡ (pre ++ b ∷ []) ++ rest
append_one [] b rest = refl
append_one (x ∷ pre) b rest = ap (λ ys. x ∷ ys) (append_one pre b rest)

append-nil : (xs : List ℕ) → xs ++ [] ≡ xs
append-nil [] = refl
append-nil (x ∷ xs) = ap (λ ys. x ∷ ys) (append-nil xs)

module _ {M : Type 0} (w : Wasmer M) (linear : IsLinear w) (env : VmContext M) (ptr n : ℕ) where
  write_status-step :
      (index byte rounds : ℕ) (bytes : List ℕ) (m : M)
      → index < n
      → get_elem? bytes index ≡ some byte
      → write_status w ptr n bytes index (suc rounds) (at env m)
        ≡ write_status w ptr n bytes (suc index) rounds (at env (w.store m (ptr + index) byte))
  unfolding write_status
  write_status-step index byte rounds bytes m h found =
      rw (lt→ltb index n h, found, set_cell_lem w linear env m ptr n index byte h) refl

  -- As many rounds as bytes are left write those bytes.
  write_status-rest :
      (pre rest bytes : List ℕ) (index : ℕ) (m : M)
      → bytes ≡ pre ++ rest
      → index ≡ length pre
      → index + length rest ≤ n
      → write_status w ptr n bytes index (length rest) (at env m)
        ≡ write_cells w ptr n index rest (at env m)
  unfolding write_cells
  write_status-rest pre [] bytes index m e i h = unfold write_status in refl
  write_status-rest pre (b ∷ rest) bytes index m e i h =
      let found : get_elem? bytes index ≡ some b = rw (e, i) (get_elem?-append pre b rest) in
      let next =
        write_status-rest (pre ++ b ∷ []) rest bytes (suc index) (w.store m (ptr + index) b)
          (e ∙ append_one pre b rest) (omega (arith, length-append pre (b ∷ []))) (omega arith) in
      write_status-step index b (length rest) bytes m (omega arith) found
      ∙ rw (set_cell_lem w linear env m ptr n index b (omega arith)) next

  -- One more round than bytes are left panics.
  write_status-panics :
      (pre rest bytes : List ℕ) (index more : ℕ) (m : M)
      → bytes ≡ pre ++ rest
      → index ≡ length pre
      → index + length rest + suc more ≤ n
      → write_status w ptr n bytes index (length rest + suc more) (at env m) ≡ panicked
  write_status-panics pre [] bytes index more m e i h =
      let r : length {A = ℕ} [] + suc more ≡ suc more = omega arith in
      let missing : get_elem? bytes index ≡ none =
        rw (e, append-nil pre, i) (get_elem?-length pre) in
      rw r (unfold write_status in (rw (lt→ltb index n (omega arith), missing) refl))
  write_status-panics pre (b ∷ rest) bytes index more m e i h =
      let found : get_elem? bytes index ≡ some b = rw (e, i) (get_elem?-append pre b rest) in
      let r : length (b ∷ rest) + suc more ≡ suc (length rest + suc more) = omega arith in
      let next =
        write_status-panics (pre ++ b ∷ []) rest bytes (suc index) more (w.store m (ptr + index) b)
          (e ∙ append_one pre b rest) (omega (arith, length-append pre (b ∷ []))) (omega arith) in
      ap (λ k. write_status w ptr n bytes index k (at env m)) r
      ∙ write_status-step index b (length rest + suc more) bytes m (omega arith) found
      ∙ next

promise_status_write-loop :
    {M : Type 0} (w : Wasmer M) (env : VmContext M) (m : M) (index ptr n : ℕ) (promise : Promise)
    (status : String)
    → get_elem? env.current_promise_queue (i32_as_usize index) ≡ some promise
    → w.status_to_string promise.status ≡ HostResult.ok status
    → w.deref m ptr n ≡ true
    → n < 2 ^ 31
    → promise_status_write w index ptr n (at env m)
      ≡ write_status w ptr n (w.utf8 status) 0 n (at env m)
unfolding promise_status_write status_at get_memory
promise_status_write-loop w env m index ptr n promise status found json inside small =
    let whole : as_u32 n ≡ n = omega arith in
    let rounds : rounds_below n ≡ n = ground arith in rw (found, json, whole, rounds, inside) refl

-- For a promise of the current queue whose status can be written, and a buffer of fewer than 2^31 bytes
-- inside the memory: if the buffer has the length of the status, `promise_status_write` puts the status
-- there and changes nothing else; if the buffer is longer, the host panics.
pub promise_status_write-longer :
    {M : Type 0} (w : Wasmer M) (linear : IsLinear w) (env : VmContext M) (m : M) (index ptr n : ℕ)
    (promise : Promise) (status : String)
    → get_elem? env.current_promise_queue (i32_as_usize index) ≡ some promise
    → w.status_to_string promise.status ≡ HostResult.ok status
    → w.deref m ptr n ≡ true
    → n < 2 ^ 31
    → (n ≡ length (w.utf8 status)
        → (m' : M) × (promise_status_write w index ptr n (at env m) ≡ returned tt (at env m'))
          × Written w m m' ptr (w.utf8 status))
      × (length (w.utf8 status) < n → promise_status_write w index ptr n (at env m) ≡ panicked)
promise_status_write-longer w linear env m index ptr n promise status found json inside small =
    let bytes = w.utf8 status in
    let loop =
      promise_status_write-loop w env m index ptr n promise status found json inside small in
    let rounds = λ (k : ℕ). write_status w ptr n bytes 0 k (at env m) in
    (
      λ same.
          let (m', done, r) = write_cells_lem w linear env ptr n 0 bytes m (omega arith) in
          let written =
            write_status-rest w linear env ptr n [] bytes bytes 0 m refl refl (omega arith) in
          let start : ptr + 0 ≡ ptr = omega arith in
          (m', loop ∙ ap rounds same ∙ written ∙ done, rw start at r),
      λ longer.
          let more = n - length bytes - 1 in
          let e : n ≡ length bytes + suc more = omega arith in
          loop
          ∙ ap rounds e
          ∙ write_status-panics w linear env ptr n [] bytes bytes 0 more m refl refl (omega arith),
    )
