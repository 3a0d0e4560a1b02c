-- ===== src/Runtime/Sdk/Store/Refine.antt =====
-- Programs over runtime/sdk/src/wasm/memory.rs and the host functions against the maps of the
-- specification.
use seda_rust.Base.{
  ℕ, ◌^◌, ◌<◌, ◌≡◌, refl, sym, ap, subst, ◌∙◌, arith, some, List, [], ◌∷◌, String, length, is_some,
  unwrap_or, string_eq, All,
}
use seda_rust.Base.HashMap
use seda_rust.Runtime.Linear.{Wasmer, IsLinear}
use seda_rust.Runtime.Context.{VmContext, init_with_instance}
use seda_rust.Runtime.Imports.{Adapter, own, shared, adapter, with_adapter}
use seda_rust.Runtime.Imports.Bounds.{at, stored}
use seda_rust.Runtime.Sdk.{Alloc}
use seda_rust.Runtime.Sdk.Store.{
  IsAllocator, Op, reads, writes, contains, value, answer, perform, perform_all, Fits, Maps,
  set_map, spec, spec_all,
}
use seda_rust.Runtime.Sdk.Store.Steps.{Ends, Ends-bind, bind-Ends}
use seda_rust.Runtime.Sdk.Store.Calls.{memory_read-Ends, memory_write-Ends, contains-Ends, wrote}

-- The memories of a context are these maps.
abbrev pub Holds : {M : Type 0} → VmContext M → Maps → Type 0
Holds env maps = (a : Adapter) (key : String) → HashMap.get (adapter a env) key ≡ maps a key

-- Every value is shorter than 2^32 bytes.
abbrev pub Short : Maps → Type 0
Short maps = (a : Adapter) (key : String) → length (unwrap_or (maps a key) []) < 2 ^ 32

-- What is left of a context after a part of a program: its memories are the maps.
abbrev pub Leaves : {M : Type 0} → Maps → VmContext M → Type 0
Leaves {M} maps env' = (env : VmContext M) × (m : M) × (env' ≡ at env m) × Holds env maps

-- A part of a program answers as the specification does, and leaves its maps.
abbrev pub Meets : {M A : Type 0} → A × Maps → A → VmContext M → Type 0
Meets (reply, maps) a env' = (a ≡ reply) × Leaves maps env'

Holds-wrote :
    {M : Type 0} (env : VmContext M) (maps : Maps) (a : Adapter) (key : String) (bytes : List ℕ)
    → Holds env maps
    → Holds (wrote a key bytes env) (set_map maps a key bytes)
unfolding adapter with_adapter
Holds-wrote env maps own key bytes h own k =
    HashMap.get-insert env.memory_adapter key k bytes ∙ rw (h own k) refl
Holds-wrote env maps own key bytes h shared k = h shared k
Holds-wrote env maps shared key bytes h own k = h own k
Holds-wrote env maps shared key bytes h shared k =
    HashMap.get-insert env.shared_memory key k bytes ∙ rw (h shared k) refl

Short-set_map :
    (maps : Maps) (a : Adapter) (key : String) (bytes : List ℕ)
    → length bytes < 2 ^ 32
    → Short maps
    → Short (set_map maps a key bytes)
Short-set_map maps own key bytes b h own k = ground (arith, h own k)
Short-set_map maps own key bytes b h shared k = h shared k
Short-set_map maps shared key bytes b h own k = h own k
Short-set_map maps shared key bytes b h shared k = ground (arith, h shared k)

module _ {M : Type 0} (w : Wasmer M) (alloc : Alloc M) (linear : IsLinear w)
    (allocator : IsAllocator w alloc)
    (encodes : (s : String) → w.from_utf8 (w.utf8 s) ≡ some s) where
  Short-spec : (op : Op) (maps : Maps) → Fits w alloc op → Short maps → Short (spec op maps).1
  unfolding spec
  Short-spec (reads a key) maps f h = h
  Short-spec (writes a key bytes) maps f h = Short-set_map maps a key bytes f.1 h
  Short-spec (contains key) maps f h = h

  stored-Holds :
      (env : VmContext M) (maps : Maps) (a : Adapter) (key : String)
      → Holds env maps
      → stored a env key ≡ unwrap_or (maps a key) []
  stored-Holds env maps a key h = ap (λ o. unwrap_or o []) (h a key)

  perform-Meets :
      (op : Op) (env : VmContext M) (m : M) (maps : Maps)
      → Holds env maps
      → Short maps
      → Fits w alloc op
      → Ends (Meets (spec op maps)) (perform w alloc op (at env m))
  unfolding perform spec
  perform-Meets (reads a key) env m maps h s f =
      let same = stored-Holds env maps a key h in
      bind-Ends env _ _ _ _
        (memory_read-Ends w alloc linear allocator encodes env m a key f (rw same (s a key)))
        (λ bytes m' e. (ap value (e ∙ same), (env, m', refl, h)))
  perform-Meets (writes a key bytes) env m maps h s f =
      Ends-bind (λ u env'. (m' : M) × (env' ≡ at (wrote a key bytes env) m')) _ _ _
        (memory_write-Ends w alloc linear allocator encodes env m a key bytes f.0 f.1)
        (λ u env' (m', e).
          (refl, (wrote a key bytes env, m', e, Holds-wrote env maps a key bytes h)))
  perform-Meets (contains key) env m maps h s f =
      let present : is_some (HashMap.get env.shared_memory key) ≡ is_some (maps shared key) =
        ap is_some (unfold adapter in (h shared key)) in
      bind-Ends env _ _ _ _ (contains-Ends w alloc linear allocator encodes env m key f)
        (λ b m' e. (ap answer (e ∙ present), (env, m', refl, h)))

  perform_all-Meets :
      (ops : List Op) (env : VmContext M) (m : M) (maps : Maps)
      → Holds env maps
      → Short maps
      → All (Fits w alloc) ops
      → Ends (Meets (spec_all ops maps)) (perform_all w alloc ops (at env m))
  unfolding perform_all spec_all
  perform_all-Meets [] env m maps h s f = (refl, (env, m, refl, h))
  perform_all-Meets (op ∷ ops) env m maps h s f =
      Ends-bind (Meets (spec op maps)) _ _ _ (perform-Meets op env m maps h s f.0)
        (λ reply env1 (e, (env2, m2, at2, h2)).
          let later =
            perform_all-Meets ops env2 m2 (spec op maps).1 h2 (Short-spec op maps f.0 s) f.1 in
          Ends-bind (Meets (spec_all ops (spec op maps).1)) _ _ _
            (subst (λ x. Ends (Meets (spec_all ops (spec op maps).1)) (perform_all w alloc ops x))
              (sym at2) later)
            (λ replies env3 (e3, last).
              (ap (λ r. r ∷ replies) e ∙ ap (λ rs. (spec op maps).0 ∷ rs) e3, last)))

  -- A program's reads, writes and questions, of texts and values shorter than 2^32 bytes, are answered
  -- as by a map for each of its two memories, down through its vectors, the imports of the host and the
  -- linear memory. No host function traps or panics on the way, and no answer is one that the program
  -- cannot use: a program that does not return ran out of memory for a vector. The linear memory, the allocator and the encoding of texts are assumed to
  -- be sound.
  pub perform_all-spec_all :
      (ops : List Op) (env : VmContext M) (m : M) (maps : Maps)
      → Holds env maps
      → Short maps
      → All (Fits w alloc) ops
      → Ends (Meets (spec_all ops maps)) (perform_all w alloc ops (init_with_instance m env))
  unfolding init_with_instance
  perform_all-spec_all ops env m maps h s f = perform_all-Meets ops env m maps h s f
