-- ===== src/Runtime/Tests/Memory.antt =====
-- The imports of the runtime and the calls of its SDK, run on a small linear memory.
use seda_rust.Base.{
  ◌^◌, ◌<◌, ◌≡◌, refl, arith, false, none, some, List, [], ◌∷◌, String, length, nat_eq, string_eq,
  ◌⊎◌, i32_as_usize,
}
use seda_rust.Base.HashMap
use seda_rust.Runtime.Promises.{Promise, p2p_broadcast, pending}
use seda_rust.Runtime.Context.{
  VmContext, init_with_instance, returned, failed, panicked, no_promise_data,
}
use seda_rust.Runtime.Imports.{own, shared, adapter, as_u32, memory_read, promise_status_write}
use seda_rust.Runtime.Imports.Bounds.{at, stored, Written, Answered, memory_read-Answered}
use seda_rust.Runtime.Imports.Status.{promise_status_write-longer}
use seda_rust.Runtime.Sdk.Store.{
  Op, reads, writes, contains, value, written, answer, perform_all, Maps, spec, spec_all,
}
use seda_rust.Runtime.Sdk.Store.Steps.{Ends}
use seda_rust.Runtime.Sdk.Store.Refine.{Holds, Meets, perform_all-spec_all}
use seda_rust.Runtime.Tests.Codes.{from_codes-codes}
use seda_rust.Runtime.Tests.Cells.{Cells, machine, machine-IsLinear, alloc, alloc-IsAllocator}

abbrev cells : Cells
cells = record { next = 8; cell = λ i. 65 }

abbrev broadcast_pending : Promise
broadcast_pending = record { action = p2p_broadcast []; status = pending }

abbrev env : VmContext Cells
env = record {
  result = [];
  memory = none;
  memory_adapter = [];
  shared_memory = [];
  promise_queue = [];
  current_promise_queue = broadcast_pending ∷ [];
  private_key = 5;
  logs = [];
}

abbrev program : List Op
program = writes own "k" (1 ∷ 2 ∷ []) ∷ reads own "k" ∷ contains "k" ∷ reads shared "none" ∷ []

abbrev no_maps : Maps
no_maps a key = none

env-Holds : Holds env no_maps
unfolding adapter HashMap.get
env-Holds own key = refl
env-Holds shared key = refl

perform_all-spec_all_example :
    Ends
      (Meets (spec_all program no_maps))
      (perform_all machine alloc program (init_with_instance cells env))
perform_all-spec_all_example =
    perform_all-spec_all machine alloc machine-IsLinear alloc-IsAllocator from_codes-codes program
      env cells no_maps env-Holds (λ a key. omega arith) (omega arith)

program_answers :
    (spec_all program no_maps).0 ≡ written ∷ value (1 ∷ 2 ∷ []) ∷ answer false ∷ value [] ∷ []
unfolding spec_all spec
program_answers = refl

abbrev holding : VmContext Cells
holding = record env { memory_adapter = ("A", 9 ∷ 9 ∷ []) ∷ [] }

holding-short : (k : String) → length (stored own holding k) < 2 ^ 32
unfolding adapter HashMap.get
holding-short k = ground (arith)

memory_read-Answered_example :
    ((k : String) × (machine.get_utf8_string cells 0 (as_u32 1) ≡ some k)
      × Answered machine machine-IsLinear holding cells 4 2
          (stored own holding k)
          (memory_read machine own 0 1 4 2 (at holding cells)))
    ⊎ (memory_read machine own 0 1 4 2 (at holding cells)
        ≡ failed no_promise_data (at holding cells))
memory_read-Answered_example =
    memory_read-Answered machine machine-IsLinear own holding cells 0 1 4 2 holding-short

promise_status_write-longer_example :
    (7 ≡ length (machine.utf8 "Pending")
      → (m' : Cells) × (promise_status_write machine 0 0 7 (at env cells) ≡ returned tt (at env m'))
        × Written machine cells m' 0 (machine.utf8 "Pending"))
    × (length (machine.utf8 "Pending") < 7
        → promise_status_write machine 0 0 7 (at env cells) ≡ panicked)
unfolding i32_as_usize
promise_status_write-longer_example =
    promise_status_write-longer machine machine-IsLinear env cells 0 0 7 broadcast_pending "Pending"
      refl refl refl (omega arith)
