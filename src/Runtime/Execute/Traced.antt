-- ===== src/Runtime/Execute/Traced.antt =====
-- The trace of a run of `execute_promise_queue`, and what `start_runtime` reads off it.
use seda_rust.Base.{
  ℕ, zero, suc, ◌≡◌, ◌≢◌, refl, sym, ap, ◌∙◌, arith, true, none, some, List, [], ◌∷◌, ◌++◌, All,
  All-append, subst, Option-cases, if◌then◌else◌, Bool, false, ◌⊎◌, ◌↔◌, inl, inr,
}
use seda_rust.Runtime.Promises.{Promise, PromiseQueue, add_promise}
use seda_rust.Runtime.Host.{Runtime}
use seda_rust.Runtime.Execute
use seda_rust.Runtime.Execute.{
  Io, Turn, continues, returns, panics, settle_all, Execution, execute_promise_queue, finished,
  next_round,
}
use seda_rust.Runtime.Execute.Settled.{is_settled, Holds, Follows, Extends, settle_all-Extends}
use seda_rust.Runtime.Start
use seda_rust.Runtime.Start.{
  VmConfig, Ended, entry, last, shown, start_runtime, result_of_trace, result_of_status,
}

abbrev pub SettledPromise : Promise → Type 0
SettledPromise p = is_settled p.action p.status ≡ true

abbrev pub Traced : PromiseQueue → Type 0
Traced queue = (queue ≢ []) × All SettledPromise queue

Follows-SettledPromise : (ps qs : PromiseQueue) → Follows ps qs → All SettledPromise qs
Follows-SettledPromise [] [] h = tt
Follows-SettledPromise [] (q ∷ qs) h = elim h [ ]
Follows-SettledPromise (p ∷ ps) [] h = elim h [ ]
Follows-SettledPromise (p ∷ ps) (q ∷ qs) (a, s, h) = (s, Follows-SettledPromise ps qs h)

Follows-Traced : (p : Promise) (ps qs : PromiseQueue) → Follows (p ∷ ps) qs → Traced qs
Follows-Traced p ps [] h = elim h [ ]
Follows-Traced p ps (q ∷ qs) h = (λ e. cc, Follows-SettledPromise (p ∷ ps) (q ∷ qs) h)

last-some : {A : Type 0} (x : A) (xs : List A) → (y : A) × (last (x ∷ xs) ≡ some y)
last-some x [] = (x, refl)
last-some x (y ∷ ys) = last-some y ys

All-last : {A : Type 0} (P : A → Type 0) (xs : List A) (y : A) → All P xs → last xs ≡ some y → P y
All-last P [] y h e = cc
All-last P (x ∷ []) y h e = subst P (cc) h.0
All-last P (x ∷ z ∷ zs) y h e = All-last P (z ∷ zs) y h.1 e

result_of_trace-some : (queue : PromiseQueue) → queue ≢ [] → result_of_trace (some queue) ≢ none
unfolding result_of_trace
result_of_trace-some [] h e = h refl
result_of_trace-some (p ∷ ps) h e = let (q, found) = last-some p ps in ground arith

result_of_trace-none :
    (trace : List PromiseQueue) → All Traced trace → result_of_trace (last trace) ≢ none
unfolding result_of_trace
result_of_trace-none trace h e = elim (Option-cases (last trace)) [
  | inl none_left ↦ cc (ap result_of_trace none_left)
  | inr (queue, found) ↦
      result_of_trace-some queue (All-last Traced trace queue h found).0
        (sym (ap result_of_trace found) ∙ e)
]

unfoldable pub EndsTraced : {S : Type 0} → Execution S → Type 0
EndsTraced (finished result trace io) = All Traced trace
EndsTraced Execute.panicked = Unit {0}
EndsTraced Execute.out_of_fuel = Unit {0}

module _ {S : Type 0} where
  next_round-EndsTraced :
      (p : Promise) (rest : PromiseQueue) (trace : List PromiseQueue)
      (again : PromiseQueue → List PromiseQueue → Io S → Execution S)
      (t : Turn S (PromiseQueue × PromiseQueue))
      → Holds (Extends [] (p ∷ rest)) t
      → All Traced trace
      → ((next : PromiseQueue) (more : List PromiseQueue) (io : Io S)
          → All Traced more
          → EndsTraced (again next more io))
      → EndsTraced (next_round trace again t)
  unfolding Holds EndsTraced
  next_round-EndsTraced p rest trace again (continues (queue, next) io) (tail, e, follows) h on =
      on next (trace ++ queue ∷ []) io (
        All-append Traced trace (queue ∷ []) h
          (subst Traced (sym e) (Follows-Traced p rest tail follows), tt))
  next_round-EndsTraced p rest trace again (returns result io) k h on = h
  next_round-EndsTraced p rest trace again panics k h on = tt

  -- However a run ends, every queue it traced has a promise, and all its promises are dealt with.
  pub execute_promise_queue-EndsTraced :
      (fuel : ℕ) (r : Runtime S) (queue : PromiseQueue) (trace : List PromiseQueue) (io : Io S)
      → All Traced trace
      → EndsTraced (execute_promise_queue fuel r queue trace io)
  unfolding execute_promise_queue EndsTraced
  execute_promise_queue-EndsTraced zero r queue trace io h = tt
  execute_promise_queue-EndsTraced (suc fuel) r [] trace io h = h
  execute_promise_queue-EndsTraced (suc fuel) r (p ∷ rest) trace io h =
      next_round-EndsTraced p rest trace (execute_promise_queue fuel r) _
        (settle_all-Extends r [] (p ∷ rest) [] io) h
        (λ next more io' k. execute_promise_queue-EndsTraced fuel r next more io' k)

  shown-panicked :
      (e : Execution S) → EndsTraced e → shown e ≡ Start.panicked → e ≡ Execute.panicked
  unfolding shown EndsTraced
  shown-panicked (finished result trace io) h e =
      let some_result = result_of_trace-none trace h in
      elim (Option-cases (result_of_trace (last trace))) [
        | inl nothing ↦ absurd (some_result nothing)
        | inr (data_, found) ↦ ground arith
      ]
  shown-panicked Execute.panicked h e = refl
  shown-panicked Execute.out_of_fuel h e = cc

  if-panicked :
      (t : Bool) (e : Ended S)
      → ((if t then e else Start.panicked) ≡ Start.panicked) ↔ ((t ≡ false) ⊎ (e ≡ Start.panicked))
  if-panicked true e = ((λ p. inr p), (λ p. elim p [ inl h ↦ cc | inr h ↦ h ]))
  if-panicked false e = ((λ p. inl refl), (λ p. refl))

  -- `start_runtime` panics exactly when no module was loaded, or the run itself panics: the two
  -- `unwrap`s on the trace never fail.
  pub start_runtime-panicked :
      (fuel : ℕ) (r : Runtime S) (config : VmConfig) (s : S)
      → (start_runtime fuel r config s ≡ Start.panicked) ↔ (
          (r.wasm_module ≡ false)
          ⊎ (execute_promise_queue fuel r
                (add_promise (entry config) [])
                []
                (record { state = s; stdout = []; stderr = [] })
              ≡ Execute.panicked))
  unfolding start_runtime shown
  start_runtime-panicked fuel r config s =
      let queue = add_promise (entry config) [] in
      let ends =
        execute_promise_queue fuel r queue [] (record { state = s; stdout = []; stderr = [] }) in
      let (to, from) = if-panicked r.wasm_module (shown ends) in
      (
        (λ e. elim (to e) [
          | inl missing ↦ inl missing
          | inr p ↦
              inr (shown-panicked ends (execute_promise_queue-EndsTraced fuel r queue [] _ tt) p)
        ]),
        (λ e. elim e [ inl missing ↦ from (inl missing) | inr p ↦ from (inr (ap shown p)) ]),
      )
