-- ===== src/Runtime/Execute/Settled.antt =====
-- What a round of `execute_promise_queue` leaves of its queue, and of the next one.
use seda_rust.Base.{
  ℕ, ◌≡◌, refl, sym, ap, ◌∙◌, arith, Bool, true, false, ◌&&◌, Option, none, some, List, [], ◌∷◌,
  ◌++◌, String, Bool-cases, inl, inr,
}
use seda_rust.Runtime.Promises.{
  PromiseAction, PromiseStatus, Promise, PromiseQueue, HostResult, CallSelfAction, call_self,
  database_set, database_get, http, chain_view, chain_call, trigger_event, p2p_broadcast, pending,
  fulfilled, rejected, unfulfilled, is_limited_action, status_of, status_of_option,
}
use seda_rust.Runtime.Host.{Runtime, VmRun}
use seda_rust.Runtime.Execute.{
  Io, Turn, continues, returns, panics, and_then, settle, settle_all, perform, run_call,
  set_in_database, outcome, not_allowed,
}

-- A promise that was dealt with is fulfilled or rejected; only a broadcast may still be pending.
abbrev pub is_settled : PromiseAction → PromiseStatus → Bool
is_settled action unfulfilled = false
is_settled (p2p_broadcast bytes) pending = true
is_settled _ pending = false
is_settled action (fulfilled data_) = true
is_settled action (rejected data_) = true

-- What holds of the value when a turn goes on.
unfoldable pub Holds : {S A : Type 0} → (A → Type 0) → Turn S A → Type 0
Holds P (continues a io) = P a
Holds P (returns result io) = Unit {0}
Holds P panics = Unit {0}

and_then-Holds :
    {S A B : Type 0} (P : A → Type 0) (Q : B → Type 0) (t : Turn S A) (f : A → Io S → Turn S B)
    → Holds P t
    → ((a : A) (io : Io S) → P a → Holds Q (f a io))
    → Holds Q (and_then t f)
unfolding and_then Holds
and_then-Holds P Q (continues a io) f h k = k a io h
and_then-Holds P Q (returns result io) f h k = tt
and_then-Holds P Q panics f h k = tt

Always : {A : Type 0} → A → Type 0
Always a = Unit {0}

always : {S A : Type 0} (t : Turn S A) → Holds Always t
unfolding Always Holds
always (continues a io) = tt
always (returns result io) = tt
always panics = tt

abbrev pub Settles : PromiseAction → PromiseStatus × PromiseQueue → Type 0
Settles action (status, next) = is_settled action status ≡ true

module _ (utf8 : String → List ℕ) (action : PromiseAction) where
  status_of-is_settled :
      {T : Type 0} (to_bytes : T → List ℕ) (x : HostResult T)
      → is_settled action (status_of utf8 to_bytes x) ≡ true
  unfolding status_of
  status_of-is_settled to_bytes (HostResult.ok x) = refl
  status_of-is_settled to_bytes (HostResult.err x) = refl

  status_of_option-is_settled :
      {T : Type 0} (to_bytes : T → List ℕ) (x : HostResult (Option T))
      → is_settled action (status_of_option utf8 to_bytes x) ≡ true
  unfolding status_of_option
  status_of_option-is_settled to_bytes (HostResult.ok none) = refl
  status_of_option-is_settled to_bytes (HostResult.ok (some x)) = refl
  status_of_option-is_settled to_bytes (HostResult.err x) = refl

module _ {S : Type 0} where
  then_always :
      {A B : Type 0} (Q : B → Type 0) (t : Turn S A) (f : A → Io S → Turn S B)
      → ((a : A) (io : Io S) → Holds Q (f a io))
      → Holds Q (and_then t f)
  then_always Q t f k = and_then-Holds Always Q t f (always t) (λ a io _. k a io)

  outcome-Settles :
      (a : CallSelfAction) (run : VmRun) (error : Option String) (io : Io S)
      → Holds (Settles (call_self a)) (outcome run error io)
  unfolding outcome Holds
  outcome-Settles a run none io = refl
  outcome-Settles a run (some error) io = tt

  run_call-Settles :
      (r : Runtime S) (a : CallSelfAction) (current : PromiseQueue) (io : Io S)
      → Holds (Settles (call_self a)) (run_call r a current io)
  unfolding run_call
  run_call-Settles r a current io = then_always _ _ _ (λ _ io1. then_always _ _ _ (λ _ io2.
      then_always _ _ _ (λ _ io3. then_always _ _ _ (λ _ io4.
        then_always _ _ _ (λ _ io5. then_always _ _ _ (λ _ io6. outcome-Settles a _ _ io6))))))

  set_in_database-Settles :
      (r : Runtime S) (key : String) (value : List ℕ) (text : HostResult String)
      (next : PromiseQueue) (io : Io S)
      → Holds (Settles (database_set key value)) (set_in_database r key text next io)
  unfolding set_in_database Holds
  set_in_database-Settles r key value (HostResult.ok text) next io =
      status_of-is_settled r.vm.utf8 (database_set key value) (λ _. []) _
  set_in_database-Settles r key value (HostResult.err e) next io = refl

  perform-Settles :
      (r : Runtime S) (action : PromiseAction) (current next : PromiseQueue) (io : Io S)
      → Holds (Settles action) (perform r action current next io)
  unfolding perform Holds set_in_database
  perform-Settles r (call_self a) current next io = run_call-Settles r a current io
  perform-Settles r (database_set key value) current next io =
      set_in_database-Settles r key value (r.vm.from_utf8 value) next io
  perform-Settles r (database_get key) current next io =
      status_of_option-is_settled r.vm.utf8 (database_get key) r.vm.utf8 _
  perform-Settles r (http url) current next io =
      status_of-is_settled r.vm.utf8 (http url) r.vm.utf8 _
  perform-Settles r (chain_view a) current next io =
      status_of-is_settled r.vm.utf8 (chain_view a) (λ bytes. bytes) _
  perform-Settles r (chain_call a) current next io =
      status_of-is_settled r.vm.utf8 (chain_call a) (λ bytes. bytes) _
  perform-Settles r (trigger_event event) current next io =
      status_of-is_settled r.vm.utf8 (trigger_event event) (λ _. []) _
  perform-Settles r (p2p_broadcast bytes) current next io = ground arith

  rejected-Settles :
      (action : PromiseAction) (bytes : List ℕ) (next : PromiseQueue) (io : Io S)
      → Holds (Settles action) (continues (rejected bytes, next) io)
  unfolding Holds
  rejected-Settles action bytes next io = ground arith

  settle-Settles :
      (r : Runtime S) (action : PromiseAction) (current next : PromiseQueue) (io : Io S)
      → Holds (Settles action) (settle r action current next io)
  unfolding settle
  settle-Settles r action current next io =
      elim (Bool-cases (r.limited && is_limited_action action)) [
        | inl e ↦ rw (e) (rejected-Settles action (r.vm.utf8 (not_allowed action)) next io)
        | inr e ↦ rw (e) (perform-Settles r action current next io)
      ]

-- The settled queue holds the promises of the given one, in their order, each with its action.
abbrev pub Follows : PromiseQueue → PromiseQueue → Type 0
Follows [] [] = Unit {0}
Follows (p ∷ ps) (q ∷ qs) =
    (q.action ≡ p.action) × (is_settled q.action q.status ≡ true) × Follows ps qs
Follows _ _ = ⊥

abbrev pub Extends : PromiseQueue → PromiseQueue → PromiseQueue × PromiseQueue → Type 0
Extends before rest (queue, next) =
    (tail : PromiseQueue) × (queue ≡ before ++ tail) × Follows rest tail

append_nil : (xs : PromiseQueue) → xs ++ [] ≡ xs
append_nil [] = refl
append_nil (x ∷ xs) = ap (λ l. x ∷ l) (append_nil xs)

append_assoc : (xs ys zs : PromiseQueue) → (xs ++ ys) ++ zs ≡ xs ++ (ys ++ zs)
append_assoc [] ys zs = refl
append_assoc (x ∷ xs) ys zs = ap (λ l. x ∷ l) (append_assoc xs ys zs)

module _ {S : Type 0} where
  Extends-step :
      (before rest : PromiseQueue) (p : Promise) (status : PromiseStatus)
      (t : Turn S (PromiseQueue × PromiseQueue))
      → is_settled p.action status ≡ true
      → Holds (Extends (before ++ record p { status = status } ∷ []) rest) t
      → Holds (Extends before (p ∷ rest)) t
  unfolding Holds
  Extends-step before rest p status (continues (queue, next) io) h (tail, e, follows) =
      (record p { status = status } ∷ tail, e ∙ append_assoc before _ tail, (refl, h, follows))
  Extends-step before rest p status (returns result io) h k = tt
  Extends-step before rest p status panics h k = tt

  continues-Extends :
      (before next : PromiseQueue) (io : Io S)
      → Holds (Extends before []) (continues (before, next) io)
  unfolding Holds
  continues-Extends before next io = ([], sym (append_nil before), tt)

  -- A round that goes on has dealt with every promise of its queue: the settled queue has the same
  -- actions in the same order, and each is fulfilled or rejected, or a broadcast.
  pub settle_all-Extends :
      (r : Runtime S) (before rest next : PromiseQueue) (io : Io S)
      → Holds (Extends before rest) (settle_all r before rest next io)
  unfolding settle_all
  settle_all-Extends r before [] next io = continues-Extends before next io
  settle_all-Extends r before (p ∷ rest) next io =
      and_then-Holds (Settles p.action) (Extends before (p ∷ rest)) _ _
        (settle-Settles r p.action _ next io)
        (λ (status, next') io' h.
          Extends-step before rest p status _ h
            (settle_all-Extends r (before ++ record p { status = status } ∷ []) rest next' io'))
