-- ===== src/Runtime/Execute/Forgets.antt =====
-- Several calls in one queue of `execute_promise_queue`.
use seda_rust.Base.{
  ℕ, String, ◌≡◌, refl, sym, ap, ◌∙◌, arith, Bool, true, false, ◌&&◌, ◌||◌, List, [], ◌∷◌, ◌++◌,
  Bool-cases, inl, inr,
}
use seda_rust.Runtime.Promises.{
  PromiseAction, PromiseStatus, Promise, PromiseQueue, HostResult, call_self, database_set,
  database_get, http, chain_view, chain_call, trigger_event, p2p_broadcast, is_limited_action,
  rejected,
}
use seda_rust.Runtime.Host.{Runtime}
use seda_rust.Runtime.Execute.{
  Io, Turn, continues, returns, panics, and_then, settle, settle_all, perform, set_in_database,
}

abbrev pub is_call : PromiseAction → Bool
is_call (call_self a) = true
is_call _ = false

abbrev pub has_call : PromiseQueue → Bool
has_call [] = false
has_call (p ∷ ps) = is_call p.action || has_call ps

-- A turn whose next queue is replaced.
relay :
    {S : Type 0}
    → PromiseQueue
    → Turn S (PromiseStatus × PromiseQueue)
    → Turn S (PromiseStatus × PromiseQueue)
relay next t = and_then t (λ (status, old) io. continues (status, next) io)

relay-and_then :
    {S B : Type 0} (next next' : PromiseQueue) (t : Turn S (PromiseStatus × PromiseQueue))
    (f : PromiseStatus × PromiseQueue → Io S → Turn S B)
    → ((status : PromiseStatus) (io : Io S) → f (status, next) io ≡ f (status, next') io)
    → and_then (relay next t) f ≡ and_then (relay next' t) f
unfolding and_then relay
relay-and_then next next' (continues (status, old) io) f h = h status io
relay-and_then next next' (returns result io) f h = refl
relay-and_then next next' panics f h = refl

rejected-relay :
    {S : Type 0} (bytes : List ℕ) (next : PromiseQueue) (io : Io S)
    → continues (rejected bytes, next) io ≡ relay next (continues (rejected bytes, []) io)
unfolding relay and_then
rejected-relay bytes next io = refl

module _ {S : Type 0} (r : Runtime S) where
  set_in_database-relay :
      (key : String) (text : HostResult String) (next : PromiseQueue) (io : Io S)
      → set_in_database r key text next io ≡ relay next (set_in_database r key text [] io)
  unfolding set_in_database relay and_then
  set_in_database-relay key (HostResult.ok text) next io = refl
  set_in_database-relay key (HostResult.err e) next io = refl

  perform-relay :
      (action : PromiseAction) (current next : PromiseQueue) (io : Io S)
      → is_call action ≡ false
      → perform r action current next io ≡ relay next (perform r action current [] io)
  unfolding perform relay and_then
  perform-relay (call_self a) current next io h = cc
  perform-relay (database_set key value) current next io h =
      set_in_database-relay key (r.vm.from_utf8 value) next io
  perform-relay (database_get key) current next io h = refl
  perform-relay (http url) current next io h = refl
  perform-relay (chain_view a) current next io h = refl
  perform-relay (chain_call a) current next io h = refl
  perform-relay (trigger_event event) current next io h = refl
  perform-relay (p2p_broadcast bytes) current next io h = ground arith

  settle-relay :
      (action : PromiseAction) (current next : PromiseQueue) (io : Io S)
      → is_call action ≡ false
      → settle r action current next io ≡ relay next (settle r action current [] io)
  unfolding settle
  settle-relay action current next io h =
      elim (Bool-cases (r.limited && is_limited_action action)) [
        | inl e ↦ rw (e) (rejected-relay _ next io)
        | inr e ↦ rw (e) (perform-relay action current next io h)
      ]

  settle-call :
      (action : PromiseAction) (current next next' : PromiseQueue) (io : Io S)
      → is_call action ≡ true
      → settle r action current next io ≡ settle r action current next' io
  unfolding settle perform is_limited_action
  settle-call (call_self a) current next next' io h = ground arith
  settle-call (database_set key value) current next next' io h = cc
  settle-call (database_get key) current next next' io h = cc
  settle-call (http url) current next next' io h = cc
  settle-call (chain_view a) current next next' io h = cc
  settle-call (chain_call a) current next next' io h = cc
  settle-call (trigger_event event) current next next' io h = cc
  settle-call (p2p_broadcast bytes) current next next' io h = cc

  abbrev carry_on :
      PromiseQueue
      → PromiseQueue
      → Promise
      → PromiseStatus × PromiseQueue
      → Io S
      → Turn S (PromiseQueue × PromiseQueue)
  carry_on before rest p (status, next) io =
      settle_all r (before ++ record p { status = status } ∷ []) rest next io

  -- Once a later call of the queue runs, what an earlier call queued is gone: a round that still has a
  -- call to come ends in the same way whatever promises were queued so far.
  pub settle_all-forgets :
      (before rest next next' : PromiseQueue) (io : Io S)
      → has_call rest ≡ true
      → settle_all r before rest next io ≡ settle_all r before rest next' io
  unfolding settle_all
  settle_all-forgets before [] next next' io h = cc
  settle_all-forgets before (p ∷ rest) next next' io h = elim (Bool-cases (is_call p.action)) [
    | inl call ↦
        ap (λ t. and_then t (carry_on before rest p)) (settle-call p.action _ next next' io call)
    | inr other ↦
        ap (λ t. and_then t (carry_on before rest p)) (settle-relay p.action _ next io other)
        ∙ relay-and_then next next' _ (carry_on before rest p) (λ status io'.
          settle_all-forgets (before ++ record p { status = status } ∷ []) rest next next' io'
            (rw (← h, other) refl))
        ∙ ap (λ t. and_then t (carry_on before rest p))
            (sym (settle-relay p.action _ next' io other))
  ]
