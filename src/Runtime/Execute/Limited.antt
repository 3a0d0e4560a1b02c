-- ===== src/Runtime/Execute/Limited.antt =====
-- The limited runtime: only calls and HTTP requests reach the outside.
use seda_rust.Base.{ℕ, zero, suc, ◌≡◌, refl, ap, ◌∙◌, true, List, [], ◌∷◌, ◌++◌, String}
use seda_rust.Runtime.Promises.{
  PromiseAction, PromiseQueue, call_self, database_set, database_get, http, chain_view, chain_call,
  trigger_event, p2p_broadcast, is_limited_action,
}
use seda_rust.Runtime.Host.{Runtime, HostAdapter}
use seda_rust.Runtime.Execute.{
  Io, Turn, continues, returns, panics, and_then, settle, settle_all, perform, run_call, Execution,
  execute_promise_queue, next_round,
}

and_then_same :
    {S A B : Type 0} (t : Turn S A) (f g : A → Io S → Turn S B)
    → ((a : A) (io : Io S) → f a io ≡ g a io)
    → and_then t f ≡ and_then t g
unfolding and_then
and_then_same (continues a io) f g h = h a io
and_then_same (returns result io) f g h = refl
and_then_same panics f g h = refl

and_then_cong :
    {S A B : Type 0} (t t' : Turn S A) (f g : A → Io S → Turn S B)
    → t ≡ t'
    → ((a : A) (io : Io S) → f a io ≡ g a io)
    → and_then t f ≡ and_then t' g
and_then_cong t t' f g e h = ap (λ u. and_then u f) e ∙ and_then_same t' f g h

next_round_cong :
    {S : Type 0} (trace : List PromiseQueue)
    (again more : PromiseQueue → List PromiseQueue → Io S → Execution S)
    (t : Turn S (PromiseQueue × PromiseQueue))
    → ((next : PromiseQueue) (trace' : List PromiseQueue) (io : Io S)
        → again next trace' io ≡ more next trace' io)
    → next_round trace again t ≡ next_round trace more t
next_round_cong trace again more (continues (queue, next) io) h = h next (trace ++ queue ∷ []) io
next_round_cong trace again more (returns result io) h = refl
next_round_cong trace again more panics h = refl

abbrev pub with_host : {S : Type 0} → HostAdapter S → Runtime S → Runtime S
with_host h r = record r { host_adapter = h }

module _ {S : Type 0} (r : Runtime S) (h : HostAdapter S) (limited : r.limited ≡ true)
    (same_http : (url : String) (s : S)
      → h.http_fetch url s ≡ r.host_adapter.http_fetch url s) where
  settle-with_host :
      (action : PromiseAction) (current next : PromiseQueue) (io : Io S)
      → settle r action current next io ≡ settle (with_host h r) action current next io
  unfolding settle is_limited_action perform run_call
  settle-with_host (call_self a) current next io = rw (limited) refl
  settle-with_host (http url) current next io = rw (limited, same_http url io.state) refl
  settle-with_host (database_set key value) current next io = rw (limited) refl
  settle-with_host (database_get key) current next io = rw (limited) refl
  settle-with_host (chain_view a) current next io = rw (limited) refl
  settle-with_host (chain_call a) current next io = rw (limited) refl
  settle-with_host (trigger_event event) current next io = rw (limited) refl
  settle-with_host (p2p_broadcast bytes) current next io = rw (limited) refl

  settle_all-with_host :
      (before rest next : PromiseQueue) (io : Io S)
      → settle_all r before rest next io ≡ settle_all (with_host h r) before rest next io
  unfolding settle_all
  settle_all-with_host before [] next io = refl
  settle_all-with_host before (p ∷ rest) next io =
      and_then_cong _ _ _ _ (settle-with_host p.action _ next io) (λ (status, next') io'.
        settle_all-with_host (before ++ record p { status = status } ∷ []) rest next' io')

  -- A limited runtime asks nothing of its host but HTTP requests: its run is the same whatever the
  -- host's database, chains, events and peer-to-peer channel would do.
  pub execute_promise_queue-limited :
      (fuel : ℕ) (queue : PromiseQueue) (trace : List PromiseQueue) (io : Io S)
      → execute_promise_queue fuel r queue trace io
        ≡ execute_promise_queue fuel (with_host h r) queue trace io
  unfolding execute_promise_queue
  execute_promise_queue-limited zero queue trace io = refl
  execute_promise_queue-limited (suc fuel) [] trace io = refl
  execute_promise_queue-limited (suc fuel) (p ∷ rest) trace io =
      ap (next_round trace (execute_promise_queue fuel r))
        (settle_all-with_host [] (p ∷ rest) [] io)
      ∙ next_round_cong trace _ _ _
          (λ next more io'. execute_promise_queue-limited fuel next more io')
