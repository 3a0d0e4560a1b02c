-- ===== src/Node/Delivery.antt =====
-- The order in which the node hands its events to the runtime.
use seda_rust.Base.{
  ℕ, ◌+◌, ◌-◌, length, length-append, ◌≡◌, refl, sym, ap, ◌∙◌, arith, Bool, true, false, none, some,
  List, [], ◌∷◌, ◌++◌, String, string_eq, contains, subst, if◌then◌else◌,
}
use seda_rust.Runtime.Promises.{Event}
use seda_rust.Node.EventQueue.{add, get_next}
use seda_rust.Node.App.{
  App, Message, event_of, job_tick, batch_tick, triggered, p2p_received, handle, handle_all, new,
  start_job_manager, add_event_to_queue,
}

abbrev all_skipped : List String → List Event → Bool
all_skipped ids [] = true
all_skipped ids (event ∷ items) = if contains ids event.id then all_skipped ids items else false

-- `get_next` leaves a queue whose ids are all to be skipped as it is, and takes the first event that is
-- not to be skipped out of any other.
get_next-first :
    (ids : List String) (before after : List Event) (event : Event)
    → all_skipped ids before ≡ true
    → (get_next ids before ≡ (none, before))
      × (contains ids event.id ≡ false
          → get_next ids (before ++ event ∷ after) ≡ (some event, before ++ after))
unfolding get_next
get_next-first ids [] after event h = (refl, λ k. ground arith)
get_next-first ids (e ∷ before) after event h =
    ground (arith, get_next-first ids before after event)

abbrev pub added : List Message → List Event
added [] = []
added (message ∷ messages) = elim (event_of message) [
  | none ↦ added messages
  | some event ↦ event ∷ added messages
]

-- How many events wait after the messages, when so many did before: a tick of the job manager takes one
-- if there is one, any other message brings one.
abbrev pub waiting : List Message → ℕ → ℕ
waiting [] n = n
waiting (message ∷ messages) n = elim (event_of message) [
  | none ↦ waiting messages (n - 1)
  | some event ↦ waiting messages (n + 1)
]

abbrev pub handed_on : App → List Event
handed_on app = app.jobs ++ app.event_queue

append_assoc : (xs ys zs : List Event) → (xs ++ ys) ++ zs ≡ xs ++ (ys ++ zs)
append_assoc [] ys zs = refl
append_assoc (x ∷ xs) ys zs = ap (λ l. x ∷ l) (append_assoc xs ys zs)

append_nil : (xs : List Event) → xs ++ [] ≡ xs
append_nil [] = refl
append_nil (x ∷ xs) = ap (λ l. x ∷ l) (append_nil xs)

-- One message keeps the events in order and adds its own at the end.
handle-handed_on :
    (message : Message) (items jobs : List Event)
    → let app =
        handle message (record { event_queue = items; running_event_ids = []; jobs = jobs }) in
      (app.running_event_ids ≡ [])
      × (handed_on app ≡ (jobs ++ items) ++ added (message ∷ []))
      × (length app.event_queue ≡ waiting (message ∷ []) (length items))
unfolding handle start_job_manager get_next add_event_to_queue add
handle-handed_on job_tick [] jobs = (refl, sym (append_nil (jobs ++ [])), refl)
handle-handed_on job_tick (e ∷ items) jobs =
    (refl, append_assoc jobs (e ∷ []) items ∙ sym (append_nil (jobs ++ e ∷ items)), omega arith)
handle-handed_on batch_tick items jobs =
    (refl, sym (append_assoc jobs items _), length-append items _)
handle-handed_on (triggered event) items jobs =
    (refl, sym (append_assoc jobs items _), length-append items _)
handle-handed_on (p2p_received message) items jobs =
    (refl, sym (append_assoc jobs items _), length-append items _)

added_cons :
    (message : Message) (messages : List Message)
    → added (message ∷ messages) ≡ added (message ∷ []) ++ added messages
added_cons job_tick messages = refl
added_cons batch_tick messages = refl
added_cons (triggered event) messages = refl
added_cons (p2p_received message) messages = refl

handle_app-handed_on :
    (message : Message) (app : App)
    → app.running_event_ids ≡ []
    → ((handle message app).running_event_ids ≡ [])
      × (handed_on (handle message app) ≡ handed_on app ++ added (message ∷ []))
      × (length (handle message app).event_queue ≡ waiting (message ∷ []) (length app.event_queue))
handle_app-handed_on message app h =
    subst
      (λ ids.
        let app' =
          handle message
            (record { event_queue = app.event_queue; running_event_ids = ids; jobs = app.jobs }) in
        (app'.running_event_ids ≡ [])
        × (handed_on app' ≡ handed_on app ++ added (message ∷ []))
        × (length app'.event_queue ≡ waiting (message ∷ []) (length app.event_queue)))
      (sym h) (handle-handed_on message app.event_queue app.jobs)

waiting_cons :
    (message : Message) (messages : List Message) (n : ℕ)
    → waiting (message ∷ messages) n ≡ waiting messages (waiting (message ∷ []) n)
waiting_cons job_tick messages n = refl
waiting_cons batch_tick messages n = refl
waiting_cons (triggered event) messages n = refl
waiting_cons (p2p_received message) messages n = refl

-- From an app with no running ids, whatever messages come: the ids stay empty; the events handed to the
-- runtime, followed by those that wait, are the old ones and then all that came, in order, so that none
-- is lost, repeated or overtaken; and every tick of the job manager hands one on if one waits, so that
-- as many wait at the end as ticks did not come for.
pub handle_all-handed_on :
    (messages : List Message) (app : App)
    → app.running_event_ids ≡ []
    → ((handle_all messages app).running_event_ids ≡ [])
      × (handed_on (handle_all messages app) ≡ handed_on app ++ added messages)
      × (length (handle_all messages app).event_queue ≡ waiting messages (length app.event_queue))
unfolding handle_all
handle_all-handed_on [] app h = (h, sym (append_nil (handed_on app)), refl)
handle_all-handed_on (message ∷ messages) app h =
    let (idle, first, count) = handle_app-handed_on message app h in
    let (idle', rest, count') = handle_all-handed_on messages (handle message app) idle in
    (
      idle',
      rest
          ∙ ap (λ l. l ++ added messages) first
          ∙ append_assoc (handed_on app) (added (message ∷ [])) (added messages)
          ∙ ap (λ l. handed_on app ++ l) (sym (added_cons message messages)),
      count'
          ∙ ap (waiting messages) count
          ∙ sym (waiting_cons message messages (length app.event_queue)),
    )

-- Two events of one id, one after the other, are both handed to the runtime by two ticks, while the
-- first may still run: nothing records an id as running.
handle_all-same_id :
    (first second : Event)
    → first.id ≡ second.id
    → (handle_all (triggered first ∷ triggered second ∷ job_tick ∷ job_tick ∷ []) new).jobs
      ≡ first ∷ second ∷ []
unfolding handle_all handle new start_job_manager get_next add_event_to_queue add
handle_all-same_id first second h = refl
