-- ===== src/Node/App.antt =====
-- node/src/app, event_queue_handler.rs and the parts of host that feed the queue: the actor that holds
-- it. The messages it sends to the runtime's worker are recorded in order.
use seda_rust.Base.{Option, none, some, List, [], ◌∷◌, ◌++◌, String}
use seda_rust.Runtime.Promises.{Event, P2PMessage, batch_chain_tick, p2p_message}
use seda_rust.Node.EventQueue

pub record App : Type 0 where
  pub event_queue : List Event
  pub running_event_ids : List String
  pub jobs : List Event

unfoldable pub new : App
new = record { event_queue = []; running_event_ids = []; jobs = [] }

unfoldable pub add_event_to_queue : Event → App → App
add_event_to_queue event app = record app { event_queue = EventQueue.add event app.event_queue }

dispatch : Option Event × List Event → App → App
dispatch (none, rest) app = record app { event_queue = rest }
dispatch (some event, rest) app = record app { event_queue = rest; jobs = app.jobs ++ event ∷ [] }

unfoldable pub start_job_manager : App → App
unfolding dispatch
start_job_manager app = dispatch (EventQueue.get_next app.running_event_ids app.event_queue) app

-- What reaches the actor: a tick of its own timer, the ticks and events that the host passes on, and
-- messages from the peer-to-peer server.
pub data Message : Type 0 where
  job_tick batch_tick : Message
  triggered : Event → Message
  p2p_received : P2PMessage → Message

abbrev pub event_of : Message → Option Event
event_of job_tick = none
event_of batch_tick = some (record { id = "BatchChainTick"; event_data = batch_chain_tick })
event_of (triggered event) = some event
event_of (p2p_received message) =
    some (record { id = "p2p-message"; event_data = p2p_message message })

receive : Option Event → App → App
receive none app = start_job_manager app
receive (some event) app = add_event_to_queue event app

unfoldable pub handle : Message → App → App
unfolding receive
handle message app = receive (event_of message) app

unfoldable pub handle_all : List Message → App → App
handle_all [] app = app
handle_all (message ∷ messages) app = handle_all messages (handle message app)
