-- ===== src/Node/EventQueue.antt =====
-- node/src/event_queue.rs: the queue of events.
use seda_rust.Base.{
  Option, none, some, List, [], ◌∷◌, ◌++◌, String, string_eq, contains, if◌then◌else◌,
}
use seda_rust.Runtime.Promises.{Event}

unfoldable pub add : Event → List Event → List Event
add event items = items ++ event ∷ []

abbrev pub keep : Event → Option Event × List Event → Option Event × List Event
keep event (found, rest) = (found, event ∷ rest)

-- The first event whose id is not to be skipped, and the queue without it.
unfoldable pub get_next : List String → List Event → Option Event × List Event
get_next skip_ids [] = (none, [])
get_next skip_ids (event ∷ items) =
    let later = keep event (get_next skip_ids items) in
    if contains skip_ids event.id then later else (some event, items)
