-- ===== src/Node/Tests.antt =====
-- The node on concrete messages.
use Prim.Native.String
use seda_rust.Base.{Bool, arith, length, ◌≡◌, refl, false, List, [], ◌∷◌, ◌++◌, string_eq}
use seda_rust.Runtime.Promises.{Event, chain_tick}
use seda_rust.Node.App.{Message, job_tick, batch_tick, triggered, handle_all, new}
use seda_rust.Node.Database.{
  Row, Table, IsScan, Reads, any, any-append, db_get, set_all, db_get-set_all,
}
use seda_rust.Node.Delivery.{waiting, handle_all-handed_on, handed_on, added}

abbrev event_named : String.String → Event
event_named id = record { id = id; event_data = chain_tick }

abbrev names : List String.String
names = "a" ∷ []

abbrev messages : List Message
messages = triggered (event_named "a") ∷ batch_tick ∷ job_tick ∷ []

handle_all-handed_on_example :
    ((handle_all messages new).running_event_ids ≡ [])
    × (handed_on (handle_all messages new) ≡ handed_on new ++ added messages)
    × (length (handle_all messages new).event_queue ≡ waiting messages 0)
unfolding new
handle_all-handed_on_example = handle_all-handed_on messages new refl

-- A scan from the newest row to the oldest.
backwards : Table → Table
backwards [] = []
backwards (row ∷ rows) = backwards rows ++ row ∷ []

any-backwards : (f : Row → Bool) (t : Table) → any f (backwards t) ≡ any f t
unfolding backwards
any-backwards f [] = refl
any-backwards f (row ∷ rows) =
    ground (arith, any-append f (backwards rows) (row ∷ []), any-backwards f rows)

backwards-IsScan : IsScan backwards
backwards-IsScan = record { same_rows = any-backwards }

db_get-set_all_example : Reads (("a", "1") ∷ ("b", "2") ∷ ("a", "3") ∷ []) "a" (
    db_get
      (λ t. false)
      backwards
      "a"
      (set_all (λ t. false) (("a", "1") ∷ ("b", "2") ∷ ("a", "3") ∷ []) []))
db_get-set_all_example =
    db_get-set_all backwards backwards-IsScan (("a", "1") ∷ ("b", "2") ∷ ("a", "3") ∷ []) "a"
