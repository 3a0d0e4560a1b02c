-- ===== src/Contract/Tests/Committee.antt =====
-- Committees of one and two nodes.
use seda_rust.Base.{
  ◌↔◌, ℕ, contains, ◌≤◌, ◌≡◌, refl, true, some, List, [], ◌∷◌, string_eq, bytes_eq, add_u64,
  to_le_bytes, length, nat_eq,
}
use seda_rust.Contract.Collections.{NoDup, empty-IsKeyed, insert-IsKeyed, IsKeyed}
use seda_rust.Contract.State.{Node, AccountId}
use seda_rust.Contract.Results.{ok}
use seda_rust.Contract.Committee.{draw, reroll, fill_seats, select_committee}
use seda_rust.Contract.Committee.Selection.{select_committee_sound}
use seda_rust.Contract.Committee.Draws.{Elects, select_committee_iff}
use seda_rust.Contract.Tests.{at_epoch, two_active}

two_active-IsKeyed : (size : ℕ) → IsKeyed (two_active size).active_nodes
two_active-IsKeyed size = insert-IsKeyed _ "bob" _ (insert-IsKeyed _ "alice" _ empty-IsKeyed)

abbrev both : List AccountId
both = "alice" ∷ "bob" ∷ []

selects_two : select_committee (at_epoch 1) 7 (two_active 2) ≡ ok both
unfolding select_committee fill_seats reroll draw to_le_bytes add_u64
selects_two = refl

select_committee_sound_example :
    (length both ≡ 2)
    × NoDup both
    × ((a : AccountId)
        → contains both a ≡ true
        → (node : Node) × ((two_active 2).active_nodes.entry a ≡ some node))
    × (2 ≤ 2)
select_committee_sound_example =
    select_committee_sound (at_epoch 1) 7 (two_active 2) both (two_active-IsKeyed 2) selects_two

select_committee_iff_example :
    (select_committee (at_epoch 1) 7 (two_active 2) ≡ ok both)
    ↔ Elects (at_epoch 1) 7 both 2 2 0 0 [] [] both
select_committee_iff_example = select_committee_iff (at_epoch 1) 7 (two_active 2) both
