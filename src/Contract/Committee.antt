-- ===== src/Contract/Committee.antt =====
-- contracts/src/committee.rs: the committee of an epoch, drawn from the active nodes by hashes of a
-- random number, and the leader of a slot. The source's `while` loop has no bound of its own; here
-- it ends after `reroll_limit` draws, when the call is out of gas.
pub mod Pigeonhole
pub mod Picks
pub mod Draws
pub mod Selection
use seda_rust.Base.{
  ℕ, zero, suc, ◌+◌, ◌%◌, true, false, Option, none, some, List, [], ◌∷◌, ◌++◌, eqb, nat_eq,
  contains, length, get_elem?, if◌then◌else◌, to_le_bytes, add_u64,
}
use seda_rust.Contract.State.{Env, AccountId, MainchainContract}
use seda_rust.Contract.Results.{
  Result, ok, panic, remainder_by_zero, out_of_fuel, index_out_of_bounds, assert, expect, ◌>>=◌,
  ◌>>◌,
}
use seda_rust.Contract.Clock.{get_current_epoch, get_current_slot}

-- `prn % len`, of the digest of a random number and a counter.
unfoldable pub draw : Env → ℕ → ℕ → ℕ → ℕ
draw env random_number len counter =
    env.sha256 (to_le_bytes 32 random_number ++ to_le_bytes 8 counter) % len

-- The `while` loop: draws again while the index was chosen before. `base` is `i + committee_size`.
unfoldable pub reroll : ℕ → Env → ℕ → ℕ → ℕ → List ℕ → ℕ → ℕ → Result (ℕ × ℕ)
reroll zero env random_number len base chosen rerolls index = panic out_of_fuel
reroll (suc fuel) env random_number len base chosen rerolls index =
    let again =
      reroll fuel env random_number len base chosen (add_u64 rerolls 1)
        (draw env random_number len (add_u64 base (add_u64 rerolls 1))) in
    if contains chosen index then again else ok (index, rerolls)

-- The `for` loop: `seats` are left, `i` are taken.
unfoldable pub fill_seats :
    Env → ℕ → List AccountId → ℕ → ℕ → ℕ → ℕ → List ℕ → List AccountId → Result (List AccountId)
fill_seats env random_number validators committee_size zero i rerolls chosen committee =
    ok committee
fill_seats env random_number validators committee_size (suc seats) i rerolls chosen committee = do
  assert (if eqb (length validators) 0 then false else true) remainder_by_zero
  (index, rerolls') ←
      reroll env.reroll_limit env random_number (length validators) (add_u64 i committee_size)
        chosen rerolls (draw env random_number (length validators) i)
  validator ← expect (get_elem? validators index) index_out_of_bounds
  fill_seats env random_number validators committee_size seats (i + 1) rerolls'
      (chosen ++ index ∷ []) (committee ++ validator ∷ [])

unfoldable pub select_committee : Env → ℕ → MainchainContract → Result (List AccountId)
select_committee env random_number c =
    fill_seats env random_number c.active_nodes.keys c.config.committee_size c.config.committee_size
      0 0 [] []

unfoldable pub get_committee : ℕ → MainchainContract → Option (List AccountId)
get_committee epoch c = c.committees epoch

unfoldable pub get_last_generated_random_number : MainchainContract → ℕ
get_last_generated_random_number c = c.last_generated_random_number

-- The seat that leads, in a committee that is there.
slot_leader_of : Env → MainchainContract → Option (List AccountId) → Result (Option AccountId)
slot_leader_of env c none = ok none
slot_leader_of env c (some committee) = do
  assert (if eqb c.config.committee_size 0 then false else true) remainder_by_zero
  ok (
      get_elem? committee
        (draw env c.last_generated_random_number c.config.committee_size (get_current_slot env)))

unfoldable pub get_current_slot_leader : Env → MainchainContract → Result (Option AccountId)
unfolding slot_leader_of
get_current_slot_leader env c = slot_leader_of env c (c.committees (get_current_epoch env))
