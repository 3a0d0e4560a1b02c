-- ===== src/Contract/Committee/Selection.antt =====
-- `select_committee` of contracts/src/committee.rs: which committees it returns, when it returns one.
use seda_rust.Base.{
  ℕ, zero, suc, ◌+◌, ◌≤◌, ◌<◌, true, false, List, [], ◌∷◌, ◌++◌, ◌≡◌, ◌∙◌, sym, subst, is_some→some,
  arith, contains, length, some, get_elem?, get_elem?-total, Bool-cases, inl, inr, string_eq,
  nat_eq, eqb, length-append, add_u64,
}
use seda_rust.Contract.Collections.{NoDup, NoDup-append, contains-append, IsKeyed}
use seda_rust.Contract.State.{Env, AccountId, Node, MainchainContract}
use seda_rust.Contract.Results.{ok, ok-injective, >>=-eq-ok}
use seda_rust.Contract.Committee.{draw, reroll, fill_seats, select_committee}
use seda_rust.Contract.Committee.Pigeonhole.{length-le_of_distinct}
use seda_rust.Contract.Committee.Picks.{
  Picks, Picks-append, length-Picks, Picks-contains, Picks-NoDup,
}

-- Distinct indices of validators, and the validators there.
pub record Seated (vs : List AccountId) (chosen : List ℕ) (committee : List AccountId)
    : Type 0 where
  pub distinct : NoDup chosen
  pub bounded : (k : ℕ) → contains chosen k ≡ true → k < length vs
  pub picks : Picks vs chosen committee

seat :
    (vs : List AccountId) (chosen : List ℕ) (committee : List AccountId) (i : ℕ) (a : AccountId)
    → Seated vs chosen committee
    → contains chosen i ≡ false
    → i < length vs
    → get_elem? vs i ≡ some a
    → Seated vs (chosen ++ i ∷ []) (committee ++ a ∷ [])
seat vs chosen committee i a s free low e = record {
  distinct = NoDup-append chosen i s.distinct free;
  bounded = λ k c. ground (arith, contains-append chosen i k, s.bounded k);
  picks = Picks-append vs chosen committee i a s.picks e;
}

draw-lt : (env : Env) (random len counter : ℕ) → 0 < len → draw env random len counter < len
unfolding draw
draw-lt env random len counter h = grind arith

module _ (env : Env) (random len base : ℕ) (chosen : List ℕ) (some_left : 0 < len) where
  reroll_free :
      (fuel rerolls index : ℕ) {r : ℕ × ℕ}
      → index < len
      → reroll fuel env random len base chosen rerolls index ≡ ok r
      → (contains chosen r.0 ≡ false) × (r.0 < len)
  unfolding reroll
  reroll_free zero rerolls index low e = cc
  reroll_free (suc fuel) rerolls index low e = elim (Bool-cases (contains chosen index)) [
    | inr free ↦
        let same = ok-injective (rw free at e) in
        subst (λ (r : ℕ × ℕ). (contains chosen r.0 ≡ false) × (r.0 < len)) same (free, low)
    | inl taken ↦
        reroll_free fuel (add_u64 rerolls 1)
          (draw env random len (add_u64 base (add_u64 rerolls 1)))
          (draw-lt env random len _ some_left) (rw taken at e)
  ]

module _ (env : Env) (random : ℕ) (vs : List AccountId) (size : ℕ) where
  fill_seats-Seated :
      (seats i rerolls : ℕ) (chosen : List ℕ) (committee out : List AccountId)
      → Seated vs chosen committee
      → fill_seats env random vs size seats i rerolls chosen committee ≡ ok out
      → (all : List ℕ) × Seated vs all out × (length all ≡ length chosen + seats)
  unfolding fill_seats
  fill_seats-Seated zero i rerolls chosen committee out s e =
      (chosen, subst (Seated vs chosen) (ok-injective e) s, omega arith)
  fill_seats-Seated (suc seats) i rerolls chosen committee out s e =
      elim (Bool-cases (eqb (length vs) 0)) [
        | inl nobody ↦ absurd (cc (rw nobody at e))
        | inr somebody ↦
            let left : 0 < length vs = ground arith in
            let ((index, rerolls'), drawn, rest) =
              >>=-eq-ok
                (reroll env.reroll_limit env random (length vs) (add_u64 i size) chosen rerolls
                  (draw env random (length vs) i))
                _ (rw somebody at e) in
            let (free, low) =
              reroll_free env random (length vs) (add_u64 i size) chosen left env.reroll_limit
                rerolls _ (draw-lt env random (length vs) i left) drawn in
            let (a, at_index) = get_elem?-total vs index low in
            let (all, seated, count) =
              fill_seats-Seated seats (i + 1) rerolls' (chosen ++ index ∷ []) (committee ++ a ∷ [])
                out (seat vs chosen committee index a s free low at_index) (rw at_index at rest) in
            (all, seated, omega (arith, count, length-append chosen (index ∷ [])))
      ]

none-Seated : (vs : List AccountId) → Seated vs [] []
none-Seated vs = record { distinct = tt; bounded = λ k c. cc; picks = tt }

-- A committee that is selected has as many members as the configuration asks for, no member twice,
-- and active nodes only; so there are at least that many active nodes.
pub select_committee_sound :
    (env : Env) (random : ℕ) (c : MainchainContract) (committee : List AccountId)
    → IsKeyed c.active_nodes
    → select_committee env random c ≡ ok committee
    → (length committee ≡ c.config.committee_size)
      × NoDup committee
      × ((a : AccountId)
          → contains committee a ≡ true
          → (node : Node) × (c.active_nodes.entry a ≡ some node))
      × (c.config.committee_size ≤ length c.active_nodes.keys)
unfolding select_committee
select_committee_sound env random c committee keyed e =
    let vs = c.active_nodes.keys in
    let (all, s, count) =
      fill_seats-Seated env random vs c.config.committee_size c.config.committee_size 0 0 [] []
        committee (none-Seated vs) e in
    let size = length-Picks vs all committee s.picks in
    (
      omega (arith, size, count),
      Picks-NoDup vs all committee keyed.nodup s.picks s.distinct,
      (λ a member.
          is_some→some (c.active_nodes.entry a)
            (sym (keyed.listed a) ∙ Picks-contains vs all committee a s.picks member)),
      omega (arith, count, length-le_of_distinct (length vs) all s.distinct s.bounded),
    )
