-- ===== src/Contract/Committee/Draws.antt =====
-- Which draws seat a committee, in `select_committee` of contracts/src/committee.rs.
use seda_rust.Base.{
  ℕ, zero, suc, ◌+◌, ◌<◌, true, false, List, [], ◌∷◌, ◌++◌, ◌≡◌, ◌↔◌, refl, subst, arith, contains,
  length, some, get_elem?, Bool-cases, inl, inr, nat_eq, eqb, add_u64,
}
use seda_rust.Contract.State.{Env, AccountId, MainchainContract}
use seda_rust.Contract.Results.{ok, ok-injective, >>=-eq-ok, expect, index_out_of_bounds}
use seda_rust.Contract.Committee.{draw, reroll, fill_seats, select_committee}

module _ (env : Env) (random len base : ℕ) where
  -- The index after `k` further draws for one seat, and the count of rerolls then.
  unfoldable pub nth_draw : ℕ → ℕ → ℕ → ℕ
  nth_draw zero rerolls index = index
  nth_draw (suc k) rerolls index =
      nth_draw k (add_u64 rerolls 1) (draw env random len (add_u64 base (add_u64 rerolls 1)))

-- The count of rerolls after `k` more.
unfoldable pub rerolls_after : ℕ → ℕ → ℕ
rerolls_after zero rerolls = rerolls
rerolls_after (suc k) rerolls = rerolls_after k (add_u64 rerolls 1)

-- The `k`-th further draw is the first that was not chosen before, and is within the limit.
pub record IsFirstFree (env : Env) (random len base limit : ℕ) (chosen : List ℕ)
    (rerolls index k : ℕ) : Type 0 where
  pub within : k < limit
  pub taken :
      (j : ℕ) → j < k → contains chosen (nth_draw env random len base j rerolls index) ≡ true
  pub free : contains chosen (nth_draw env random len base k rerolls index) ≡ false

module _ (env : Env) (random len base : ℕ) (chosen : List ℕ) where
  reroll-IsFirstFree :
      (limit rerolls index : ℕ) (r : ℕ × ℕ)
      → reroll limit env random len base chosen rerolls index ≡ ok r
      → (k : ℕ) × IsFirstFree env random len base limit chosen rerolls index k
        × ((nth_draw env random len base k rerolls index, rerolls_after k rerolls) ≡ r)
  unfolding reroll nth_draw rerolls_after
  reroll-IsFirstFree zero rerolls index r e = cc
  reroll-IsFirstFree (suc limit) rerolls index r e = elim (Bool-cases (contains chosen index)) [
    | inr free ↦ (
      0,
      record { within = omega arith; taken = λ j h. absurd (omega arith); free = free },
      ok-injective (rw free at e),
    )
    | inl now ↦
        let (k, f, same) =
          reroll-IsFirstFree limit (add_u64 rerolls 1)
            (draw env random len (add_u64 base (add_u64 rerolls 1))) r (rw now at e) in
        (
          suc k,
          record { within = omega (arith, f.within); taken = before k now f.taken; free = f.free },
          same,
        )
  ]
    where
      before :
          (k : ℕ)
          → contains chosen index ≡ true
          → ((j : ℕ)
              → j < k
              → contains chosen (
                  nth_draw env random len base j
                    (add_u64 rerolls 1)
                    (draw env random len (add_u64 base (add_u64 rerolls 1))))
                ≡ true)
          → (j : ℕ) → j < suc k
          → contains chosen (nth_draw env random len base j rerolls index) ≡ true
      before k now later zero h = now
      before k now later (suc j) h = later j (omega arith)

  IsFirstFree-reroll :
      (limit rerolls index k : ℕ)
      → IsFirstFree env random len base limit chosen rerolls index k
      → reroll limit env random len base chosen rerolls index
        ≡ ok (nth_draw env random len base k rerolls index, rerolls_after k rerolls)
  unfolding reroll nth_draw rerolls_after
  IsFirstFree-reroll zero rerolls index k f = absurd (omega (arith, f.within))
  IsFirstFree-reroll (suc limit) rerolls index zero f = rw f.free refl
  IsFirstFree-reroll (suc limit) rerolls index (suc k) f =
      let now : contains chosen index ≡ true = f.taken 0 (omega arith) in
      rw now (
        IsFirstFree-reroll limit (add_u64 rerolls 1) _ k (record {
          within = omega (arith, f.within);
          taken = λ j h. f.taken (suc j) (omega arith);
          free = f.free;
        }))

-- The draws of the seats that are left, `i` being taken, seat these members after those before: each
-- seat goes to the validator at the first index, of those drawn for it, that no seat before has.
pub data Elects (env : Env) (random : ℕ) (vs : List AccountId) (size : ℕ)
    : ℕ → ℕ → ℕ → List ℕ → List AccountId → List AccountId → Type 0 where
  seated :
      (i rerolls : ℕ) (chosen : List ℕ) (committee : List AccountId)
      → Elects env random vs size 0 i rerolls chosen committee committee
  elects :
      (seats i rerolls : ℕ) (chosen : List ℕ) (committee out : List AccountId) (k : ℕ)
      (a : AccountId)
      → IsFirstFree env random
          (length vs)
          (add_u64 i size)
          env.reroll_limit
          chosen
          rerolls
          (draw env random (length vs) i)
          k
      → get_elem? vs (
          nth_draw env random
            (length vs)
            (add_u64 i size)
            k
            rerolls
            (draw env random (length vs) i))
        ≡ some a
      → Elects env random vs size seats
          (i + 1)
          (rerolls_after k rerolls)
          (chosen
            ++ nth_draw env random
                (length vs)
                (add_u64 i size)
                k
                rerolls
                (draw env random (length vs) i)
              ∷ [])
          (committee ++ a ∷ [])
          out
      → Elects env random vs size (suc seats) i rerolls chosen committee out

nonempty :
    (vs : List AccountId) (i : ℕ) (a : AccountId)
    → get_elem? vs i ≡ some a
    → eqb (length vs) 0 ≡ false
nonempty [] i a h = cc
nonempty (v ∷ vs) i a h = ground arith

module _ (env : Env) (random : ℕ) (vs : List AccountId) (size : ℕ) where
  fill_seats-Elects :
      (seats i rerolls : ℕ) (chosen : List ℕ) (committee out : List AccountId)
      → fill_seats env random vs size seats i rerolls chosen committee ≡ ok out
      → Elects env random vs size seats i rerolls chosen committee out
  unfolding fill_seats
  fill_seats-Elects zero i rerolls chosen committee out e =
      subst (Elects env random vs size 0 i rerolls chosen committee) (ok-injective e)
        (seated i rerolls chosen committee)
  fill_seats-Elects (suc seats) i rerolls chosen committee out e =
      elim (Bool-cases (eqb (length vs) 0)) [
        | inl nobody ↦ absurd (cc (rw nobody at e))
        | inr somebody ↦
            let first = draw env random (length vs) i in
            let (r, drawn, rest) =
              >>=-eq-ok
                (reroll env.reroll_limit env random (length vs) (add_u64 i size) chosen rerolls
                  first)
                _ (rw somebody at e) in
            let (k, f, same) =
              reroll-IsFirstFree env random (length vs) (add_u64 i size) chosen env.reroll_limit
                rerolls first r drawn in
            let rest' = rw (← same) at rest in
            let (a, there, more) =
              >>=-eq-ok (expect (get_elem? vs _) index_out_of_bounds) _ rest' in
            elects seats i rerolls chosen committee out k a f (ground arith) (
              fill_seats-Elects seats (i + 1) (rerolls_after k rerolls) _ (committee ++ a ∷ []) out
                more)
      ]

  Elects-fill_seats :
      (seats i rerolls : ℕ) (chosen : List ℕ) (committee out : List AccountId)
      → Elects env random vs size seats i rerolls chosen committee out
      → fill_seats env random vs size seats i rerolls chosen committee ≡ ok out
  unfolding fill_seats
  Elects-fill_seats _ _ _ _ _ _ (seated i rerolls chosen committee) = refl
  Elects-fill_seats _ _ _ _ _ _ (elects seats i rerolls chosen committee out k a f there rest) =
      rw
        (
          nonempty vs _ a there,
          IsFirstFree-reroll env random (length vs) (add_u64 i size) chosen env.reroll_limit rerolls
              (draw env random (length vs) i) k f,
          there,
        )
        (Elects-fill_seats seats (i + 1) (rerolls_after k rerolls) _ (committee ++ a ∷ []) out rest)

-- Selecting a committee succeeds exactly when the draws elect one: for every seat some draw within the
-- limit comes to an index that no seat before has, and the first such index gives the member. The count
-- of rerolls goes on from seat to seat.
pub select_committee_iff :
    (env : Env) (random : ℕ) (c : MainchainContract) (committee : List AccountId)
    → (select_committee env random c ≡ ok committee)
      ↔ Elects env random c.active_nodes.keys c.config.committee_size c.config.committee_size 0 0 []
          [] committee
unfolding select_committee
select_committee_iff env random c committee = (
  fill_seats-Elects env random c.active_nodes.keys c.config.committee_size _ 0 0 [] [] committee,
  Elects-fill_seats env random c.active_nodes.keys c.config.committee_size _ 0 0 [] [] committee,
)
