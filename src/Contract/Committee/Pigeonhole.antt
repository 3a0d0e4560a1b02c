-- ===== src/Contract/Committee/Pigeonhole.antt =====
-- Lists of distinct numbers below a bound, for the indices of contracts/src/committee.rs.
use seda_rust.Base.{
  ℕ, zero, suc, ◌+◌, ◌≤◌, ◌<◌, true, List, [], ◌∷◌, ◌≡◌, ◌≢◌, refl, arith, nat_eq, contains, length,
  string_eq,
}
use seda_rust.Contract.Collections.{NoDup, erase, contains-erase, NoDup-erase}

length-erase : (ks : List ℕ) (k : ℕ) → length ks ≤ length (erase ks k) + 1
length-erase [] k = omega arith
length-erase (j ∷ ks) k = ground (arith, length-erase ks k)

length-erase_mem :
    (ks : List ℕ) (k : ℕ) → contains ks k ≡ true → length ks ≡ length (erase ks k) + 1
length-erase_mem [] k h = cc
length-erase_mem (j ∷ ks) k h = ground (arith, length-erase_mem ks k)

contains-erase_ne : (ks : List ℕ) (k j : ℕ) → k ≢ j → contains (erase ks k) j ≡ contains ks j
contains-erase_ne [] k j h = refl
contains-erase_ne (i ∷ ks) k j h = ground (arith, contains-erase_ne ks k j h)

-- Distinct numbers below `n` are at most `n`.
pub length-le_of_distinct :
    (n : ℕ) (ks : List ℕ) → NoDup ks → ((k : ℕ) → contains ks k ≡ true → k < n) → length ks ≤ n
length-le_of_distinct zero [] d h = omega arith
length-le_of_distinct zero (k ∷ ks) d h =
    absurd (let impossible : k < 0 = h k (ground arith) in omega arith)
length-le_of_distinct (suc n) ks d h =
    let shorter =
      length-le_of_distinct n (erase ks n) (NoDup-erase ks n d)
        (λ k c. ground (arith, contains-erase ks n k d, h k)) in
    omega (arith, shorter, length-erase ks n)
