-- ===== src/Contract/Merkle/Root.antt =====
-- `merklize` of contracts/src/merkle.rs: its root is that of the tree built level by level.
use native.Mathlib.Nat.{pow-suc}
use seda_rust.Base.{
  ℕ, zero, suc, ◌+◌, ◌*◌, ◌/◌, ◌^◌, ◌≤◌, ◌<◌, ◌≡◌, refl, ap, ◌∙◌, arith, true, List, [], ◌∷◌, ◌++◌,
  String, leb, ltb, map, length, lt→ltb, Bool-cases, inl, inr, leb→le,
}
use seda_rust.Contract.State.{Env, CryptoHash}
use seda_rust.Contract.Results.{Result, ok}
use seda_rust.Contract.Merkle.{
  merge_level, merge_levels, next_power_of_two, double_up, merklize_hashes, merklize, sort,
  insert_sorted,
}
use seda_rust.Contract.Merkle.Levels.{pair_up, pair_ups, length-pair_up, Merged, merge_level-Merged}

-- The root of the levels above some hashes.
abbrev Roots : Env → ℕ → List CryptoHash → Result CryptoHash → Type 0
Roots env levels hashes r =
    (root : CryptoHash) × (r ≡ ok root) × (pair_ups env levels hashes ≡ root ∷ [])

power_pos : (k : ℕ) → 1 ≤ 2 ^ k
power_pos zero = omega arith
power_pos (suc k) = omega (arith, pow-suc 2 k, power_pos k)

-- The first round of the loop, once its level is merged.
merge_levels-suc :
    (env : Env) (levels fuel : ℕ) (hashes junk junk' : List CryptoHash)
    → merge_level env (length hashes) (2 ^ levels) 0 (hashes ++ junk)
      ≡ ok (pair_up env hashes ++ junk')
    → merge_levels (suc fuel) env (2 ^ suc levels) (length hashes) (hashes ++ junk)
      ≡ merge_levels fuel env
          (2 ^ levels)
          (length (pair_up env hashes))
          (pair_up env hashes ++ junk')
unfolding merge_levels
merge_levels-suc env levels fuel hashes junk junk' merged =
    let half : 2 ^ suc levels / 2 ≡ 2 ^ levels = omega (arith, pow-suc 2 levels) in
    let big : ltb 1 (2 ^ suc levels) ≡ true =
      lt→ltb 1 (2 ^ suc levels) (omega (arith, pow-suc 2 levels, power_pos levels)) in
    rw (big, half, merged, length-pair_up env hashes) refl

merge_levels-Roots :
    (env : Env) (levels fuel : ℕ) (hashes junk : List CryptoHash)
    → levels < fuel
    → 1 ≤ length hashes
    → length hashes ≤ 2 ^ levels
    → Roots env levels hashes (merge_levels fuel env (2 ^ levels) (length hashes) (hashes ++ junk))
unfolding merge_levels pair_ups Merged
merge_levels-Roots env levels zero hashes junk paid one fits = absurd (omega arith)
merge_levels-Roots env zero (suc fuel) [] junk paid one fits = absurd (omega arith)
merge_levels-Roots env zero (suc fuel) (h ∷ []) junk paid one fits = (h, refl, refl)
merge_levels-Roots env zero (suc fuel) (h ∷ g ∷ hashes) junk paid one fits = absurd (omega arith)
merge_levels-Roots env (suc levels) (suc fuel) hashes junk paid one fits =
    let (junk', merged) =
      merge_level-Merged env (length hashes) (2 ^ levels) [] [] hashes junk refl (omega arith)
        (omega (arith, pow-suc 2 levels)) in
    let size = length-pair_up env hashes in
    let (root, found, up) =
      merge_levels-Roots env levels fuel (pair_up env hashes) junk' (omega arith)
        (omega (arith, size)) (omega (arith, size, pow-suc 2 levels)) in
    (root, merge_levels-suc env levels fuel hashes junk junk' merged ∙ found, up)

power_of_two :
    (rounds j n : ℕ)
    → n ≤ 2 ^ j + rounds
    → (k : ℕ) × (double_up rounds (2 ^ j) n ≡ 2 ^ k) × (n ≤ 2 ^ k)
unfolding double_up
power_of_two zero j n h = (j, refl, omega arith)
power_of_two (suc rounds) j n h = elim (Bool-cases (leb n (2 ^ j))) [
  | inl enough ↦ (j, rw (enough) refl, leb→le n (2 ^ j) enough)
  | inr more ↦
      let twice : 2 * 2 ^ j ≡ 2 ^ suc j = omega (arith, pow-suc 2 j) in
      let (k, found, fits) = power_of_two rounds (suc j) n (omega (arith, twice, power_pos j)) in
      (k, rw (more, twice) found, fits)
]

le_power : (k : ℕ) → k ≤ 2 ^ k
le_power zero = omega arith
le_power (suc k) = omega (arith, pow-suc 2 k, power_pos k, le_power k)

length-insert_sorted : (x : ℕ) (ys : List ℕ) → length (insert_sorted x ys) ≡ suc (length ys)
unfolding insert_sorted
length-insert_sorted x [] = refl
length-insert_sorted x (y ∷ ys) = ground (arith, length-insert_sorted x ys)

next_power_of_two-le : (n : ℕ) → (k : ℕ) × (next_power_of_two n ≡ 2 ^ k) × (n ≤ 2 ^ k)
unfolding next_power_of_two
next_power_of_two-le n = power_of_two n 0 n (omega arith)

append_nil : (xs : List ℕ) → xs ++ [] ≡ xs
append_nil [] = refl
append_nil (x ∷ xs) = ap (λ l. x ∷ l) (append_nil xs)

merklize_hashes-merge_levels :
    (env : Env) (levels h : ℕ) (hs : List CryptoHash) (root : CryptoHash)
    → next_power_of_two (length (h ∷ hs)) ≡ 2 ^ levels
    → merge_levels (suc (2 ^ levels)) env (2 ^ levels) (length (h ∷ hs)) ((h ∷ hs) ++ []) ≡ ok root
    → merklize_hashes env (h ∷ hs) ≡ ok root
unfolding merklize_hashes
merklize_hashes-merge_levels env levels h hs root power found =
    rw (power) (rw (append_nil hs) at found)

merklize_hashes-Roots :
    (env : Env) (hashes : List CryptoHash)
    → 1 ≤ length hashes
    → (levels : ℕ) × Roots env levels hashes (merklize_hashes env hashes)
merklize_hashes-Roots env [] one = absurd (omega arith)
merklize_hashes-Roots env (h ∷ hs) one =
    let (levels, power, fits) = next_power_of_two-le (length (h ∷ hs)) in
    let (root, found, up) =
      merge_levels-Roots env levels (suc (2 ^ levels)) (h ∷ hs) [] (omega (arith, le_power levels))
        (omega arith) fits in
    (levels, (root, merklize_hashes-merge_levels env levels h hs root power found, up))

-- The root of one text or more is always computed: no index is out of bounds and the rounds are enough.
-- It is the single hash that is left when the sorted hashes are combined pair by pair, level by level.
pub merklize-pair_ups :
    (env : Env) (text : String) (texts : List String)
    → (levels : ℕ) × (root : CryptoHash) × (merklize env (text ∷ texts) ≡ ok root)
      × (pair_ups env levels (sort (map env.hash_text (text ∷ texts))) ≡ root ∷ [])
unfolding merklize sort
merklize-pair_ups env text texts =
    let (levels, (root, found, up)) =
      merklize_hashes-Roots env (sort (map env.hash_text (text ∷ texts))) (
        omega
          (arith, length-insert_sorted (env.hash_text text) (sort (map env.hash_text texts)))) in
    (levels, root, found, up)
