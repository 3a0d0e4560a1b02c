-- ===== src/Contract/Merkle.antt =====
-- contracts/src/merkle.rs: the root of a list of texts, by a loop that overwrites one vector of hashes.
pub mod Levels
pub mod Root
pub mod Order
use seda_rust.Base.{
  ℕ, zero, suc, ◌+◌, ◌*◌, ◌/◌, List, [], ◌∷◌, String, leb, ltb, map, length, get_elem?, set,
  if◌then◌else◌,
}
use seda_rust.Contract.State.{Env, CryptoHash}
use seda_rust.Contract.Results.{Result, ok, panic, index_out_of_bounds, out_of_fuel, expect, ◌>>=◌}

-- `slice::sort`, on hashes.
unfoldable pub insert_sorted : ℕ → List ℕ → List ℕ
insert_sorted x [] = x ∷ []
insert_sorted x (y ∷ ys) = if leb x y then x ∷ y ∷ ys else y ∷ insert_sorted x ys

unfoldable pub sort : List ℕ → List ℕ
unfolding insert_sorted
sort [] = []
sort (x ∷ xs) = insert_sorted x (sort xs)

-- `usize::next_power_of_two`, by doubling from 1; `rounds` bounds the doublings.
unfoldable pub double_up : ℕ → ℕ → ℕ → ℕ
double_up zero p n = p
double_up (suc rounds) p n = let rest = double_up rounds (2 * p) n in if leb n p then p else rest

unfoldable pub next_power_of_two : ℕ → ℕ
unfolding double_up
next_power_of_two n = double_up n 1 n

-- `combine_hash`
unfoldable pub combine_hash : Env → CryptoHash → CryptoHash → CryptoHash
combine_hash env hash1 hash2 = env.hash_pair hash1 hash2

-- `hashes[i]`
abbrev pub index : List CryptoHash → ℕ → Result CryptoHash
index hashes i = expect (get_elem? hashes i) index_out_of_bounds

-- One round of the inner loop.
unfoldable pub merge_at : Env → ℕ → ℕ → List CryptoHash → Result (List CryptoHash)
merge_at env arr_len i hashes =
    if leb arr_len (2 * i)
    then ok hashes
    else if leb arr_len (2 * i + 1)
    then (do left ← index hashes (2 * i); ok (set hashes i left))
    else do
      left ← index hashes (2 * i)
      right ← index hashes (2 * i + 1)
      ok (set hashes i (combine_hash env left right))

-- `for i in 0..len`: `rounds` are left.
unfoldable pub merge_level : Env → ℕ → ℕ → ℕ → List CryptoHash → Result (List CryptoHash)
merge_level env arr_len zero i hashes = ok hashes
merge_level env arr_len (suc rounds) i hashes = do
  hashes' ← merge_at env arr_len i hashes
  merge_level env arr_len rounds (i + 1) hashes'

-- `while len > 1`
unfoldable pub merge_levels : ℕ → Env → ℕ → ℕ → List CryptoHash → Result CryptoHash
merge_levels zero env len arr_len hashes = panic out_of_fuel
merge_levels (suc fuel) env len arr_len hashes =
    let rest = (do
      hashes' ← merge_level env arr_len (len / 2) 0 hashes
      merge_levels fuel env (len / 2) ((arr_len + 1) / 2) hashes') in
    if ltb 1 len then rest else index hashes 0

-- `merklize` of hashes that are sorted; its degenerate case is the loop that does not run.
unfoldable pub merklize_hashes : Env → List CryptoHash → Result CryptoHash
merklize_hashes env [] = ok 0
merklize_hashes env (h ∷ hs) =
    let len = next_power_of_two (length (h ∷ hs)) in
    merge_levels (suc len) env len (length (h ∷ hs)) (h ∷ hs)

unfoldable pub merklize : Env → List String → Result CryptoHash
unfolding merklize_hashes sort
merklize env arr = merklize_hashes env (sort (map env.hash_text arr))
