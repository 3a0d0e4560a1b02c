-- ===== src/Contract/Merkle/Order.antt =====
-- The order of the requests and the root of contracts/src/merkle.rs.
use seda_rust.Base.{ℕ, ◌≡◌, ap, arith, List, [], ◌∷◌, ◌++◌, String, map}
use seda_rust.Contract.State.{Env}
use seda_rust.Contract.Merkle.{insert_sorted, sort, merklize, merklize_hashes}

insert_sorted_comm :
    (x y : ℕ) (zs : List ℕ)
    → insert_sorted x (insert_sorted y zs) ≡ insert_sorted y (insert_sorted x zs)
unfolding insert_sorted
insert_sorted_comm x y [] = ground arith
insert_sorted_comm x y (z ∷ zs) = ground (arith, insert_sorted_comm x y zs)

sort-swap :
    (env : Env) (before after : List String) (a b : String)
    → sort (map env.hash_text (before ++ a ∷ b ∷ after))
      ≡ sort (map env.hash_text (before ++ b ∷ a ∷ after))
unfolding sort
sort-swap env [] after a b = insert_sorted_comm (env.hash_text a) (env.hash_text b) _
sort-swap env (t ∷ before) after a b =
    ap (insert_sorted (env.hash_text t)) (sort-swap env before after a b)

-- The root does not depend on the order of the texts: exchanging two neighbours leaves it as it is.
merklize-swap :
    (env : Env) (before after : List String) (a b : String)
    → merklize env (before ++ a ∷ b ∷ after) ≡ merklize env (before ++ b ∷ a ∷ after)
unfolding merklize
merklize-swap env before after a b = ap (merklize_hashes env) (sort-swap env before after a b)
