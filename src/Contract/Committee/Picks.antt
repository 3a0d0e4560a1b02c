-- ===== src/Contract/Committee/Picks.antt =====
-- Committees as the active nodes at a list of indices.
use seda_rust.Base.{
  ℕ, zero, suc, true, List, [], ◌∷◌, ◌++◌, ◌≡◌, refl, arith, contains, length, some, get_elem?,
  string_eq, nat_eq,
}
use seda_rust.Contract.Collections.{NoDup}
use seda_rust.Contract.State.{AccountId}

-- The members of a list at some indices.
abbrev pub Picks : List AccountId → List ℕ → List AccountId → Type 0
Picks vs [] [] = Unit
Picks vs [] (a ∷ members) = ⊥
Picks vs (i ∷ indices) [] = ⊥
Picks vs (i ∷ indices) (a ∷ members) = (get_elem? vs i ≡ some a) × Picks vs indices members

pub Picks-append :
    (vs : List AccountId) (indices : List ℕ) (members : List AccountId) (i : ℕ) (a : AccountId)
    → Picks vs indices members
    → get_elem? vs i ≡ some a
    → Picks vs (indices ++ i ∷ []) (members ++ a ∷ [])
Picks-append vs [] [] i a p e = (e, tt)
Picks-append vs [] (b ∷ members) i a p e = absurd p
Picks-append vs (j ∷ indices) [] i a p e = absurd p
Picks-append vs (j ∷ indices) (b ∷ members) i a p e =
    (p.0, Picks-append vs indices members i a p.1 e)

pub length-Picks :
    (vs : List AccountId) (indices : List ℕ) (members : List AccountId)
    → Picks vs indices members
    → length members ≡ length indices
length-Picks vs [] [] p = refl
length-Picks vs [] (b ∷ members) p = absurd p
length-Picks vs (j ∷ indices) [] p = absurd p
length-Picks vs (j ∷ indices) (b ∷ members) p = omega (arith, length-Picks vs indices members p.1)

contains-get_elem? :
    (vs : List AccountId) (i : ℕ) (a : AccountId) → get_elem? vs i ≡ some a → contains vs a ≡ true
contains-get_elem? [] i a e = cc
contains-get_elem? (v ∷ vs) zero a e = ground (arith, string_eq.beq_iff v a)
contains-get_elem? (v ∷ vs) (suc i) a e = ground (arith, contains-get_elem? vs i a e)

-- In a list of distinct members two indices of one member are equal.
get_elem?-distinct :
    (vs : List AccountId) (i j : ℕ) (a : AccountId)
    → NoDup vs
    → get_elem? vs i ≡ some a
    → get_elem? vs j ≡ some a
    → i ≡ j
get_elem?-distinct [] i j a d e f = cc
get_elem?-distinct (v ∷ vs) zero zero a d e f = refl
get_elem?-distinct (v ∷ vs) zero (suc j) a d e f = ground (arith, contains-get_elem? vs j a, d.0)
get_elem?-distinct (v ∷ vs) (suc i) zero a d e f = ground (arith, contains-get_elem? vs i a, d.0)
get_elem?-distinct (v ∷ vs) (suc i) (suc j) a d e f =
    omega (arith, get_elem?-distinct vs i j a d.1 e f)

pub Picks-contains :
    (vs : List AccountId) (indices : List ℕ) (members : List AccountId) (a : AccountId)
    → Picks vs indices members
    → contains members a ≡ true
    → contains vs a ≡ true
Picks-contains vs [] [] a p c = cc
Picks-contains vs [] (b ∷ members) a p c = absurd p
Picks-contains vs (j ∷ indices) [] a p c = absurd p
Picks-contains vs (j ∷ indices) (b ∷ members) a p c = ground (
  arith,
  Picks-contains vs indices members a p.1,
  contains-get_elem? vs j b p.0,
  string_eq.beq_iff b a,
)

-- A member that is picked twice is picked by one index twice.
picked_index :
    (vs : List AccountId) (indices : List ℕ) (members : List AccountId) (i : ℕ) (a : AccountId)
    → NoDup vs
    → Picks vs indices members
    → get_elem? vs i ≡ some a
    → contains members a ≡ true
    → contains indices i ≡ true
picked_index vs [] [] i a d p e c = cc
picked_index vs [] (b ∷ members) i a d p e c = absurd p
picked_index vs (j ∷ indices) [] i a d p e c = absurd p
picked_index vs (j ∷ indices) (b ∷ members) i a d p e c = ground (
  arith,
  picked_index vs indices members i a d p.1 e,
  get_elem?-distinct vs j i a d,
  string_eq.beq_iff b a,
  p.0,
)

pub Picks-NoDup :
    (vs : List AccountId) (indices : List ℕ) (members : List AccountId)
    → NoDup vs
    → Picks vs indices members
    → NoDup indices
    → NoDup members
Picks-NoDup vs [] [] d p n = tt
Picks-NoDup vs [] (b ∷ members) d p n = absurd p
Picks-NoDup vs (j ∷ indices) [] d p n = absurd p
Picks-NoDup vs (j ∷ indices) (b ∷ members) d p n = (
  ground (arith, picked_index vs indices members j b d p.1 p.0, n.0),
  Picks-NoDup vs indices members d p.1 n.1,
)
