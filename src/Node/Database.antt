-- ===== src/Node/Database.antt =====
-- node/src/host/db_get.rs, db_set.rs and the table of node/src/host/mod.rs: the database of a node.
-- SQLite is the rows of the table; `scan` is the order in which a query without ORDER BY comes to them,
-- which SQLite leaves open, and `fails` says when it gives an error, whose text is left out.
use seda_rust.Base.{
  ◌≡◌, refl, sym, ◌∙◌, arith, ◌&&◌, ◌||◌, true, none, Bool, false, Option, some, List, [], ◌∷◌,
  ◌++◌, String, ◌==◌, string_eq, if◌then◌else◌, Bool-cases, inl, inr,
}
use seda_rust.Runtime.Promises.{HostResult, ok, err}

pub record Row : Type 0 where
  pub key : String
  pub value : String

abbrev pub Table : Type 0
Table = List Row

module _ (fails : Table → Bool) where
  -- `INSERT INTO data`; the table has no unique key.
  unfoldable pub db_set : String → String → Table → HostResult (Unit {0}) × Table
  db_set key value data_ =
      if fails data_
      then (err "", data_)
      else (ok tt, data_ ++ record { key = key; value = value } ∷ [])

  -- The table after some sets.
  unfoldable pub set_all : List (String × String) → Table → Table
  unfolding db_set
  set_all [] data_ = data_
  set_all ((key, value) ∷ sets) data_ = set_all sets (db_set key value data_).1

module _ (fails : Table → Bool) (scan : Table → Table) where
  -- The first of the rows that the query comes to, or an error.
  first_row : String → List Row → HostResult (Option String)
  first_row key [] = err "Query returned no rows"
  first_row key (row ∷ rows) = if row.key == key then ok (some row.value) else first_row key rows

  -- `SELECT value FROM data WHERE key = ?1`, of which `query_row` takes the first row, or gives an error.
  unfoldable pub query_row : String → Table → HostResult (Option String)
  unfolding first_row
  query_row key data_ = first_row key (scan data_)

  unfoldable pub db_get : String → Table → HostResult (Option String)
  unfolding query_row
  db_get key data_ = if fails data_ then err "" else query_row key data_

abbrev pub any : {A : Type 0} → (A → Bool) → List A → Bool
any f [] = false
any f (x ∷ xs) = f x || any f xs

-- Whatever its order, a query comes to the rows of the table and no others.
pub record IsScan (scan : Table → Table) : Type 0 where
  pub same_rows : (f : Row → Bool) (t : Table) → any f (scan t) ≡ any f t

abbrev pub sets_key : String → String × String → Bool
sets_key key set = set.0 == key

abbrev pub sets_to : String → String → String × String → Bool
sets_to key value set = (set.0 == key) && (set.1 == value)

-- What a key may read as after some sets: one of the values that were set for it, or, when it was not
-- set, an error.
abbrev pub Reads : List (String × String) → String → HostResult (Option String) → Type 0
Reads sets key (ok none) = ⊥
Reads sets key (ok (some value)) = any (sets_to key value) sets ≡ true
Reads sets key (err e) = any (sets_key key) sets ≡ false

pub any-append :
    {A : Type 0} (f : A → Bool) (xs ys : List A) → any f (xs ++ ys) ≡ any f xs || any f ys
any-append f [] ys = refl
any-append f (x ∷ xs) ys = ground (arith, any-append f xs ys)

abbrev row_of : String × String → Row
row_of (key, value) = record { key = key; value = value }

any-set_all :
    (f : Row → Bool) (sets : List (String × String)) (t : Table)
    → any f (set_all (λ t. false) sets t) ≡ any f t || any (λ set. f (row_of set)) sets
unfolding set_all db_set
any-set_all f [] t = ground arith
any-set_all f ((key, value) ∷ sets) t = ground (
  arith,
  any-set_all f sets (t ++ record { key = key; value = value } ∷ []),
  any-append f t (record { key = key; value = value } ∷ []),
)

-- What the first row shows of all the rows.
Found : String → List Row → HostResult (Option String) → Type 0
Found key rows (ok none) = ⊥
Found key rows (ok (some value)) = any (λ row. (row.key == key) && (row.value == value)) rows ≡ true
Found key rows (err e) = any (λ row. row.key == key) rows ≡ false

first_row-Found :
    (fails : Table → Bool) (scan : Table → Table) (key : String) (rows : List Row)
    → Found key rows (first_row fails scan key rows)
unfolding first_row Found
first_row-Found fails scan key [] = refl
first_row-Found fails scan key (row ∷ rows) = elim (Bool-cases (row.key == key)) [
  | inl same ↦ rw same (ground (arith, string_eq.beq_iff row.value row.value))
  | inr other ↦ rw other (
      later row.key row.value rows other (first_row fails scan key rows)
        (first_row-Found fails scan key rows))
]
  where
    later :
        (k v : String) (rows : List Row)
        → (k == key) ≡ false
        → (r : HostResult (Option String)) → Found key rows r
        → Found key (record { key = k; value = v } ∷ rows) r
    later k v rows other (ok none) h = h
    later k v rows other (ok (some value)) h = ground arith
    later k v rows other (err e) h = ground arith

Found-Reads :
    (scan : Table → Table)
    → IsScan scan
    → (sets : List (String × String)) (key : String) (r : HostResult (Option String))
    → Found key (scan (set_all (λ t. false) sets [])) r
    → Reads sets key r
unfolding Found
Found-Reads scan same sets key (ok none) h = h
Found-Reads scan same sets key (ok (some value)) h =
    let f = λ (row : Row). (row.key == key) && (row.value == value) in
    sym (any-set_all f sets []) ∙ sym (same.same_rows f (set_all (λ t. false) sets [])) ∙ h
Found-Reads scan same sets key (err e) h =
    let f = λ (row : Row). row.key == key in
    sym (any-set_all f sets []) ∙ sym (same.same_rows f (set_all (λ t. false) sets [])) ∙ h

-- After any sets, when nothing fails and whatever the order of the rows, a key that was set reads as
-- one of the values that were set for it, and a key that was not set as an error, never as no value.
pub db_get-set_all :
    (scan : Table → Table)
    → IsScan scan
    → (sets : List (String × String)) (key : String)
    → Reads sets key (db_get (λ t. false) scan key (set_all (λ t. false) sets []))
unfolding db_get query_row
db_get-set_all scan same sets key =
    let t = set_all (λ t. false) sets [] in
    Found-Reads scan same sets key (first_row (λ t. false) scan key (scan t))
      (first_row-Found (λ t. false) scan key (scan t))
