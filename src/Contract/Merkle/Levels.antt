-- ===== src/Contract/Merkle/Levels.antt =====
-- The in-place loop of contracts/src/merkle.rs against a tree built level by level.
use seda_rust.Base.{
  ℕ, zero, suc, ◌+◌, ◌*◌, ◌/◌, ◌≤◌, ◌<◌, ◌≡◌, refl, sym, ap, ◌∙◌, arith, some, List, [], ◌∷◌, ◌++◌,
  length, get_elem?, set, length-append, le→leb, lt→leb,
}
use seda_rust.Contract.State.{Env, CryptoHash}
use seda_rust.Contract.Results.{ok}
use seda_rust.Contract.Merkle.{combine_hash, merge_at, merge_level}

-- One level of the tree: neighbours are combined, and a last hash without a neighbour goes up as it is.
unfoldable pub pair_up : Env → List CryptoHash → List CryptoHash
pair_up env [] = []
pair_up env (x ∷ []) = x ∷ []
pair_up env (x ∷ y ∷ rest) = combine_hash env x y ∷ pair_up env rest

unfoldable pub pair_ups : Env → ℕ → List CryptoHash → List CryptoHash
pair_ups env zero hashes = hashes
pair_ups env (suc levels) hashes = pair_ups env levels (pair_up env hashes)

append_assoc : (xs ys zs : List ℕ) → (xs ++ ys) ++ zs ≡ xs ++ (ys ++ zs)
append_assoc [] ys zs = refl
append_assoc (x ∷ xs) ys zs = ap (λ l. x ∷ l) (append_assoc xs ys zs)

get_elem?-append :
    (before after : List ℕ) (x : ℕ) → get_elem? (before ++ x ∷ after) (length before) ≡ some x
get_elem?-append [] after x = refl
get_elem?-append (y ∷ before) after x = get_elem?-append before after x

set-append :
    (before after : List ℕ) (x v : ℕ)
    → set (before ++ x ∷ after) (length before) v ≡ before ++ v ∷ after
set-append [] after x v = refl
set-append (y ∷ before) after x v = ap (λ l. y ∷ l) (set-append before after x v)

-- Reading past what is done and the gap, which is as long.
read_at :
    (before gap after : List ℕ) (x : ℕ)
    → length gap ≡ length before
    → get_elem? (before ++ (gap ++ x ∷ after)) (2 * length before) ≡ some x
read_at before gap after x even =
    let place : length (before ++ gap) ≡ 2 * length before =
      omega (arith, length-append before gap) in
    rw (← place, ← append_assoc before gap (x ∷ after)) (get_elem?-append (before ++ gap) after x)

read_next :
    (before gap after : List ℕ) (x y : ℕ)
    → length gap ≡ length before
    → get_elem? (before ++ (gap ++ x ∷ y ∷ after)) (2 * length before + 1) ≡ some y
read_next before gap after x y even =
    let passed = (before ++ gap) ++ x ∷ [] in
    let place : length passed ≡ 2 * length before + 1 =
      omega (arith, length-append (before ++ gap) (x ∷ []), length-append before gap) in
    rw
      (
        ← place,
        ← append_assoc before gap (x ∷ y ∷ after),
        ← append_assoc (before ++ gap) (x ∷ []) (y ∷ after),
      )
      (get_elem?-append passed after y)

-- A gap and the hashes after it, less the first of them all.
shift_one : (gap rest : List ℕ) (x : ℕ) → (r : ℕ) × (rest' : List ℕ) × (gap ++ x ∷ rest ≡ r ∷ rest')
shift_one [] rest x = (x, rest, refl)
shift_one (g ∷ gap) rest x = (g, gap ++ x ∷ rest, refl)

shift_two :
    (gap rest : List ℕ) (x y : ℕ)
    → (r : ℕ) × (gap' : List ℕ) × (gap ++ x ∷ y ∷ rest ≡ r ∷ (gap' ++ rest))
      × (length gap' ≡ suc (length gap))
shift_two [] rest x y = (x, y ∷ [], refl, refl)
shift_two (g ∷ gap) rest x y = (
  g,
  gap ++ x ∷ y ∷ [],
  ap (λ l. g ∷ l) (sym (append_assoc gap (x ∷ y ∷ []) rest)),
  omega (arith, length-append gap (x ∷ y ∷ [])),
)

merge_level-past :
    (env : Env) (arr_len rounds i : ℕ) (hashes : List ℕ)
    → arr_len ≤ 2 * i
    → merge_level env arr_len rounds i hashes ≡ ok hashes
unfolding merge_level merge_at
merge_level-past env arr_len zero i hashes past = refl
merge_level-past env arr_len (suc rounds) i hashes past =
    rw (le→leb arr_len (2 * i) past)
      (merge_level-past env arr_len rounds (i + 1) hashes (omega arith))

pub length-pair_up :
    (env : Env) (hashes : List ℕ) → length (pair_up env hashes) ≡ (length hashes + 1) / 2
unfolding pair_up
length-pair_up env [] = omega arith
length-pair_up env (x ∷ []) = omega arith
length-pair_up env (x ∷ y ∷ rest) = omega (arith, length-pair_up env rest)

module _ (env : Env) (arr_len : ℕ) where
  -- A level, from the hash `i` on: `before` is done, `gap` was read, `todo` is to come.
  unfoldable pub Merged : ℕ → ℕ → List ℕ → List ℕ → List ℕ → Type 0
  Merged rounds i before todo hashes =
      (junk : List ℕ) × (merge_level env arr_len rounds i hashes
        ≡ ok (before ++ (pair_up env todo ++ junk)))

  merge_level-one :
      (rounds : ℕ) (before gap junk : List ℕ) (x : ℕ)
      → length gap ≡ length before
      → 2 * length before + 1 ≡ arr_len
      → Merged (suc rounds) (length before) before (x ∷ []) (before ++ (gap ++ x ∷ junk))
  unfolding merge_level merge_at pair_up Merged
  merge_level-one rounds before gap junk x even all =
      let i = length before in
      let (r, junk', same) = shift_one gap junk x in
      let found : get_elem? (before ++ (gap ++ x ∷ junk)) (2 * i) ≡ some x =
        read_at before gap junk x even in
      let written : set (before ++ (gap ++ x ∷ junk)) i x ≡ before ++ x ∷ junk' =
        ap (λ l. set (before ++ l) i x) same ∙ set-append before junk' r x in
      (
        junk',
        rw
            (
              lt→leb arr_len (2 * i) (omega arith),
              le→leb arr_len (2 * i + 1) (omega arith),
              found,
              written,
            )
            (merge_level-past env arr_len rounds (i + 1) (before ++ x ∷ junk') (omega arith)),
      )

  -- Two hashes are combined into the place after what is done.
  merge_at-pair :
      (before gap after gap' : List ℕ) (x y r : ℕ)
      → length gap ≡ length before
      → 2 * length before + 1 < arr_len
      → gap ++ x ∷ y ∷ after ≡ r ∷ (gap' ++ after)
      → merge_at env arr_len (length before) (before ++ (gap ++ x ∷ y ∷ after))
        ≡ ok ((before ++ combine_hash env x y ∷ []) ++ (gap' ++ after))
  unfolding merge_at
  merge_at-pair before gap after gap' x y r even more same =
      let i = length before in
      let v = combine_hash env x y in
      let written : set (before ++ (gap ++ x ∷ y ∷ after)) i v ≡ before ++ v ∷ (gap' ++ after) =
        ap (λ l. set (before ++ l) i v) same ∙ set-append before (gap' ++ after) r v in
      rw
        (
          lt→leb arr_len (2 * i) (omega arith),
          lt→leb arr_len (2 * i + 1) (omega arith),
          read_at before gap (y ∷ after) x even,
          read_next before gap after x y even,
          written,
        )
        (ap ok (sym (append_assoc before (v ∷ []) (gap' ++ after))))

  pub merge_level-Merged :
      (rounds : ℕ) (before gap todo junk : List ℕ)
      → length gap ≡ length before
      → 2 * length before + length todo ≡ arr_len
      → length todo ≤ 2 * rounds
      → Merged rounds (length before) before todo (before ++ (gap ++ (todo ++ junk)))
  unfolding Merged pair_up merge_level
  merge_level-Merged zero before gap [] junk even all enough =
      (gap ++ junk, merge_level-past env arr_len zero (length before) _ (omega arith))
  merge_level-Merged zero before gap (x ∷ todo) junk even all enough = absurd (omega arith)
  merge_level-Merged (suc rounds) before gap [] junk even all enough =
      (gap ++ junk, merge_level-past env arr_len (suc rounds) (length before) _ (omega arith))
  merge_level-Merged (suc rounds) before gap (x ∷ []) junk even all enough =
      merge_level-one rounds before gap junk x even (omega arith)
  merge_level-Merged (suc rounds) before gap (x ∷ y ∷ todo) junk even all enough =
      let v = combine_hash env x y in
      let longer : length (before ++ v ∷ []) ≡ length before + 1 =
        omega (arith, length-append before (v ∷ [])) in
      let (r, gap', same, size) = shift_two gap (todo ++ junk) x y in
      let (junk', rest) =
        merge_level-Merged rounds (before ++ v ∷ []) gap' todo junk (omega (arith, size, even))
          (omega (arith, all)) (omega (arith, enough)) in
      (
        junk',
        rw (merge_at-pair before gap (todo ++ junk) gap' x y r even (omega (arith, all)) same) (
            rw (← longer)
              (rest ∙ ap ok (append_assoc before (v ∷ []) (pair_up env todo ++ junk')))),
      )
