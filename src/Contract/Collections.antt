-- ===== src/Contract/Collections.antt =====
-- near_sdk::collections, as contracts/src uses them. A `LookupMap` is the function from keys to
-- entries; an `UnorderedMap` also has an order of its keys: a new key goes to the end, and the order
-- that a removal leaves is an argument, `reorder`, since the library chooses it.
use seda_rust.Base.{
  false, Option, none, List, [], ◌∷◌, ◌++◌, ◌≡◌, Eq, ◌==◌, contains, put, delete, is_some,
  if◌then◌else◌, refl, arith, Bool-cases, inl, inr, ◌∙◌,
}
pub use seda_rust.Base.{NoDup, contains-append, NoDup-append}

abbrev pub LookupMap : Type 0 → Type 0 → Type 0
LookupMap K V = K → Option V

pub record UnorderedMap (K V : Type 0) : Type 0 where
  pub entry : K → Option V
  pub keys : List K

-- What near_sdk documents of a removal: the other keys stay, in some order, each once.
pub record IsRemoval {K : Type 0} ⦃e : Eq K⦄ (reorder : List K → K → List K) : Type 0 where
  pub contains_removed :
      (ks : List K) (k j : K)
      → NoDup ks
      → contains (reorder ks k) j ≡ (if k == j then false else contains ks j)
  pub nodup_removed : (ks : List K) (k : K) → NoDup ks → NoDup (reorder ks k)

module _ {K V : Type 0} ⦃e : Eq K⦄ where
  abbrev pub empty : UnorderedMap K V
  empty = record { entry = λ k. none; keys = [] }

  abbrev pub insert : UnorderedMap K V → K → V → UnorderedMap K V
  insert m k v = record {
    entry = put m.entry k v;
    keys = if is_some (m.entry k) then m.keys else m.keys ++ k ∷ [];
  }

  abbrev pub remove : (List K → K → List K) → UnorderedMap K V → K → UnorderedMap K V
  remove reorder m k = record { entry = delete m.entry k; keys = reorder m.keys k }

  -- The keys are those with an entry, each once.
  pub record IsKeyed (m : UnorderedMap K V) : Type 0 where
    pub listed : (k : K) → contains m.keys k ≡ is_some (m.entry k)
    pub nodup : NoDup m.keys

module _ {K V : Type 0} ⦃e : Eq K⦄ where
  pub empty-IsKeyed : IsKeyed (empty {K = K} {V = V})
  empty-IsKeyed = record { listed = λ k. refl; nodup = tt }

  pub insert-IsKeyed : (m : UnorderedMap K V) (k : K) (v : V) → IsKeyed m → IsKeyed (insert m k v)
  insert-IsKeyed m k v h = record {
    listed = λ j. ground (arith, h.listed j, h.listed k, contains-append m.keys k j, e.beq_iff k j);
    nodup = elim (Bool-cases (is_some (m.entry k))) [
      | inl old ↦ rw old h.nodup
      | inr new ↦ rw new (NoDup-append m.keys k h.nodup (h.listed k ∙ new))
    ];
  }

  pub remove-IsKeyed :
      (reorder : List K → K → List K) (m : UnorderedMap K V) (k : K)
      → IsRemoval reorder
      → IsKeyed m
      → IsKeyed (remove reorder m k)
  remove-IsKeyed reorder m k r h = record {
    listed = λ j. ground (arith, r.contains_removed m.keys k j h.nodup, h.listed j);
    nodup = r.nodup_removed m.keys k h.nodup;
  }

-- A removal that keeps the order: it shows that the assumption can be met.
module _ {K : Type 0} ⦃e : Eq K⦄ where
  abbrev pub erase : List K → K → List K
  erase [] k = []
  erase (j ∷ js) k = if k == j then js else j ∷ erase js k

  pub contains-erase :
      (ks : List K) (k j : K)
      → NoDup ks
      → contains (erase ks k) j ≡ (if k == j then false else contains ks j)
  contains-erase [] k j h = ground arith
  contains-erase (i ∷ ks) k j h = ground (
    arith,
    contains-erase ks k j h.1,
    e.beq_iff i j,
    e.beq_iff k j,
    e.beq_iff k i,
    e.beq_iff j i,
    h.0,
  )

  pub NoDup-erase : (ks : List K) (k : K) → NoDup ks → NoDup (erase ks k)
  NoDup-erase [] k h = tt
  NoDup-erase (i ∷ ks) k h = elim (Bool-cases (k == i)) [
    | inl same ↦ rw same h.1
    | inr other ↦ rw other (rw (contains-erase ks k i h.1, other) h.0, NoDup-erase ks k h.1)
  ]

  pub erase-IsRemoval : IsRemoval erase
  erase-IsRemoval = record { contains_removed = contains-erase; nodup_removed = NoDup-erase }
