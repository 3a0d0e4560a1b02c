-- ===== src/Base/Keys.antt =====
-- Keys with a Boolean equality, and maps from keys.
-- A `LookupMap` is read only by key, so it is the function that it stores.
use Prim.Native.Nat.{ℕ}
use Prim.Native.String.{String}
use mathlib.Core.Path.{◌≡◌, refl}
use mathlib.Core.Logic.{◌↔◌, ◌≢◌, inl, inr}
use mathlib.Core.Bool.{Bool, true, false, ◌&&◌, ◌||◌}
use mathlib.Core.Option.{Option, none, some}
use mathlib.Core.List.{List, [], ◌∷◌, ◌++◌}
use native.Mathlib.Omega.{arith}
use text.Mathlib.Text.{◌==◌ as str_eq}
use text.Mathlib.TextEquality.{eq_iff}
use seda_rust.Base.Tests.{eqb, eqb_iff, Bool-cases, if◌then◌else◌}

pub record Eq {κ} (K : Type κ) : Type κ where
  pub beq : K → K → Bool
  pub beq_iff : (j k : K) → (beq j k ≡ true) ↔ (j ≡ k)

abbrev pub bytes_beq : List ℕ → List ℕ → Bool
bytes_beq [] [] = true
bytes_beq (x ∷ xs) (y ∷ ys) = eqb x y && bytes_beq xs ys
bytes_beq _ _ = false

pub bytes_beq_refl : (xs : List ℕ) → bytes_beq xs xs ≡ true
bytes_beq_refl [] = refl
bytes_beq_refl (x ∷ xs) = ground (arith, bytes_beq_refl xs)

pub bytes_beq→eq : (xs ys : List ℕ) → bytes_beq xs ys ≡ true → xs ≡ ys
bytes_beq→eq [] [] h = refl
bytes_beq→eq [] (y ∷ ys) h = cc
bytes_beq→eq (x ∷ xs) [] h = cc
bytes_beq→eq (x ∷ xs) (y ∷ ys) h = ground (arith, bytes_beq→eq xs ys)

pub bytes_beq_iff : (xs ys : List ℕ) → (bytes_beq xs ys ≡ true) ↔ (xs ≡ ys)
bytes_beq_iff xs ys = (bytes_beq→eq xs ys, λ e. rw (← e) (bytes_beq_refl xs))

instance abbrev pub bytes_eq : Eq (List ℕ)
bytes_eq = record { beq = bytes_beq; beq_iff = bytes_beq_iff }

instance abbrev pub string_eq : Eq String
string_eq = record { beq_iff = eq_iff; beq = str_eq }

instance abbrev pub nat_eq : Eq ℕ
nat_eq = record { beq_iff = eqb_iff; beq = eqb }

abbrev pub ◌==◌ {κ} : {K : Type κ} ⦃keys : Eq K⦄ → K → K → Bool
◌==◌ ⦃keys⦄ = keys.beq

infix 50 ◌==◌
module _ {ℓ} {K : Type ℓ} ⦃e : Eq K⦄ where
  pub ==_refl : (k : K) → (k == k) ≡ true
  ==_refl k = (e.beq_iff k k).1 refl

  pub ==-eq : (k j : K) → (k == j) ≡ true → k ≡ j
  ==-eq k j h = (e.beq_iff k j).0 h

  pub ne-== : (k j : K) → k ≢ j → (k == j) ≡ false
  ne-== k j h = elim (Bool-cases (k == j)) [
    | inl same ↦ absurd (h (==-eq k j same))
    | inr other ↦ other
  ]

  abbrev pub contains : List K → K → Bool
  contains [] k = false
  contains (j ∷ js) k = j == k || contains js k

  -- Writing and deleting one entry of a map.
  abbrev pub put {κ} : {V : Type κ} → (K → Option V) → K → V → K → Option V
  put m k v j = if k == j then some v else m j

  abbrev pub delete {κ} : {V : Type κ} → (K → Option V) → K → K → Option V
  delete m k j = if k == j then none else m j

  pub put_self {κ} : {V : Type κ} (m : K → Option V) (k : K) (v : V) → put m k v k ≡ some v
  put_self m k v = rw (==_refl k)

  pub delete_self {κ} : {V : Type κ} (m : K → Option V) (k : K) → delete m k k ≡ none
  delete_self m k = rw (==_refl k)

  pub put_ne {κ} : {V : Type κ} (m : K → Option V) (k j : K) (v : V) → k ≢ j → put m k v j ≡ m j
  put_ne m k j v h = rw (ne-== k j h)

  pub delete_ne {κ} : {V : Type κ} (m : K → Option V) (k j : K) → k ≢ j → delete m k j ≡ m j
  delete_ne m k j h = rw (ne-== k j h)

abbrev pub NoDup : {K : Type 0} ⦃e : Eq K⦄ → List K → Type 0
NoDup [] = Unit
NoDup (k ∷ ks) = (contains ks k ≡ false) × NoDup ks

module _ {K : Type 0} ⦃e : Eq K⦄ where
  pub contains-append :
      (ks : List K) (k j : K) → contains (ks ++ k ∷ []) j ≡ (contains ks j || k == j)
  contains-append [] k j = ground arith
  contains-append (i ∷ ks) k j = ground (arith, contains-append ks k j)

  pub NoDup-append : (ks : List K) (k : K) → NoDup ks → contains ks k ≡ false → NoDup (ks ++ k ∷ [])
  NoDup-append [] k h n = (refl, tt)
  NoDup-append (i ∷ ks) k h n = (
    rw (contains-append ks k i) (ground (arith, e.beq_iff i k, e.beq_iff k i, h.0)),
    NoDup-append ks k h.1 (ground arith),
  )
