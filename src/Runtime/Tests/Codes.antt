-- ===== src/Runtime/Tests/Codes.antt =====
-- An encoding of texts for the tests: a text as its code points, and back.
use Prim.Native.Char.{char, IsScalar, code}
use Prim.Native.Nat.{compare, Ordering}
use mathlib.Core.Path.{◌≡◌, refl, ap, ◌∙◌}
use mathlib.Core.Logic.{◌⊎◌, inl, inr}
use text.Mathlib.TextEquality.{IsScalar-prop}
use seda_rust.Base.{ℕ, Option, none, some, List, [], ◌∷◌, String}

data OrderingIs (o : Ordering) : Type 0 where
  less : o ≡ Ordering.lt → OrderingIs o
  equal : o ≡ Ordering.eq → OrderingIs o
  greater : o ≡ Ordering.gt → OrderingIs o

ordering_is : (o : Ordering) → OrderingIs o
ordering_is Ordering.lt = less refl
ordering_is Ordering.eq = equal refl
ordering_is Ordering.gt = greater refl

scalar? : (n : ℕ) → IsScalar n ⊎ (IsScalar n → ⊥)
scalar? n = elim (ordering_is (compare n 55296)) [
  | less e ↦ inl (rw e tt)
  | equal e ↦ elim (ordering_is (compare 57343 n)) [
    | less f ↦ elim (ordering_is (compare n 1114112)) [
      | less g ↦ inl (rw (e, f, g) tt)
      | equal g ↦ inr (λ s. rw (e, f, g) at s)
      | greater g ↦ inr (λ s. rw (e, f, g) at s)
    ]
    | equal f ↦ inr (λ s. rw (e, f) at s)
    | greater f ↦ inr (λ s. rw (e, f) at s)
  ]
  | greater e ↦ elim (ordering_is (compare 57343 n)) [
    | less f ↦ elim (ordering_is (compare n 1114112)) [
      | less g ↦ inl (rw (e, f, g) tt)
      | equal g ↦ inr (λ s. rw (e, f, g) at s)
      | greater g ↦ inr (λ s. rw (e, f, g) at s)
    ]
    | equal f ↦ inr (λ s. rw (e, f) at s)
    | greater f ↦ inr (λ s. rw (e, f) at s)
  ]
]

abbrev pub codes : String → List ℕ
codes String.[] = []
codes (String.◌∷◌ c s) = code c ∷ codes s

cons_code : (n : ℕ) → IsScalar n ⊎ (IsScalar n → ⊥) → Option String → Option String
cons_code n (inl s) (some rest) = some (String.◌∷◌ (char n s) rest)
cons_code n (inl s) none = none
cons_code n (inr s) rest = none

pub from_codes : List ℕ → Option String
from_codes [] = some ""
from_codes (n ∷ ns) = cons_code n (scalar? n) (from_codes ns)

cons_code-char :
    (n : ℕ) (s : IsScalar n) (d : IsScalar n ⊎ (IsScalar n → ⊥)) (rest : String)
    → cons_code n d (some rest) ≡ some (String.◌∷◌ (char n s) rest)
unfolding cons_code
cons_code-char n s (inl t) rest = ap (λ p. some (String.◌∷◌ (char n p) rest)) (IsScalar-prop n t s)
cons_code-char n s (inr t) rest = absurd (t s)

pub from_codes-codes : (s : String) → from_codes (codes s) ≡ some s
unfolding from_codes
from_codes-codes String.[] = refl
from_codes-codes (String.◌∷◌ (char n s) rest) =
    ap (cons_code n (scalar? n)) (from_codes-codes rest) ∙ cons_code-char n s (scalar? n) rest
