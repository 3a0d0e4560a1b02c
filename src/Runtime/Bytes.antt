-- ===== src/Runtime/Bytes.antt =====
-- runtime/sdk/src/bytes.rs: values as bytes. The integers go little-endian, in the bytes of their width.
use native.Mathlib.Nat.{pow-suc}
use seda_rust.Base.{
  ℕ, zero, suc, ◌+◌, ◌*◌, ◌/◌, ◌^◌, ◌<◌, ◌≡◌, ◌≢◌, refl, arith, Bool, true, false, Option, none,
  some, List, [], ◌∷◌, length, eqb, ltb, if◌then◌else◌, to_le_bytes,
}

unfoldable pub from_le_bytes : List ℕ → ℕ
from_le_bytes [] = 0
from_le_bytes (b ∷ bs) = b + 256 * from_le_bytes bs

-- `to_bytes` and `from_bytes` of an integer of `num_bytes` bytes; `try_into` checks the length.
unfoldable pub int_to_bytes : ℕ → ℕ → List ℕ
int_to_bytes num_bytes x = to_le_bytes num_bytes x

unfoldable pub int_from_bytes : ℕ → List ℕ → Option ℕ
int_from_bytes num_bytes bytes =
    if eqb (length bytes) num_bytes then some (from_le_bytes bytes) else none

unfoldable pub bool_to_bytes : Bool → List ℕ
bool_to_bytes true = 1 ∷ []
bool_to_bytes false = 0 ∷ []

-- `bytes[0]` panics on no bytes: `none`.
unfoldable pub bool_from_bytes : List ℕ → Option Bool
bool_from_bytes [] = none
bool_from_bytes (b ∷ bs) = some (ltb 0 b)

length-to_le_bytes : (w x : ℕ) → length (to_le_bytes w x) ≡ w
unfolding to_le_bytes
length-to_le_bytes zero x = refl
length-to_le_bytes (suc w) x = omega (arith, length-to_le_bytes w (x / 256))

scaled : (w x : ℕ) → x < 256 ^ suc w → x / 256 < 256 ^ w
scaled w x h = omega (arith, pow-suc 256 w)

-- The bytes of a word of `w` bytes are read back as the word, whatever its value below `256 ^ w`.
from-to_le_bytes : (w x : ℕ) → x < 256 ^ w → from_le_bytes (to_le_bytes w x) ≡ x
unfolding to_le_bytes from_le_bytes
from-to_le_bytes zero x h = omega arith
from-to_le_bytes (suc w) x h = omega (arith, from-to_le_bytes w (x / 256) (scaled w x h))

-- An integer that fits in its bytes survives the round trip, and bytes of another length are refused.
int_from-to_bytes :
    (num_bytes x : ℕ) (bytes : List ℕ)
    → x < 256 ^ num_bytes
    → (int_from_bytes num_bytes (int_to_bytes num_bytes x) ≡ some x)
      × (length bytes ≢ num_bytes → int_from_bytes num_bytes bytes ≡ none)
unfolding int_from_bytes int_to_bytes
int_from-to_bytes num_bytes x bytes h = (
  ground (arith, from-to_le_bytes num_bytes x h, length-to_le_bytes num_bytes x),
  λ k. ground arith,
)
