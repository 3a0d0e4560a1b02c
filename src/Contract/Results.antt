-- ===== src/Contract/Results.antt =====
-- A method that panics leaves nothing behind: near rolls the call back. So a method is a function
-- into `Result`, and `attempt` is the chain's view of one call.
use seda_rust.Base.{Bool, true, false, Option, none, some, ◌≡◌, refl, ap}

-- One constructor for each message of an `assert!`, `expect` or `unwrap` of contracts/src.
pub data Panic : Type 0 where
  already_initialized invalid_dao only_dao : Panic
  unwrap_none node_does_not_exist : Panic
  bn254_public_key_exists ed25519_public_key_exists invalid_signature : Panic
  invalid_ed25519_public_key balance_not_zero : Panic
  amount_not_positive not_enough_balance no_deposit_for_account no_deposit_for_node : Panic
  withdrawal_pending no_withdrawal_request epochs_remain : Panic
  insufficient_storage subtraction_overflow : Panic
  remainder_by_zero out_of_fuel index_out_of_bounds : Panic
  not_slot_leader invalid_leader_signature not_in_committee : Panic
  invalid_aggregate_public_key invalid_aggregate_signature : Panic

pub data Result {κ} (T : Type κ) : Type κ where
  panic : Panic → Result T
  ok : T → Result T

abbrev pub ◌>>=◌ {κ ℓ} : {T : Type κ} {U : Type ℓ} → Result T → (T → Result U) → Result U
panic message >>= next = panic message
ok value >>= next = next value

-- `assert!`
abbrev pub assert : Bool → Panic → Result (Unit {0})
assert false message = panic message
assert true message = ok tt

-- A statement, and what follows it.
abbrev pub ◌>>◌ {ℓ} : {U : Type ℓ} → Result (Unit {0}) → Result U → Result U
statement >> rest = statement >>= λ _. rest

infixl 5 ◌>>=◌ ◌>>◌
-- `unwrap` and `expect`
abbrev pub expect {ℓ} : {A : Type ℓ} → Option A → Panic → Result A
expect none p = panic p
expect (some a) p = ok a

-- The state after a call.
abbrev pub attempt {ℓ} : {A : Type ℓ} → A → Result A → A
attempt s (ok t) = t
attempt s (panic p) = s

-- A sequence that succeeds got a value from its first part.
pub >>=-eq-ok {κ ℓ} :
    {T : Type κ} {U : Type ℓ} (first : Result T) (next : T → Result U) {u : U}
    → first >>= next ≡ ok u
    → (t : T) × (first ≡ ok t) × (next t ≡ ok u)
>>=-eq-ok (panic message) next e = cc
>>=-eq-ok (ok t) next e = (t, refl, e)

pub ok-injective {ℓ} : {A : Type ℓ} {a b : A} → ok a ≡ ok b → a ≡ b
ok-injective {a = a} e = ap (λ r. elim r [ ok x ↦ x | panic _ ↦ a ]) e
