-- ===== src/Consensus/Tests/Codec.antt =====
-- An encoding of the stored signatures for the tests, which is read back as it was written.
use seda_rust.Base.{
  ℕ, zero, suc, ◌≡◌, refl, Option, none, some, List, [], ◌∷◌, ◌++◌, String, length,
}
use seda_rust.Base.HashMap.{HashMap}
use seda_rust.Consensus.Program.{BatchSignatureStore}
use seda_rust.Runtime.Tests.Codes.{codes, from_codes, from_codes-codes}

infixl 5 ◌>>=◌
abbrev ◌>>=◌ : {A B : Type 0} → Option A → (A → Option B) → Option B
none >>= f = none
some a >>= f = f a

-- Reading consumes what writing put before the rest.
abbrev Reader : Type 0 → Type 0
Reader A = List ℕ → Option (A × List ℕ)

abbrev split : ℕ → Reader (List ℕ)
split zero r = some ([], r)
split (suc n) [] = none
split (suc n) (x ∷ r) = do (xs, r') ← split n r; some (x ∷ xs, r')

split-append : (xs r : List ℕ) → split (length xs) (xs ++ r) ≡ some (xs, r)
split-append [] r = refl
split-append (x ∷ xs) r = rw (split-append xs r) refl

abbrev write_list : List ℕ → List ℕ → List ℕ
write_list xs r = length xs ∷ (xs ++ r)

abbrev read_list : Reader (List ℕ)
read_list [] = none
read_list (n ∷ r) = split n r

read-write_list : (xs r : List ℕ) → read_list (write_list xs r) ≡ some (xs, r)
read-write_list xs r = split-append xs r

abbrev write_text : String → List ℕ → List ℕ
write_text s r = write_list (codes s) r

abbrev read_text : Reader String
read_text r = do (cs, r') ← read_list r; s ← from_codes cs; some (s, r')

read-write_text : (s : String) (r : List ℕ) → read_text (write_text s r) ≡ some (s, r)
read-write_text s r = rw (split-append (codes s) r, from_codes-codes s) refl

abbrev write_texts : List String → List ℕ → List ℕ
write_texts [] r = r
write_texts (s ∷ ss) r = write_text s (write_texts ss r)

abbrev read_texts : ℕ → Reader (List String)
read_texts zero r = some ([], r)
read_texts (suc n) r = do (s, r1) ← read_text r; (ss, r2) ← read_texts n r1; some (s ∷ ss, r2)

read-write_texts :
    (ss : List String) (r : List ℕ) → read_texts (length ss) (write_texts ss r) ≡ some (ss, r)
read-write_texts [] r = refl
read-write_texts (s ∷ ss) r =
    rw (split-append (codes s) (write_texts ss r), from_codes-codes s, read-write_texts ss r) refl

abbrev write_entries : HashMap String (List ℕ) → List ℕ → List ℕ
write_entries [] r = r
write_entries ((k, v) ∷ m) r = write_text k (write_list v (write_entries m r))

abbrev read_entries : ℕ → Reader (HashMap String (List ℕ))
read_entries zero r = some ([], r)
read_entries (suc n) r = do
  (k, r1) ← read_text r
  (v, r2) ← read_list r1
  (m, r3) ← read_entries n r2
  some ((k, v) ∷ m, r3)

read-write_entries :
    (m : HashMap String (List ℕ)) (r : List ℕ)
    → read_entries (length m) (write_entries m r) ≡ some (m, r)
read-write_entries [] r = refl
read-write_entries ((k, v) ∷ m) r =
    rw
      (
        split-append (codes k) (write_list v (write_entries m r)),
        from_codes-codes k,
        split-append v (write_entries m r),
        read-write_entries m r,
      )
      refl

pub to_json : BatchSignatureStore → List ℕ
to_json s =
    s.slot
    ∷ length s.signers
    ∷ length s.signatures
    ∷ write_texts s.signers (
        write_entries s.signatures (
          write_list s.aggregated_signature (
            write_list s.aggregated_public_keys
              (write_list s.batch_header (write_list s.p2p_message [])))))

pub from_json : List ℕ → Option BatchSignatureStore
from_json (slot ∷ n ∷ k ∷ r) = do
  (signers, r1) ← read_texts n r
  (signatures, r2) ← read_entries k r1
  (aggregated_signature, r3) ← read_list r2
  (aggregated_public_keys, r4) ← read_list r3
  (batch_header, r5) ← read_list r4
  (p2p_message, r6) ← read_list r5
  some (record {
    aggregated_signature = aggregated_signature;
    aggregated_public_keys = aggregated_public_keys;
    signers = signers;
    signatures = signatures;
    slot = slot;
    batch_header = batch_header;
    p2p_message = p2p_message;
  })
from_json _ = none

pub from-to_json : (s : BatchSignatureStore) → from_json (to_json s) ≡ some s
unfolding from_json to_json
from-to_json s =
    let last = write_list s.p2p_message [] in
    let header = write_list s.batch_header last in
    let keys = write_list s.aggregated_public_keys header in
    let signature = write_list s.aggregated_signature keys in
    rw
      (
        read-write_texts s.signers (write_entries s.signatures signature),
        read-write_entries s.signatures signature,
        split-append s.aggregated_signature keys,
        split-append s.aggregated_public_keys header,
        split-append s.batch_header last,
        split-append s.p2p_message [],
      )
      refl
