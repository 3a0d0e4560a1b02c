-- ===== src/Config/Keys.antt =====
-- crypto/src: the master key of a node, its file, and the key pairs derived from it. The digits of bytes,
-- the derivation and the two curves are libraries.
use seda_rust.Base.{
  ℕ, Option, none, some, List, [], ◌∷◌, String, length, eqb, if◌then◌else◌, put, string_eq,
  to_le_bytes,
}
use seda_rust.Config.System.{
  System, Result, ok, err, crypto_error, io, key_derivation, invalid_master_key_length, from_hex,
  Run, lift, fail, ok_or, unwrap, and_then,
}

pub record Libraries : Type 0 where
  pub hex_encode : List ℕ → String
  pub hex_decode : String → Option (List ℕ)
  pub derive_key : List ℕ → List ℕ → ℕ → Option (List ℕ)
  pub bn254_private_key : List ℕ → Option (List ℕ)
  pub bn254_public_key : List ℕ → List ℕ
  pub ed25519_private_key : List ℕ → Option (List ℕ)
  pub ed25519_public_key : List ℕ → List ℕ

-- A seed of 32 bytes
pub record MasterKey : Type 0 where
  pub seed : List ℕ

pub record KeyPair : Type 0 where
  pub private_key : List ℕ
  pub public_key : List ℕ

module _ (l : Libraries) where
  unfoldable pub try_from : String → Result MasterKey
  try_from hex_string = elim (l.hex_decode hex_string) [
    | none ↦ err (crypto_error from_hex)
    | some bytes ↦
        if eqb (length bytes) 32
        then ok (record { seed = bytes })
        else err (crypto_error invalid_master_key_length)
  ]

  unfoldable pub read_from_path : System → String → Run MasterKey
  read_from_path sys path files = elim (files path) [
    | none ↦ fail (crypto_error io) files
    | some hex ↦
        if sys.readable path then lift (try_from hex) files else fail (crypto_error io) files
  ]

  unfoldable pub write_to_path : System → MasterKey → String → Run (Unit {0})
  write_to_path sys key path files =
      if sys.writable path
      then (ok tt, put files path (l.hex_encode key.seed))
      else fail (crypto_error io) files

  -- The keys of the purpose named, then of the index in it.
  unfoldable pub derive :
      List ℕ → (List ℕ → Option (List ℕ)) → (List ℕ → List ℕ) → MasterKey → ℕ → Result KeyPair
  derive purpose private_key public_key key index =
      and_then (ok_or (l.derive_key key.seed purpose 32) (crypto_error key_derivation)) λ master_sk.
        and_then
          (ok_or (l.derive_key master_sk (to_le_bytes 8 index) 32) (crypto_error key_derivation))
          λ sk.
            and_then (unwrap (private_key sk))
              λ k. ok (record { private_key = k; public_key = public_key k })

  unfoldable pub derive_bn254 : MasterKey → ℕ → Result KeyPair
  unfolding derive
  derive_bn254 = derive (98 ∷ 110 ∷ 50 ∷ 53 ∷ 52 ∷ []) l.bn254_private_key l.bn254_public_key

  unfoldable pub derive_ed25519 : MasterKey → ℕ → Result KeyPair
  unfolding derive
  derive_ed25519 =
      derive (101 ∷ 100 ∷ 50 ∷ 53 ∷ 53 ∷ 49 ∷ 57 ∷ []) l.ed25519_private_key l.ed25519_public_key
