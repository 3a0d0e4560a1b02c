-- ===== src/Contract/Storage/Settlement.antt =====
-- What the storage settlement of contracts/src/storage.rs does to a call.
use seda_rust.Base.{ℕ, ◌≡◌, arith, ap, subst, sym}
use seda_rust.Contract.State.{Env, World, MainchainContract}
use seda_rust.Contract.Results.{Result, ok, ◌>>=◌, >>=-eq-ok, ok-injective}
use seda_rust.Contract.Storage.{
  Direction, require, refund, either, settle, manage_world, manage_storage_deposit,
}

pub contract-settle :
    (d : Direction) (env : Env) (initial : ℕ) (w w' : World)
    → settle d env initial w ≡ ok w'
    → w'.contract ≡ w.contract
unfolding settle
contract-settle require env initial w w' h = ground arith
contract-settle refund env initial w w' h = ground arith
contract-settle either env initial w w' h = ground arith

-- What a body that succeeds ensures of the contract, the whole method ensures.
module _ (Q : MainchainContract → Type 0) (d : Direction) (env : Env) where
  pub manage_world_ensures :
      (body : World → Result World) (w w' : World)
      → ((w₁ : World) → body w ≡ ok w₁ → Q w₁.contract)
      → manage_world d env body w ≡ ok w'
      → Q w'.contract
  unfolding manage_world
  manage_world_ensures body w w' q h =
      let (w₁, e, s) = >>=-eq-ok (body w) _ h in
      subst Q (sym (contract-settle d env _ w₁ w' s)) (q w₁ e)

  pub manage_ensures :
      (body : MainchainContract → Result MainchainContract) (w w' : World)
      → ((c : MainchainContract) → body w.contract ≡ ok c → Q c)
      → manage_storage_deposit d env body w ≡ ok w'
      → Q w'.contract
  unfolding manage_storage_deposit
  manage_ensures body w w' q h =
      manage_world_ensures (λ w. body w.contract >>= λ c. ok (record w { contract = c })) w w'
        (λ w₁ e.
          let (c, e', s) = >>=-eq-ok (body w.contract) _ e in
          subst Q (ap (λ (x : World). x.contract) (ok-injective s)) (q c e'))
        h
