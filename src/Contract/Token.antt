-- ===== src/Contract/Token.antt =====
-- contracts/src/fungible_token.rs: the token balances that a deposit takes from and a withdrawal
-- gives to. The arithmetic wraps: nothing compares the balance with the amount.
use seda_rust.Base.{ℕ, string_eq, put, add_u128, sub_u128}
use seda_rust.Contract.State.{AccountId, MainchainContract}
use seda_rust.Contract.Results.{Result, ok, unwrap_none, expect, ◌>>=◌}

unfoldable pub set_account : MainchainContract → AccountId → ℕ → MainchainContract
set_account c account_id balance = record c {
  token = record { accounts = put c.token.accounts account_id balance };
}

unfoldable pub mint : AccountId → ℕ → MainchainContract → Result MainchainContract
unfolding set_account
mint account_id amount c = do
  balance ← expect (c.token.accounts account_id) unwrap_none
  ok (set_account c account_id (add_u128 balance amount))

unfoldable pub burn : AccountId → ℕ → MainchainContract → Result MainchainContract
unfolding set_account
burn account_id amount c = do
  balance ← expect (c.token.accounts account_id) unwrap_none
  ok (set_account c account_id (sub_u128 balance amount))
