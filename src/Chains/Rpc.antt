-- ===== src/Chains/Rpc.antt =====
-- The errors of chains/src/errors.rs, and the NEAR libraries that near_chain.rs calls: accounts,
-- signatures and the encoding of transactions, and the RPC client, whose answers come from a state `S` of
-- the chain and the clock.
use seda_rust.Base.{ℕ, Option, none, some, List, String}

pub data ChainAdapterError : Type 0 where
  call_change_method failed_tx : String → ChainAdapterError
  call_view_method bad_transaction_timestamp failed_to_extract_current_nonce : ChainAdapterError
  parse_account_id json_rpc_query_error parse_key json_rpc_tx_error std_io_error : ChainAdapterError
  invalid_ed25519_key_pair : ChainAdapterError

-- `unimplemented!` and `unreachable!` panic; a loop that needs more rounds than it is given is unfinished.
pub data Result (A : Type 0) : Type 0 where
  ok : A → Result A
  err : ChainAdapterError → Result A
  panicked unfinished : Result A

abbrev pub Run : Type 0 → Type 0 → Type 0
Run S A = S → Result A × S

abbrev pub bind : {S A B : Type 0} → Result A × S → (A → Run S B) → Result B × S
bind (ok a, s) f = f a s
bind (err e, s) f = (err e, s)
bind (panicked, s) f = (panicked, s)
bind (unfinished, s) f = (unfinished, s)

abbrev pub ◌>>=◌ : {S A B : Type 0} → Run S A → (A → Run S B) → Run S B
◌>>=◌ m f s = bind (m s) f

infixl 5 ◌>>=◌
abbrev pub pure : {S A : Type 0} → A → Run S A
pure a s = (ok a, s)

abbrev pub fail : {S A : Type 0} → ChainAdapterError → Run S A
fail e s = (err e, s)

abbrev pub lift : {S A : Type 0} → Result A → Run S A
lift r s = (r, s)

abbrev pub ok_or : {A : Type 0} → Option A → ChainAdapterError → Result A
ok_or none e = err e
ok_or (some a) e = ok a

pub data Action : Type 0 where
  function_call : String → List ℕ → ℕ → ℕ → Action
  transfer : ℕ → Action

pub record Transaction : Type 0 where
  pub signer_id : String
  pub public_key : List ℕ
  pub nonce : ℕ
  pub receiver_id : String
  pub block_hash : List ℕ
  pub actions : List Action

pub record SignedTransaction : Type 0 where
  pub transaction : Transaction
  pub signature : List ℕ

pub record InMemorySigner : Type 0 where
  pub account_id : String
  pub public_key : List ℕ
  pub secret_key : List ℕ

-- The kinds of answers to a query: an access key with its nonce, the bytes of a call, or another one.
pub data QueryResponseKind : Type 0 where
  access_key : ℕ → QueryResponseKind
  call_result : List ℕ → QueryResponseKind
  other_kind : QueryResponseKind

pub record QueryResponse : Type 0 where
  pub kind : QueryResponseKind
  pub block_hash : List ℕ

-- The status of a transaction: the chain does not know it yet, another error, its value, or another
-- final status, shown.
pub data TransactionStatus : Type 0 where
  unknown_transaction : TransactionStatus
  other_error : String → TransactionStatus
  success_value : List ℕ → TransactionStatus
  other_status : String → TransactionStatus

pub record Near (S : Type 0) : Type 0 where
  pub parse_account : String → Option String
  pub hex_encode : List ℕ → String
  pub public_key_of : List ℕ → List ℕ
  pub sign : Transaction → InMemorySigner → SignedTransaction
  pub try_to_vec : SignedTransaction → Option (List ℕ)
  pub try_from_slice : List ℕ → Option SignedTransaction
  pub view_access_key : String → String → List ℕ → S → Option QueryResponse × S
  pub call_function : String → String → String → List ℕ → S → Option QueryResponse × S
  pub broadcast_tx_async : String → SignedTransaction → S → Option (List ℕ) × S
  pub tx_status : String → List ℕ → String → S → TransactionStatus × S
  -- The clock in milliseconds, and a sleep of as many seconds.
  pub now : S → ℕ
  pub sleep : ℕ → S → S
