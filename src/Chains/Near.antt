-- ===== src/Chains/Near.antt =====
-- chains/src/near_chain.rs: transactions of NEAR. A client is the URL that it is connected to.

pub mod Polls
use seda_rust.Base.{
  ℕ, zero, suc, ◌+◌, ◌-◌, ◌/◌, ◌%◌, ◌^◌, Bool, true, false, Option, none, some, List, [], ◌∷◌,
  String, length, eqb, ltb, if◌then◌else◌, drop,
}
use seda_rust.Chains.Rpc.{
  ChainAdapterError, call_change_method, failed_tx, call_view_method, bad_transaction_timestamp,
  failed_to_extract_current_nonce, parse_account_id, json_rpc_query_error, json_rpc_tx_error,
  std_io_error, invalid_ed25519_key_pair, Result, ok, err, panicked, unfinished, Run, bind, ◌>>=◌,
  pure, fail, lift, ok_or, Action, function_call, transfer, Transaction, SignedTransaction,
  InMemorySigner, QueryResponseKind, access_key, call_result, other_kind, QueryResponse,
  TransactionStatus, unknown_transaction, other_error, success_value, other_status, Near,
}

-- `call(..).await?`
abbrev pub ask : {S A : Type 0} → (S → Option A × S) → ChainAdapterError → Run S A
ask call e s = let (answer, s') = call s in (ok_or answer e, s')

module _ {S : Type 0} (n : Near S) where
  -- Without an account's name, the account is the one of the public key, the second half of the pair.
  unfoldable pub get_in_memory_signer : Option String → List ℕ → Run S InMemorySigner
  get_in_memory_signer signer_account_id signer_keypair =
      if eqb (length signer_keypair) 64
      then (do
        account_id ← lift (
            ok_or
              (n.parse_account (elim signer_account_id [
                | none ↦ n.hex_encode (drop 32 signer_keypair)
                | some account_id ↦ account_id
              ]))
              parse_account_id)
        pure (record {
          account_id = account_id;
          public_key = n.public_key_of signer_keypair;
          secret_key = signer_keypair;
        }))
      else fail invalid_ed25519_key_pair

  abbrev pub nonce_of : QueryResponse → Result ℕ
  nonce_of response = elim response.kind [
    | access_key nonce ↦ ok nonce
    | call_result bytes ↦ err failed_to_extract_current_nonce
    | other_kind ↦ err failed_to_extract_current_nonce
  ]

  -- A u64 nonce wraps, as in the release profile.
  unfoldable pub construct_tx :
      Option String → List ℕ → String → String → List Action → Run S (List ℕ)
  unfolding get_in_memory_signer
  construct_tx signer_account_id signer_keypair receiver_id rpc_url actions = do
    signer ← get_in_memory_signer signer_account_id signer_keypair
    response ←
        ask (n.view_access_key rpc_url signer.account_id signer.public_key) json_rpc_query_error
    current_nonce ← lift (nonce_of response)
    receiver ← lift (ok_or (n.parse_account receiver_id) parse_account_id)
    lift (
        ok_or
          (n.try_to_vec (
            n.sign
              (record {
                signer_id = signer.account_id;
                public_key = signer.public_key;
                nonce = (current_nonce + 1) % 2 ^ 64;
                receiver_id = receiver;
                block_hash = response.block_hash;
                actions = actions;
              })
              signer))
          std_io_error)

  -- The source writes the steps of `construct_tx` out again.
  unfoldable pub construct_signed_tx :
      Option String → List ℕ → String → String → List ℕ → ℕ → ℕ → String → Run S (List ℕ)
  unfolding construct_tx
  construct_signed_tx signer_account_id signer_keypair contract_id method_name args gas deposit
        server_url =
      construct_tx signer_account_id signer_keypair contract_id server_url
        (function_call method_name args gas deposit ∷ [])

  unfoldable pub construct_transfer_tx :
      Option String → List ℕ → String → ℕ → String → Run S (List ℕ)
  unfolding construct_tx
  construct_transfer_tx signer_account_id signer_keypair receiver_id deposit server_url =
      construct_tx signer_account_id signer_keypair receiver_id server_url (transfer deposit ∷ [])

  -- The loop of `send_tx`: the status is asked for until it is final, or a minute has passed.
  unfoldable pub poll : String → List ℕ → String → ℕ → ℕ → Run S (List ℕ)
  poll client tx_hash account_id sent_at zero s = (unfinished, s)
  poll client tx_hash account_id sent_at (suc rounds) s =
      let (status, s') = n.tx_status client tx_hash account_id s in
      let rest = poll client tx_hash account_id sent_at rounds (n.sleep 2 s') in
      if ltb 60 ((n.now s' - sent_at) / 1000)
      then (err bad_transaction_timestamp, s')
      else elim status [
        | unknown_transaction ↦ rest
        | other_error text ↦ (err (call_change_method text), s')
        | success_value value ↦ (ok value, s')
        | other_status text ↦ (err (failed_tx text), s')
      ]

  unfoldable pub send_tx : ℕ → String → List ℕ → Run S (List ℕ)
  unfolding poll
  send_tx rounds client signed_tx s =
      bind (lift (ok_or (n.try_from_slice signed_tx) std_io_error) s) (λ tx s₁.
        bind (ask (n.broadcast_tx_async client tx) json_rpc_tx_error s₁)
          (λ tx_hash s₂. poll client tx_hash tx.transaction.signer_id (n.now s) rounds s₂))

  unfoldable pub view : String → String → String → List ℕ → Run S (List ℕ)
  view client contract_id method_name args = do
    account ← lift (ok_or (n.parse_account contract_id) parse_account_id)
    response ← ask (n.call_function client account method_name args) json_rpc_query_error
    elim response.kind [
      | access_key nonce ↦ fail call_view_method
      | call_result result ↦ pure result
      | other_kind ↦ fail call_view_method
    ]
