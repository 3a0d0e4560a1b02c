-- ===== src/Chains/Near/Polls.antt =====
-- The loop of `send_tx` (chains/src/near_chain.rs) against a clock that goes on.
use seda_rust.Base.{
  ℕ, zero, suc, ◌+◌, ◌-◌, ◌*◌, ◌/◌, ◌≤◌, ◌<◌, ◌≡◌, refl, subst, arith, Option, some, List, String,
  ltb, ltb→lt, ltb→le, Bool-cases, inl, inr,
}
use seda_rust.Chains.Rpc.{
  call_change_method, failed_tx, bad_transaction_timestamp, Result, ok, err, SignedTransaction,
  TransactionStatus, unknown_transaction, other_error, success_value, other_status, Near,
}
use seda_rust.Chains.Near.{poll, send_tx}

module _ {S : Type 0} (n : Near S) where
  -- The clock never goes back, and a sleep lasts as long as it says.
  pub record IsClock : Type 0 where
    pub goes_on :
        (client : String) (tx_hash : List ℕ) (account_id : String) (s : S)
        → n.now s ≤ n.now (n.tx_status client tx_hash account_id s).1
    pub sends :
        (client : String) (tx : SignedTransaction) (s : S)
        → n.now s ≤ n.now (n.broadcast_tx_async client tx s).1
    pub sleeps : (seconds : ℕ) (s : S) → n.now s + 1000 * seconds ≤ n.now (n.sleep seconds s)

  module _ (client : String) (tx_hash : List ℕ) (account_id : String) (sent_at : ℕ) where
    -- The seconds since the transaction was sent.
    abbrev pub elapsed : S → ℕ
    elapsed s = (n.now s - sent_at) / 1000

    -- How the loop ends: by the last answer of the chain, if it came within a minute, or by the time.
    pub data Ends : Result (List ℕ) × S → Type 0 where
      timed_out : (s : S) → 60 < elapsed s → Ends (err bad_transaction_timestamp, s)
      succeeded :
          (value : List ℕ) (before s : S)
          → n.tx_status client tx_hash account_id before ≡ (success_value value, s)
          → elapsed s ≤ 60
          → Ends (ok value, s)
      refused :
          (text : String) (before s : S)
          → n.tx_status client tx_hash account_id before ≡ (other_error text, s)
          → elapsed s ≤ 60
          → Ends (err (call_change_method text), s)
      failed :
          (text : String) (before s : S)
          → n.tx_status client tx_hash account_id before ≡ (other_status text, s)
          → elapsed s ≤ 60
          → Ends (err (failed_tx text), s)

    -- The branches of a round that is in time.
    abbrev on_time : TransactionStatus → S → Result (List ℕ) × S → Result (List ℕ) × S
    on_time status s rest = elim status [
      | unknown_transaction ↦ rest
      | other_error text ↦ (err (call_change_method text), s)
      | success_value value ↦ (ok value, s)
      | other_status text ↦ (err (failed_tx text), s)
    ]

    answered :
        (status : TransactionStatus) (before s : S) (rest : Result (List ℕ) × S)
        → n.tx_status client tx_hash account_id before ≡ (status, s)
        → elapsed s ≤ 60
        → Ends rest
        → Ends (on_time status s rest)
    answered unknown_transaction before s rest e in_time later = later
    answered (other_error text) before s rest e in_time later = refused text before s e in_time
    answered (success_value value) before s rest e in_time later =
        succeeded value before s e in_time
    answered (other_status text) before s rest e in_time later = failed text before s e in_time

  module _ (clock : IsClock) (client : String) (tx_hash : List ℕ) (account_id : String)
      (sent_at : ℕ) where
    round-Ends :
        (rounds : ℕ) (s : S)
        → ((n.now (n.tx_status client tx_hash account_id s).1 - sent_at) / 1000 ≤ 60
            → Ends client tx_hash account_id sent_at (
                poll n client tx_hash account_id sent_at rounds
                  (n.sleep 2 (n.tx_status client tx_hash account_id s).1)))
        → Ends client tx_hash account_id sent_at
            (poll n client tx_hash account_id sent_at (suc rounds) s)
    unfolding poll
    round-Ends rounds s later =
        let answer = n.tx_status client tx_hash account_id s in
        elim (Bool-cases (ltb 60 ((n.now answer.1 - sent_at) / 1000))) [
          | inl late ↦
              rw late (timed_out answer.1 (ltb→lt 60 ((n.now answer.1 - sent_at) / 1000) late))
          | inr early ↦
              let in_time = ltb→le 60 ((n.now answer.1 - sent_at) / 1000) early in
              rw early (
                answered client tx_hash account_id sent_at answer.0 s answer.1
                  (poll n client tx_hash account_id sent_at rounds (n.sleep 2 answer.1)) refl
                  in_time (later in_time))
        ]

    -- Enough rounds are left for the time to run out.
    poll-Ends :
        (rounds : ℕ) (s : S)
        → sent_at ≤ n.now s
        → sent_at + 61000 ≤ n.now s + 2000 * rounds
        → Ends client tx_hash account_id sent_at
            (poll n client tx_hash account_id sent_at (suc rounds) s)
    poll-Ends zero s started enough =
        let on = clock.goes_on client tx_hash account_id s in
        round-Ends zero s (λ in_time. absurd (omega arith))
    poll-Ends (suc rounds) s started enough =
        let on = clock.goes_on client tx_hash account_id s in
        let slept = clock.sleeps 2 (n.tx_status client tx_hash account_id s).1 in
        round-Ends (suc rounds) s (λ in_time.
          poll-Ends rounds (n.sleep 2 (n.tx_status client tx_hash account_id s).1) (omega arith)
            (omega arith))

  -- A transaction that was sent is waited for at most 32 rounds: the loop ends with the last answer of the
  -- chain if that came within a minute of the sending, in whole seconds, and with an error of the time
  -- otherwise. The clock is assumed not to go back, and a sleep to last as long as it says.
  pub send_tx-Ends :
      (clock : IsClock) (client : String) (signed_tx tx_hash : List ℕ) (tx : SignedTransaction)
      (s s' : S)
      → n.try_from_slice signed_tx ≡ some tx
      → n.broadcast_tx_async client tx s ≡ (some tx_hash, s')
      → Ends client tx_hash tx.transaction.signer_id (n.now s) (send_tx n 32 client signed_tx s)
  unfolding send_tx
  send_tx-Ends clock client signed_tx tx_hash tx s s' read sent =
      let on =
        subst (λ (x : Option (List ℕ) × S). n.now s ≤ n.now x.1) sent (clock.sends client tx s) in
      rw (read, sent)
        (poll-Ends clock client tx_hash tx.transaction.signer_id (n.now s) 31 s' on (omega arith))
