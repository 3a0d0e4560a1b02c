-- ===== src/Chains/Tests.antt =====
-- A transaction that the chain knows after its second question, on a clock that counts milliseconds.
use seda_rust.Base.{ℕ, ◌+◌, ◌*◌, ◌≡◌, refl, arith, none, some, [], ◌∷◌, ltb, if◌then◌else◌}
use seda_rust.Chains.Rpc.{
  SignedTransaction, call_result, unknown_transaction, success_value, Near, ok,
}
use seda_rust.Chains.Near.{poll, send_tx}
use seda_rust.Chains.Near.Polls.{IsClock, Ends, send_tx-Ends}

abbrev tx : SignedTransaction
tx = record {
  transaction = record {
    signer_id = "node";
    public_key = [];
    nonce = 1;
    receiver_id = "contract";
    block_hash = [];
    actions = [];
  };
  signature = [];
}

abbrev chain : Near ℕ
chain = record {
  parse_account = some;
  hex_encode = λ bytes. "00";
  public_key_of = λ bytes. bytes;
  sign = λ t signer. tx;
  try_to_vec = λ t. some (1 ∷ []);
  try_from_slice = λ bytes. some tx;
  view_access_key = λ url account key s. (none, s);
  call_function =
      λ url account method args s. (some (record { kind = call_result []; block_hash = [] }), s);
  broadcast_tx_async = λ url t s. (some (7 ∷ []), s + 100);
  tx_status = λ url hash account s.
      (if ltb s 2000 then unknown_transaction else success_value (42 ∷ []), s + 100);
  now = λ s. s;
  sleep = λ seconds s. s + 1000 * seconds;
}

clock : IsClock chain
clock = record {
  goes_on = λ client hash account s. omega arith;
  sends = λ client t s. omega arith;
  sleeps = λ seconds s. omega arith;
}

send_tx-Ends_example : Ends chain "url" (7 ∷ []) "node" 0 (send_tx chain 32 "url" (1 ∷ []) 0)
send_tx-Ends_example = send_tx-Ends chain clock "url" (1 ∷ []) (7 ∷ []) tx 0 100 refl refl

answered_at : send_tx chain 32 "url" (1 ∷ []) 0 ≡ (ok (42 ∷ []), 2300)
unfolding send_tx poll
answered_at = refl
