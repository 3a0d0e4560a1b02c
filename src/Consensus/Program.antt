-- ===== src/Consensus/Program.antt =====
-- What a run of the program sees: the memories at its host, which runtime/sdk/src/wasm/memory.rs makes
-- into maps, the results of the queue that it belongs to, and the queue that it fills. A panic ends the
-- run and leaves what was written. Log lines are left out.
use seda_rust.Base.{
  ℕ, Bool, Option, none, some, List, [], ◌∷◌, ◌++◌, String, string_eq, put, unwrap_or, is_some,
  get_elem?,
}
use seda_rust.Base.HashMap.{HashMap}
use seda_rust.Runtime.Promises.{
  Promise, PromiseAction, PromiseStatus, PromiseQueue, unfulfilled, add_promise,
}

pub record Program : Type 0 where
  pub shared_memory : String → Option (List ℕ)
  pub memory : String → Option (List ℕ)
  pub results : List PromiseStatus
  pub promise_queue : PromiseQueue
  pub stdout : List String

pub data Outcome (A : Type 0) : Type 0 where
  returned : A → Program → Outcome A
  panicked : Program → Outcome A

abbrev pub Run : Type 0 → Type 0
Run A = Program → Outcome A

abbrev pub bind : {A B : Type 0} → Outcome A → (A → Run B) → Outcome B
bind (returned a p) f = f a p
bind (panicked p) f = panicked p

abbrev pub ◌>>=◌ : {A B : Type 0} → Run A → (A → Run B) → Run B
◌>>=◌ m f p = bind (m p) f

abbrev pub ◌>>◌ : {B : Type 0} → Run (Unit {0}) → Run B → Run B
m >> k = m >>= λ _. k

infixl 5 ◌>>=◌ ◌>>◌
abbrev pub pure : {A : Type 0} → A → Run A
pure a p = returned a p

abbrev pub panic : {A : Type 0} → Run A
panic p = panicked p

-- `expect` and `unwrap`
abbrev pub expect : {A : Type 0} → Option A → Run A
expect none = panic
expect (some a) = pure a

-- The state after a run, whichever way it ended.
abbrev pub left : {A : Type 0} → Outcome A → Program
left (returned a p) = p
left (panicked p) = p

unfoldable pub shared_memory_get : String → Run (List ℕ)
shared_memory_get key p = returned (unwrap_or (p.shared_memory key) []) p

unfoldable pub shared_memory_set : String → List ℕ → Run (Unit {0})
shared_memory_set key value p =
    returned tt (record p { shared_memory = put p.shared_memory key value })

unfoldable pub shared_memory_contains_key : String → Run Bool
shared_memory_contains_key key p = returned (is_some (p.shared_memory key)) p

unfoldable pub memory_read : String → Run (List ℕ)
memory_read key p = returned (unwrap_or (p.memory key) []) p

unfoldable pub memory_write : String → List ℕ → Run (Unit {0})
memory_write key value p = returned tt (record p { memory = put p.memory key value })

-- `Promise::new`, then `start` or `then`: the promise goes to the end of the queue.
unfoldable pub new_promise : PromiseAction → Promise
new_promise action = record { action = action; status = unfulfilled }

unfoldable pub add_to_queue : PromiseAction → Run (Unit {0})
unfolding new_promise
add_to_queue action p =
    returned tt (record p { promise_queue = add_promise (new_promise action) p.promise_queue })

-- `Promise::result`: an index that is not in the queue traps.
unfoldable pub result : ℕ → Run PromiseStatus
result index p = expect (get_elem? p.results index) p

unfoldable pub println : String → Run (Unit {0})
println line p = returned tt (record p { stdout = p.stdout ++ line ∷ [] })

pub record BatchSignatureStore : Type 0 where
  pub aggregated_signature : List ℕ
  pub aggregated_public_keys : List ℕ
  pub signers : List String
  pub signatures : HashMap String (List ℕ)
  pub slot : ℕ
  pub batch_header : List ℕ
  pub p2p_message : List ℕ

pub record BatchMessage : Type 0 where
  pub batch_header : List ℕ
  pub bn254_public_key : List ℕ
  pub signature : List ℕ
  pub ed25519_public_key : List ℕ

pub data Message : Type 0 where
  batch : BatchMessage → Message

pub record ComputeMerkleRootResult : Type 0 where
  pub merkle_root : List ℕ
  pub current_slot : ℕ
  pub current_slot_leader : Option String

pub record MainChainConfig : Type 0 where
  pub minimum_stake : ℕ
  pub epoch_delay_for_election : ℕ
  pub committee_size : ℕ
  pub withdraw_delay : ℕ

-- The libraries that the program calls: the environment variables of WASI, the encoding of texts and of
-- hexadecimal digits, serde, and bn254, whose points are numbers. `sign` is the host's, with the node's
-- key.
pub record Libraries : Type 0 where
  pub env_var : String → Option String
  pub utf8 : String → List ℕ
  pub from_utf8 : List ℕ → Option String
  pub hex_encode : List ℕ → String
  pub hex_decode : String → Option (List ℕ)
  pub store_to_json : BatchSignatureStore → List ℕ
  pub store_from_json : List ℕ → Option BatchSignatureStore
  pub message_to_json : Message → List ℕ
  pub message_from_json : String → Option Message
  pub root_from_json : List ℕ → Option ComputeMerkleRootResult
  pub config_from_json : List ℕ → Option MainChainConfig
  pub string_from_json : List ℕ → Option String
  pub u256_from_dec_str : String → Option ℕ
  pub signed_batch_json : List ℕ → List ℕ → List String → List ℕ → List ℕ
  pub data_request_json : String → List ℕ
  pub sign : List ℕ → Option ℕ
  pub verify : List ℕ → ℕ → ℕ → Bool
  pub signature_from_uncompressed : List ℕ → Option ℕ
  pub signature_to_uncompressed : ℕ → Option (List ℕ)
  pub public_key_from_uncompressed : List ℕ → Option ℕ
  pub public_key_to_uncompressed : ℕ → Option (List ℕ)
  pub add_signatures : ℕ → ℕ → ℕ
  pub add_public_keys : ℕ → ℕ → ℕ
