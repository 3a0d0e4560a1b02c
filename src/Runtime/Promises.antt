-- ===== src/Runtime/Promises.antt =====
-- runtime/sdk/src/promises, chain.rs, events.rs, p2p.rs and runtime/core/src/promise: the values that
-- the runtime passes around. A text is turned to bytes by `utf8`, which the users of this file give.
use seda_rust.Base.{ℕ, Bool, true, false, Option, none, some, List, [], ◌∷◌, ◌++◌, String}

pub data Chain : Type 0 where
  another near : Chain

pub record P2PMessage : Type 0 where
  pub source : Option String
  pub data_ : List ℕ

pub data P2PCommand : Type 0 where
  broadcast : List ℕ → P2PCommand
  unicast : String → List ℕ → P2PCommand
  add_peer : String → P2PCommand
  remove_peer : String → P2PCommand
  discover_peers : P2PCommand

pub data EventData : Type 0 where
  batch_chain_tick chain_tick : EventData
  p2p_message : P2PMessage → EventData
  cli_call : List String → EventData

pub record Event : Type 0 where
  pub id : String
  pub event_data : EventData

pub record CallSelfAction : Type 0 where
  pub function_name : String
  pub args : List String

pub record ChainViewAction : Type 0 where
  pub chain : Chain
  pub contract_id : String
  pub method_name : String
  pub args : List ℕ

pub record ChainCallAction : Type 0 where
  pub chain : Chain
  pub contract_id : String
  pub method_name : String
  pub args : List ℕ
  pub deposit : ℕ

pub data PromiseAction : Type 0 where
  call_self : CallSelfAction → PromiseAction
  database_set : String → List ℕ → PromiseAction
  database_get : String → PromiseAction
  http : String → PromiseAction
  chain_view : ChainViewAction → PromiseAction
  chain_call : ChainCallAction → PromiseAction
  trigger_event : Event → PromiseAction
  p2p_broadcast : List ℕ → PromiseAction

unfoldable pub is_limited_action : PromiseAction → Bool
is_limited_action (call_self a) = false
is_limited_action (http url) = false
is_limited_action _ = true

unfoldable pub display : PromiseAction → String
display (call_self a) = "call_self"
display (database_set key value) = "db_set"
display (database_get key) = "db_get"
display (http url) = "http"
display (chain_view a) = "chain_view"
display (chain_call a) = "chain_call"
display (trigger_event event) = "trigger_event"
display (p2p_broadcast bytes) = "p2p_broadcast"

pub data PromiseStatus : Type 0 where
  unfulfilled pending : PromiseStatus
  fulfilled : Option (List ℕ) → PromiseStatus
  rejected : List ℕ → PromiseStatus

pub record Promise : Type 0 where
  pub action : PromiseAction
  pub status : PromiseStatus

abbrev pub PromiseQueue : Type 0
PromiseQueue = List Promise

unfoldable pub add_promise : Promise → PromiseQueue → PromiseQueue
add_promise promise queue = queue ++ promise ∷ []

-- What a host call returns: a value, or the text of an error.
pub data HostResult (T : Type 0) : Type 0 where
  ok : T → HostResult T
  err : String → HostResult T

module _ (utf8 : String → List ℕ) where
  unfoldable pub status_of : {T : Type 0} → (T → List ℕ) → HostResult T → PromiseStatus
  status_of to_bytes (ok value) = fulfilled (some (to_bytes value))
  status_of to_bytes (err rejection) = rejected (utf8 rejection)

  unfoldable pub status_of_option :
      {T : Type 0} → (T → List ℕ) → HostResult (Option T) → PromiseStatus
  status_of_option to_bytes (ok none) = fulfilled none
  status_of_option to_bytes (ok (some value)) = fulfilled (some (to_bytes value))
  status_of_option to_bytes (err rejection) = rejected (utf8 rejection)
