-- ===== src/Chains/Adapter.antt =====
-- chains/src/lib.rs and another_chain.rs, and the host's calls of a chain (node/src/host/chain_call.rs,
-- chain_view.rs and runtime_host.rs). A client is a unit or the URL that it is connected to.
use seda_rust.Base.{ℕ, Option, none, List, ◌++◌, String}
use seda_rust.Config.Chains.{ChainConfigs}
use seda_rust.Config.Keys.{KeyPair}
use seda_rust.Runtime.Promises.{Chain, another, near}
use seda_rust.Chains.Rpc.{panicked, Run, ◌>>=◌, Near}
use seda_rust.Chains.Near

pub data Client : Type 0 where
  another_client : Client
  near_client : String → Client

-- `Client::new`, and `select_client_from_chain` of an adapter that was made with these configurations
unfoldable pub new : Chain → ChainConfigs → Client
new another chains_config = another_client
new near chains_config = near_client chains_config.near.chain_rpc_url

module _ {S : Type 0} (n : Near S) where
  -- Every method of `AnotherChain` but `new_client`
  abbrev pub unimplemented : {A : Type 0} → Run S A
  unimplemented s = (panicked, s)

  unfoldable pub construct_signed_tx :
      Chain → Option String → List ℕ → String → String → List ℕ → ℕ → ℕ → String → Run S (List ℕ)
  unfolding Near.construct_signed_tx
  construct_signed_tx another signer keypair contract_id method_name args gas deposit server_url =
      unimplemented
  construct_signed_tx near signer keypair contract_id method_name args gas deposit server_url =
      Near.construct_signed_tx n signer keypair contract_id method_name args gas deposit server_url

  unfoldable pub construct_transfer_tx :
      Chain → Option String → List ℕ → String → ℕ → String → Run S (List ℕ)
  unfolding Near.construct_transfer_tx
  construct_transfer_tx another signer keypair receiver_id amount server_url = unimplemented
  construct_transfer_tx near signer keypair receiver_id amount server_url =
      Near.construct_transfer_tx n signer keypair receiver_id amount server_url

  -- A client of the other chain is unreachable.
  unfoldable pub send_tx : ℕ → Chain → Client → List ℕ → Run S (List ℕ)
  unfolding Near.send_tx
  send_tx rounds another client signed_tx = unimplemented
  send_tx rounds near another_client signed_tx = unimplemented
  send_tx rounds near (near_client url) signed_tx = Near.send_tx n rounds url signed_tx

  unfoldable pub view : Chain → Client → String → String → List ℕ → Run S (List ℕ)
  unfolding Near.view
  view another client contract_id method_name args = unimplemented
  view near another_client contract_id method_name args = unimplemented
  view near (near_client url) contract_id method_name args =
      Near.view n url contract_id method_name args

-- The bytes of a key pair: the private key, then the public one.
abbrev pub keypair_bytes : KeyPair → List ℕ
keypair_bytes pair = pair.private_key ++ pair.public_key

pub record ChainCall : Type 0 where
  pub chain : Chain
  pub contract_id : String
  pub method_name : String
  pub args : List ℕ
  pub client : Client
  pub deposit : ℕ
  pub gas : ℕ
  pub keypair_ed25519 : KeyPair
  pub chains_config : ChainConfigs

abbrev pub server_url : Chain → ChainConfigs → String
server_url another config = config.another.chain_rpc_url
server_url near config = config.near.chain_rpc_url

module _ {S : Type 0} (n : Near S) (rounds : ℕ) where
  -- The account that signs is the one of the node's own key.
  unfoldable pub call_bytes : ChainCall → Run S (List ℕ)
  unfolding construct_signed_tx send_tx
  call_bytes self = do
    signed_txn ←
        construct_signed_tx n self.chain none (keypair_bytes self.keypair_ed25519) self.contract_id
          self.method_name self.args self.gas self.deposit
          (server_url self.chain self.chains_config)
    send_tx n rounds self.chain self.client signed_txn

  -- The host's `chain_call` for an adapter made with the configurations.
  unfoldable pub chain_call :
      Chain → String → String → List ℕ → ℕ → ℕ → KeyPair → ChainConfigs → Run S (List ℕ)
  unfolding call_bytes new
  chain_call chain contract_id method_name args deposit gas keypair chains_config =
      call_bytes (record {
        chain = chain;
        contract_id = contract_id;
        method_name = method_name;
        args = args;
        client = new chain chains_config;
        deposit = deposit;
        gas = gas;
        keypair_ed25519 = keypair;
        chains_config = chains_config;
      })

  unfoldable pub chain_view : Chain → String → String → List ℕ → ChainConfigs → Run S (List ℕ)
  unfolding view new
  chain_view chain contract_id method_name args chains_config =
      view n chain (new chain chains_config) contract_id method_name args
