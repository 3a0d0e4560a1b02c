-- ===== src/Config/P2P.antt =====
-- config/src/configs/p2p.rs: the options of the peer-to-peer server.
use seda_rust.Base.{ℕ, ◌*◌, ◌≡◌, refl, Bool, false, Option, none, some, List, [], String}
use seda_rust.Config.System.{Result, ok, and_then, merge_config_cli}

pub record PartialP2PConfig : Type 0 where
  pub in_peers : Option ℕ
  pub out_peers : Option ℕ
  pub p2p_server_address : Option String
  pub p2p_known_peers : Option (List String)
  pub disable_mdns : Option Bool
  pub max_mdns_peers : Option ℕ
  pub max_manual_peers : Option ℕ
  pub disable_manual_peers : Option Bool
  pub max_kademlia_peers : Option ℕ
  pub disable_kademlia_peers : Option Bool
  pub cooldown_duration : Option ℕ

-- An i32 is its bits; a duration is in milliseconds.
pub record P2PConfigInner : Type 0 where
  pub p2p_server_address : String
  pub p2p_known_peers : List String
  pub disable_mdns : Bool
  pub max_mdns_peers : ℕ
  pub in_peers : ℕ
  pub out_peers : ℕ
  pub disable_manual_peers : Bool
  pub max_manual_peers : ℕ
  pub max_kademlia_peers : ℕ
  pub disable_kademlia_peers : Bool
  pub cooldown_duration : ℕ

abbrev pub default_cooldown_duration : ℕ
default_cooldown_duration = 30000

abbrev pub default_in_peers : ℕ
default_in_peers = 25

abbrev pub default_max_kademlia_peers : ℕ
default_max_kademlia_peers = 1000

abbrev pub default_max_manual_peers : ℕ
default_max_manual_peers = 1000

abbrev pub default_max_mdns_peers : ℕ
default_max_mdns_peers = 1000

abbrev pub default_out_peers : ℕ
default_out_peers = 100

abbrev pub default_p2p_server_address : String
default_p2p_server_address = "/ip4/0.0.0.0/tcp/0"

-- `Duration::from_millis`
abbrev pub from_millis : ℕ → Result ℕ
from_millis n = ok n

unfoldable pub to_config : PartialP2PConfig → PartialP2PConfig → Result P2PConfigInner
unfolding merge_config_cli
to_config self cli_options =
    and_then
      (merge_config_cli self.p2p_server_address cli_options.p2p_server_address
        (ok default_p2p_server_address) ok)
      λ p2p_server_address.
        and_then (merge_config_cli self.p2p_known_peers cli_options.p2p_known_peers (ok []) ok)
          λ p2p_known_peers.
            and_then (merge_config_cli self.disable_mdns cli_options.disable_mdns (ok false) ok)
              λ disable_mdns.
                and_then
                  (merge_config_cli self.max_mdns_peers cli_options.max_mdns_peers
                    (ok default_max_mdns_peers) ok)
                  λ max_mdns_peers.
                    and_then
                      (merge_config_cli self.in_peers cli_options.in_peers (ok default_in_peers) ok)
                      λ in_peers.
                        and_then
                          (merge_config_cli self.out_peers cli_options.out_peers
                            (ok default_out_peers) ok)
                          λ out_peers.
                            and_then
                              (merge_config_cli self.max_manual_peers cli_options.max_manual_peers
                                (ok default_max_manual_peers) ok)
                              λ max_manual_peers.
                                and_then
                                  (merge_config_cli self.disable_manual_peers
                                    cli_options.disable_manual_peers (ok false) ok)
                                  λ disable_manual_peers.
                                    and_then
                                      (merge_config_cli self.disable_kademlia_peers
                                        cli_options.disable_kademlia_peers (ok false) ok)
                                      λ disable_kademlia_peers.
                                        and_then
                                          (merge_config_cli self.max_kademlia_peers
                                            cli_options.max_kademlia_peers
                                            (ok default_max_kademlia_peers) ok)
                                          λ max_kademlia_peers.
                                            and_then
                                              (merge_config_cli self.cooldown_duration
                                                cli_options.cooldown_duration
                                                (from_millis default_cooldown_duration) from_millis)
                                              λ cooldown_duration. ok (record {
                                                p2p_server_address = p2p_server_address;
                                                p2p_known_peers = p2p_known_peers;
                                                disable_mdns = disable_mdns;
                                                max_manual_peers = max_manual_peers;
                                                max_mdns_peers = max_mdns_peers;
                                                disable_manual_peers = disable_manual_peers;
                                                in_peers = in_peers;
                                                out_peers = out_peers;
                                                disable_kademlia_peers = disable_kademlia_peers;
                                                max_kademlia_peers = max_kademlia_peers;
                                                cooldown_duration = cooldown_duration;
                                              })

unfoldable pub template : PartialP2PConfig
template = record {
  p2p_server_address = some default_p2p_server_address;
  p2p_known_peers = none;
  disable_mdns = none;
  disable_manual_peers = none;
  max_manual_peers = some default_max_manual_peers;
  in_peers = some default_in_peers;
  out_peers = some default_out_peers;
  max_mdns_peers = some default_max_mdns_peers;
  disable_kademlia_peers = none;
  max_kademlia_peers = some default_max_kademlia_peers;
  cooldown_duration = some default_cooldown_duration;
}

-- `Default`
unfoldable pub default : PartialP2PConfig
default = record {
  in_peers = none;
  out_peers = none;
  p2p_server_address = none;
  p2p_known_peers = none;
  disable_mdns = none;
  max_mdns_peers = none;
  max_manual_peers = none;
  disable_manual_peers = none;
  max_kademlia_peers = none;
  disable_kademlia_peers = none;
  cooldown_duration = none;
}

unfoldable pub test_config : P2PConfigInner
test_config = record {
  p2p_server_address = default_p2p_server_address;
  p2p_known_peers = [];
  disable_mdns = false;
  disable_manual_peers = false;
  max_manual_peers = default_max_manual_peers;
  in_peers = default_in_peers;
  out_peers = default_out_peers;
  max_mdns_peers = default_max_mdns_peers;
  disable_kademlia_peers = false;
  max_kademlia_peers = default_max_kademlia_peers;
  cooldown_duration = default_cooldown_duration * 1000;
}

merge-default :
    {A B : Type 0} (a : A) (cli_option : Option A) (parse : A → Result B)
    → merge_config_cli (some a) cli_option (parse a) parse
      ≡ merge_config_cli none cli_option (parse a) parse
unfolding merge_config_cli
merge-default a none parse = refl
merge-default a (some b) parse = refl

-- A file made from the template says the same as no file, whatever the command line gives.
pub to_config-template :
    (cli_options : PartialP2PConfig)
    → to_config template cli_options ≡ to_config default cli_options
unfolding to_config template default
to_config-template cli_options =
    rw
      (
        merge-default default_p2p_server_address cli_options.p2p_server_address ok,
        merge-default default_max_mdns_peers cli_options.max_mdns_peers ok,
        merge-default default_in_peers cli_options.in_peers ok,
        merge-default default_out_peers cli_options.out_peers ok,
        merge-default default_max_manual_peers cli_options.max_manual_peers ok,
        merge-default default_max_kademlia_peers cli_options.max_kademlia_peers ok,
        merge-default default_cooldown_duration cli_options.cooldown_duration from_millis,
      )
      refl
