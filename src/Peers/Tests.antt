-- ===== src/Peers/Tests.antt =====
-- The peer-to-peer layer on a small network.
use seda_rust.Base.{
  ◌≡◌, ◌≢◌, ◌<◌, ◌≤◌, refl, true, false, not, Option, none, some, [], ◌∷◌, is_some, string_eq,
  unwrap_or,
}
use seda_rust.Peers.PeerList.{manual, mdns, unset, rank, default, get_all_info}
use seda_rust.Peers.Discovery.{
  DiscoveryStatus, P2PConfig, add_manual_peer, get_current_discovery_method,
}
use seda_rust.Peers.Discovery.Next.{full, allowed, get_current_discovery_method-first}
use seda_rust.Peers.Server.{
  P2PServer, Around, handle, search, with_status, connection_established, transport_failed,
  add_peer_command,
}
use seda_rust.Peers.Server.Search.{Done, search-Done}
use seda_rust.Peers.Server.Handlers.{handle-panics_on, panics_on}
use seda_rust.Peers.Server.Manual.{handle-add_peer_command}

abbrev config : P2PConfig
config = record {
  disable_mdns = false;
  max_mdns_peers = 1000;
  out_peers = 100;
  disable_manual_peers = false;
  max_manual_peers = 1000;
  max_kademlia_peers = 1000;
  disable_kademlia_peers = true;
  cooldown_duration = 30_000;
}

abbrev status : DiscoveryStatus
status = record {
  p2p_config = config;
  connected_peers = default;
  cooldown_addrs = [];
  found_manual_peers = default;
  found_chain_peers = default;
  found_mdns_peers = default;
  found_kademlia_peers = default;
}

abbrev server : P2PServer
server = record { actions = []; discovery_status = status; local_peer_id = "me" }

abbrev around : Around
around = record {
  cooled_at = 5;
  now = 5;
  visit = λ entries. entries;
  parse_multiaddr = λ text. some text;
  parse_peer_id = λ text. some text;
  addresses_of_peer = λ peer. [];
}

get_current_discovery_method-first_example :
    (get_current_discovery_method none status ≢ unset
      → (full status ≡ false)
        × (allowed (get_current_discovery_method none status) status ≡ true)
        × (rank unset < rank (get_current_discovery_method none status)))
    × (full status ≡ false
        → allowed mdns status ≡ true
        → rank unset < rank mdns
        → (get_current_discovery_method none status ≢ unset)
          × (rank (get_current_discovery_method none status) ≤ rank mdns))
get_current_discovery_method-first_example = get_current_discovery_method-first none status mdns

search-Done_example : Done 5 server (search around server)
search-Done_example = search-Done around server

handle-panics_on_example :
    is_some (handle around (connection_established "p" "/ip4/1.2.3.4") server)
    ≡ not (panics_on (connection_established "p" "/ip4/1.2.3.4") server)
handle-panics_on_example =
    handle-panics_on around (connection_established "p" "/ip4/1.2.3.4") server

-- A server that knows a manual peer.
abbrev knowing : P2PServer
knowing = record server {
  discovery_status = record status {
    found_manual_peers = record {
      addr_to_peer = ("/ip4/1.2.3.4", record { peer_id = none; conn_type = manual }) ∷ [];
      peer_to_addr = [];
    };
  };
}

present : (o : Option P2PServer) (s : P2PServer) → is_some o ≡ true → o ≡ some (unwrap_or o s)
present none s e = cc
present (some t) s e = refl

abbrev failing : Option P2PServer
failing = handle around (transport_failed ("/ip4/1.2.3.4" ∷ [])) knowing

abbrev after_failure : P2PServer
after_failure = unwrap_or failing server

fails : failing ≡ some after_failure
unfolding handle panics_on
fails =
    present failing server
      (handle-panics_on around (transport_failed ("/ip4/1.2.3.4" ∷ [])) knowing)

handle-add_peer_command_example :
    handle around (add_peer_command "/ip4/1.2.3.4") server
    ≡ some (with_status (add_manual_peer "/ip4/1.2.3.4" none status) server)
unfolding get_all_info
handle-add_peer_command_example =
    handle-add_peer_command around "/ip4/1.2.3.4" "/ip4/1.2.3.4" server refl (refl, refl, refl)
