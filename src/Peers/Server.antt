-- ===== src/Peers/Server.antt =====
-- p2p/src/libp2p/mod.rs: the server that reacts to the swarm and to commands. What it asks of libp2p,
-- and the messages it sends on, are recorded in the order it asks. A panic is `none`.
pub mod Search
pub mod Handlers
pub mod Manual
use seda_rust.Base.{
  ℕ, zero, suc, Bool, true, false, Option, none, some, List, [], ◌∷◌, ◌++◌, String,
}
use seda_rust.Peers.PeerList.{
  ConnectionType, PeerInfo, unset, manual, mdns, chain, kademlia, Multiaddr, PeerId,
}
use seda_rust.Peers.Discovery
use seda_rust.Peers.Discovery.{DiscoveryStatus, Visit}

-- What the server asks of others.
pub data Action : Type 0 where
  dial : Multiaddr → Action
  get_closest_peers : PeerId → Action
  add_address : PeerId → Multiaddr → Action
  add_explicit_peer : PeerId → Action
  remove_peer : PeerId → Action
  disconnect_peer_id : PeerId → Action
  publish : List ℕ → Action
  send : Option String → List ℕ → Action

pub record P2PServer : Type 0 where
  pub actions : List Action
  pub discovery_status : DiscoveryStatus
  pub local_peer_id : PeerId

-- What one pass of the loop finds around it: the clock, as it stands when failed addresses are set aside
-- and later, when addresses are tried; the order in which maps are visited; and libp2p's parsers and
-- address book. A search tries its addresses at one time.
pub record Around : Type 0 where
  pub cooled_at : ℕ
  pub now : ℕ
  pub visit : Visit
  pub parse_multiaddr : String → Option Multiaddr
  pub parse_peer_id : String → Option PeerId
  pub addresses_of_peer : PeerId → List Multiaddr

unfoldable pub act : Action → P2PServer → P2PServer
act a s = record s { actions = s.actions ++ a ∷ [] }

abbrev pub with_status : DiscoveryStatus → P2PServer → P2PServer
with_status d s = record s { discovery_status = d }

unfoldable pub dial_peer : Multiaddr → P2PServer → P2PServer
dial_peer addr s = act (dial addr) s

-- A search that found a peer dials it; otherwise `exhausted` goes on.
abbrev pub dial_or :
    (P2PServer → Option P2PServer)
    → P2PServer
    → Option (Multiaddr × PeerInfo) × DiscoveryStatus
    → Option P2PServer
dial_or exhausted s (none, d) = exhausted (with_status d s)
dial_or exhausted s (some (addr, info), d) = some (dial_peer addr (with_status d s))

unfoldable pub ask_kademlia : P2PServer → Option P2PServer
ask_kademlia s = some (act (get_closest_peers s.local_peer_id) s)

-- The arms of `search_new_peer`, over the search that skips a method.
unfoldable pub search_by :
    (ConnectionType → P2PServer → Option P2PServer)
    → Around
    → ConnectionType
    → P2PServer
    → Option P2PServer
search_by again w manual s =
    dial_or (again manual) s (Discovery.get_next_manual_peer w.visit w.now s.discovery_status)
search_by again w mdns s =
    dial_or (again mdns) s (Discovery.get_next_mdns_peer w.visit w.now s.discovery_status)
search_by again w chain s = again chain s
search_by again w kademlia s =
    dial_or ask_kademlia s (Discovery.get_next_kademlia_peer w.visit w.now s.discovery_status)
search_by again w unset s = some s

-- Each search that goes on skips one method more, so that four rounds of `fuel` are enough.
unfoldable pub search_new_peer : ℕ → Around → Option ConnectionType → P2PServer → Option P2PServer
search_new_peer zero w skip s = none
search_new_peer (suc fuel) w skip s =
    search_by (λ t. search_new_peer fuel w (some t)) w
      (Discovery.get_current_discovery_method skip s.discovery_status) s

abbrev pub search_rounds : ℕ
search_rounds = 4

unfoldable pub search : Around → P2PServer → Option P2PServer
search w s = search_new_peer search_rounds w none s

unfoldable pub start : Around → P2PServer → Option P2PServer
start w s = search w s

-- What the loop receives. `transport_failed` is `DialError::Transport`, `other_error` any other
-- error of an outgoing connection, `other_event` what the loop ignores.
pub data Event : Type 0 where
  tick : Event
  connection_established : PeerId → Multiaddr → Event
  connection_closed : PeerId → Event
  transport_failed : List Multiaddr → Event
  other_error : Event
  gossip_message : Option String → List ℕ → Event
  mdns_discovered : List (PeerId × Multiaddr) → Event
  closest_peers : List PeerId → Event
  closest_peers_failed : Event
  other_event : Event
  broadcast : List ℕ → Event
  unicast : Event
  add_peer_command : String → Event
  remove_peer_command : String → Event
  discover_peers : Event

unfoldable pub fail_all : ℕ → List Multiaddr → DiscoveryStatus → DiscoveryStatus
fail_all now [] d = d
fail_all now (addr ∷ rest) d =
    fail_all now rest
      (Discovery.cooldown_addr now addr (Discovery.remove_connected_peer none (some addr) d))

unfoldable pub discover_all : List (PeerId × Multiaddr) → DiscoveryStatus → DiscoveryStatus
discover_all [] d = d
discover_all ((peer_id, addr) ∷ rest) d = discover_all rest (Discovery.add_mdns_peer addr peer_id d)

abbrev first_address : PeerId → List Multiaddr → DiscoveryStatus → DiscoveryStatus
first_address peer_id [] d = d
first_address peer_id (addr ∷ more) d = Discovery.add_kademlia_peer addr peer_id d

unfoldable pub found_closest :
    (PeerId → List Multiaddr) → List PeerId → DiscoveryStatus → DiscoveryStatus
found_closest addresses [] d = d
found_closest addresses (peer_id ∷ rest) d =
    found_closest addresses rest (first_address peer_id (addresses peer_id) d)

unfoldable pub established :
    Around → PeerId → Multiaddr → P2PServer → Option DiscoveryStatus → Option P2PServer
established w peer_id address s none = none
established w peer_id address s (some d) =
    search w (act (add_explicit_peer peer_id) (act (add_address peer_id address) (with_status d s)))

abbrev pub then_remove : PeerId → Option P2PServer → Option P2PServer
then_remove peer_id none = none
then_remove peer_id (some s) = some (act (remove_peer peer_id) s)

unfoldable pub add_peer_by : Around → Option Multiaddr → P2PServer → Option P2PServer
add_peer_by w none s = some s
add_peer_by w (some multi_addr) s =
    search w (with_status (Discovery.add_manual_peer multi_addr none s.discovery_status) s)

unfoldable pub remove_peer_by : Around → Option PeerId → P2PServer → Option P2PServer
remove_peer_by w none s = some s
remove_peer_by w (some peer_id) s =
    let asked = act (disconnect_peer_id peer_id) s in
    search w (
      with_status (Discovery.remove_connected_peer (some peer_id) none asked.discovery_status)
        asked)

-- One pass of the loop in `loop_stream`.
unfoldable pub handle : Around → Event → P2PServer → Option P2PServer
unfolding fail_all discover_all found_closest established add_peer_by remove_peer_by
handle w tick s = search w s
handle w (connection_established peer_id address) s =
    established w peer_id address s
      (Discovery.add_connected_peer address peer_id s.discovery_status)
handle w (connection_closed peer_id) s = then_remove peer_id (
    search w
      (with_status (Discovery.remove_connected_peer (some peer_id) none s.discovery_status) s))
handle w (transport_failed failed) s =
    search w (with_status (fail_all w.cooled_at failed s.discovery_status) s)
handle w other_error s = search w s
handle w (gossip_message source data_) s = some (act (send source data_) s)
handle w (mdns_discovered found) s =
    search w (with_status (discover_all found s.discovery_status) s)
handle w (closest_peers peers) s =
    some (with_status (found_closest w.addresses_of_peer peers s.discovery_status) s)
handle w closest_peers_failed s = some s
handle w other_event s = some s
handle w (broadcast data_) s = some (act (publish data_) s)
handle w unicast s = none
handle w (add_peer_command multi_addr) s = add_peer_by w (w.parse_multiaddr multi_addr) s
handle w (remove_peer_command peer_id) s = remove_peer_by w (w.parse_peer_id peer_id) s
handle w discover_peers s = search w s
