-- ===== src/Peers/Discovery.antt =====
-- p2p/src/libp2p/discovery_status.rs: which peer to try next. `now` is the system's time; an `i32` is
-- its 32-bit pattern, and `usize` has 64 bits.
pub mod Next
use seda_rust.Base.{
  ℕ, ◌+◌, ◌-◌, ◌%◌, ◌^◌, Bool, true, false, not, ◌&&◌, Option, none, some, List, [], ◌∷◌, string_eq,
  length, eqb, ltb, leb, if◌then◌else◌, i32_mod, i32_as_usize, unwrap_or,
}
use seda_rust.Base.HashMap
use seda_rust.Base.HashMap.{HashMap}
use seda_rust.Peers.PeerList
use seda_rust.Peers.PeerList.{
  PeerList, PeerInfo, ConnectionType, unset, manual, mdns, chain, kademlia, rank, Multiaddr, PeerId,
}

-- The signed order on 32-bit patterns.
unfoldable pub leb_i32 : ℕ → ℕ → Bool
leb_i32 a b = leb ((a + 2 ^ 31) % i32_mod) ((b + 2 ^ 31) % i32_mod)

pub record P2PConfig : Type 0 where
  pub disable_mdns : Bool
  pub max_mdns_peers : ℕ
  pub out_peers : ℕ
  pub disable_manual_peers : Bool
  pub max_manual_peers : ℕ
  pub max_kademlia_peers : ℕ
  pub disable_kademlia_peers : Bool
  pub cooldown_duration : ℕ

pub record DiscoveryStatus : Type 0 where
  pub p2p_config : P2PConfig
  pub connected_peers : PeerList
  pub cooldown_addrs : HashMap Multiaddr ℕ
  pub found_manual_peers : PeerList
  pub found_chain_peers : PeerList
  pub found_mdns_peers : PeerList
  pub found_kademlia_peers : PeerList

unfoldable pub new : P2PConfig → PeerList → DiscoveryStatus
new p2p_config initial_manual_peers = record {
  p2p_config = p2p_config;
  found_manual_peers = initial_manual_peers;
  found_chain_peers = PeerList.default;
  found_mdns_peers = PeerList.default;
  found_kademlia_peers = PeerList.default;
  connected_peers = PeerList.default;
  cooldown_addrs = [];
}

unfoldable pub count_type : ConnectionType → List (Multiaddr × PeerInfo) → ℕ
count_type t [] = 0
count_type t ((addr, info) ∷ rest) =
    (if eqb (rank info.conn_type) (rank t) then 1 else 0) + count_type t rest

unfoldable pub get_connected_len_by_type : ConnectionType → DiscoveryStatus → ℕ
unfolding count_type
get_connected_len_by_type t s = count_type t (PeerList.get_all_info s.connected_peers)

unfoldable pub get_connected_list : DiscoveryStatus → PeerList
get_connected_list s = s.connected_peers

-- What an address in `cooldown_addrs` means for its use.
cooled : ℕ → Multiaddr → DiscoveryStatus → Option ℕ → Bool × DiscoveryStatus
cooled now addr s none = (true, s)
cooled now addr s (some since) =
    if ltb (since + s.p2p_config.cooldown_duration) now
    then (true, record s { cooldown_addrs = HashMap.remove s.cooldown_addrs addr })
    else (false, s)

unfoldable pub is_unused_addr : ℕ → Multiaddr → DiscoveryStatus → Bool × DiscoveryStatus
unfolding cooled
is_unused_addr now addr s =
    if PeerList.has_addr addr s.connected_peers
    then (false, s)
    else cooled now addr s (HashMap.get s.cooldown_addrs addr)

unfoldable pub get_current_discovery_method :
    Option ConnectionType → DiscoveryStatus → ConnectionType
get_current_discovery_method skip s =
    let after = rank (unwrap_or skip unset) in
    let c = s.p2p_config in
    if leb_i32 c.out_peers (PeerList.length s.connected_peers % i32_mod)
    then unset
    else if not c.disable_manual_peers
        && ltb (get_connected_len_by_type manual s) (i32_as_usize c.max_manual_peers)
        && ltb after (rank manual)
    then manual
    else if not c.disable_mdns
        && ltb (get_connected_len_by_type mdns s) (i32_as_usize c.max_mdns_peers)
        && ltb after (rank mdns)
    then mdns
    else if not c.disable_kademlia_peers
        && ltb (get_connected_len_by_type kademlia s) (i32_as_usize c.max_kademlia_peers)
        && ltb after (rank kademlia)
    then kademlia
    else unset

unfoldable pub cooldown_addr : ℕ → Multiaddr → DiscoveryStatus → DiscoveryStatus
cooldown_addr now addr s = record s { cooldown_addrs = HashMap.insert s.cooldown_addrs addr now }

abbrev connect : DiscoveryStatus → Option PeerList → Option DiscoveryStatus
connect s none = none
connect s (some l) = some (record s { connected_peers = l })

unfoldable pub add_connected_peer : Multiaddr → PeerId → DiscoveryStatus → Option DiscoveryStatus
add_connected_peer addr peer_id s = connect s (PeerList.set_peer_id addr peer_id s.connected_peers)

-- Only chain, Kademlia and mDNS peers are forgotten by their source too.
abbrev forget : (PeerList → PeerList) → ConnectionType → DiscoveryStatus → DiscoveryStatus
forget drop chain s = record s { found_chain_peers = drop s.found_chain_peers }
forget drop kademlia s = record s { found_kademlia_peers = drop s.found_kademlia_peers }
forget drop mdns s = record s { found_mdns_peers = drop s.found_mdns_peers }
forget drop manual s = s
forget drop unset s = s

unfoldable pub forget_by_id :
    PeerId → Option (Multiaddr × PeerInfo) → DiscoveryStatus → DiscoveryStatus
forget_by_id peer_id none s = s
forget_by_id peer_id (some (addr, info)) s =
    forget (PeerList.remove_peer_by_id peer_id) info.conn_type s

unfoldable pub forget_by_addr : Multiaddr → Option PeerInfo → DiscoveryStatus → DiscoveryStatus
forget_by_addr addr none s = s
forget_by_addr addr (some info) s = forget (PeerList.remove_peer_by_addr addr) info.conn_type s

unfoldable pub remove_by_id : Option PeerId → DiscoveryStatus → DiscoveryStatus
unfolding forget_by_id
remove_by_id none s = s
remove_by_id (some peer_id) s =
    let s' = forget_by_id peer_id (PeerList.get_peer_by_id peer_id s.connected_peers) s in
    record s' { connected_peers = PeerList.remove_peer_by_id peer_id s'.connected_peers }

unfoldable pub remove_by_addr : Option Multiaddr → DiscoveryStatus → DiscoveryStatus
unfolding forget_by_addr
remove_by_addr none s = s
remove_by_addr (some addr) s =
    let s' = forget_by_addr addr (PeerList.get_peer_by_addr addr s.connected_peers) s in
    record s' { connected_peers = PeerList.remove_peer_by_addr addr s'.connected_peers }

unfoldable pub remove_connected_peer :
    Option PeerId → Option Multiaddr → DiscoveryStatus → DiscoveryStatus
unfolding remove_by_id remove_by_addr
remove_connected_peer peer_id address s = remove_by_addr address (remove_by_id peer_id s)

-- The loop of `get_next_manual_peer` and its two siblings, over the entries in the order visited.
unfoldable pub next_peer :
    ConnectionType
    → ℕ
    → List (Multiaddr × PeerInfo)
    → DiscoveryStatus
    → Option (Multiaddr × PeerInfo) × DiscoveryStatus
next_peer t now [] s = (none, s)
next_peer t now ((addr, info) ∷ rest) s =
    let (unused, s') = is_unused_addr now addr s in
    let later = next_peer t now rest s' in
    if unused
    then (
      some (addr, info),
      record s' { connected_peers = PeerList.add_peer addr info.peer_id t s'.connected_peers },
    )
    else later

abbrev pub Visit : Type 0
Visit = List (Multiaddr × PeerInfo) → List (Multiaddr × PeerInfo)

unfoldable pub get_next_manual_peer :
    Visit → ℕ → DiscoveryStatus → Option (Multiaddr × PeerInfo) × DiscoveryStatus
get_next_manual_peer visit now s =
    next_peer manual now (visit (PeerList.get_all_info s.found_manual_peers)) s

unfoldable pub add_mdns_peer : Multiaddr → PeerId → DiscoveryStatus → DiscoveryStatus
add_mdns_peer addr peer_id s = record s {
  found_mdns_peers = PeerList.add_peer addr (some peer_id) mdns s.found_mdns_peers;
}

unfoldable pub get_next_mdns_peer :
    Visit → ℕ → DiscoveryStatus → Option (Multiaddr × PeerInfo) × DiscoveryStatus
get_next_mdns_peer visit now s =
    next_peer mdns now (visit (PeerList.get_all_info s.found_mdns_peers)) s

unfoldable pub add_kademlia_peer : Multiaddr → PeerId → DiscoveryStatus → DiscoveryStatus
add_kademlia_peer addr peer_id s = record s {
  found_kademlia_peers = PeerList.add_peer addr (some peer_id) kademlia s.found_kademlia_peers;
}

unfoldable pub get_next_kademlia_peer :
    Visit → ℕ → DiscoveryStatus → Option (Multiaddr × PeerInfo) × DiscoveryStatus
get_next_kademlia_peer visit now s =
    next_peer kademlia now (visit (PeerList.get_all_info s.found_kademlia_peers)) s

unfoldable pub add_manual_peer : Multiaddr → Option PeerId → DiscoveryStatus → DiscoveryStatus
add_manual_peer addr peer_id s = record s {
  found_kademlia_peers = PeerList.add_peer addr peer_id kademlia s.found_kademlia_peers;
}
