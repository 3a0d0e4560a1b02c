-- ===== src/Peers/Server/Manual.antt =====
-- Peers that are added by a command, in p2p/src/libp2p/mod.rs and discovery_status.rs.
use seda_rust.Base.{
  ℕ, zero, suc, ◌+◌, ◌≤◌, ◌<◌, ◌≡◌, ◌≢◌, refl, ap, arith, true, Option, none, some, [], String,
  string_eq, unwrap_or,
}
use seda_rust.Peers.PeerList.{
  ConnectionType, unset, manual, mdns, chain, kademlia, rank, Multiaddr, get_all_info,
}
use seda_rust.Peers.Discovery.{
  DiscoveryStatus, Visit, add_manual_peer, get_current_discovery_method, get_next_manual_peer,
  get_next_mdns_peer, next_peer,
}
use seda_rust.Peers.Discovery.Next.{allowed, get_current_discovery_method-first}
use seda_rust.Peers.Server.{
  P2PServer, Around, search_by, search_new_peer, search, with_status, handle, add_peer_command,
  add_peer_by,
}

-- Nothing to dial: no manual or mDNS peer is known, and Kademlia is disabled.
abbrev pub NoCandidates : Visit → DiscoveryStatus → Type 0
NoCandidates visit d =
    (visit (get_all_info d.found_manual_peers) ≡ [])
    × (visit (get_all_info d.found_mdns_peers) ≡ [])
    × (d.p2p_config.disable_kademlia_peers ≡ true)

search_by-nothing :
    (w : Around) (t : ConnectionType) (s : P2PServer)
    (again : ConnectionType → P2PServer → Option P2PServer)
    → NoCandidates w.visit s.discovery_status
    → (t ≢ unset → allowed t s.discovery_status ≡ true)
    → (0 < rank t → rank t < 3 → again t s ≡ some s)
    → search_by again w t s ≡ some s
unfolding search_by allowed get_next_manual_peer get_next_mdns_peer next_peer
search_by-nothing w unset s again (a, b, c) wanted on = refl
search_by-nothing w manual s again (a, b, c) wanted on = rw (a) (on (omega arith) (omega arith))
search_by-nothing w mdns s again (a, b, c) wanted on = rw (b) (on (omega arith) (omega arith))
search_by-nothing w chain s again (a, b, c) wanted on = cc (wanted (λ e. cc))
search_by-nothing w kademlia s again (a, b, c) wanted on =
    let allows = wanted (λ e. cc) in ground arith

search_new_peer-nothing :
    (fuel : ℕ) (w : Around) (skip : Option ConnectionType) (s : P2PServer)
    → NoCandidates w.visit s.discovery_status
    → 3 ≤ fuel + rank (unwrap_or skip unset)
    → 1 ≤ fuel
    → search_new_peer fuel w skip s ≡ some s
unfolding search_new_peer
search_new_peer-nothing zero w skip s h enough one = absurd (omega arith)
search_new_peer-nothing (suc fuel) w skip s h enough one =
    let method = get_current_discovery_method skip s.discovery_status in
    let first = (get_current_discovery_method-first skip s.discovery_status unset).0 in
    search_by-nothing w method s (λ t. search_new_peer fuel w (some t)) h (λ set. (first set).1)
      (λ low high.
        let later = (first (λ e. omega (arith, ap rank e))).2 in
        search_new_peer-nothing fuel w (some method) s h (omega arith) (omega arith))

pub handle-add_peer_command :
    (w : Around) (text : String) (addr : Multiaddr) (s : P2PServer)
    → w.parse_multiaddr text ≡ some addr
    → NoCandidates w.visit s.discovery_status
    → handle w (add_peer_command text) s
      ≡ some (with_status (add_manual_peer addr none s.discovery_status) s)
unfolding handle add_peer_by search add_manual_peer
handle-add_peer_command w text addr s parsed h = rw (parsed) (
    search_new_peer-nothing 4 w none (with_status (add_manual_peer addr none s.discovery_status) s)
      h (omega arith) (omega arith))
