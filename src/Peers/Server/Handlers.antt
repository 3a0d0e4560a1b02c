-- ===== src/Peers/Server/Handlers.antt =====
-- What the events and commands of p2p/src/libp2p/mod.rs come to.
use seda_rust.Base.{
  ◌≡◌, refl, sym, ◌∙◌, arith, Bool, true, false, not, Option, none, some, string_eq, is_some,
}
use seda_rust.Base.HashMap
use seda_rust.Base.HashMap.{get, insert, remove, get-insert, get-remove}
use seda_rust.Peers.PeerList.{Multiaddr, has_addr, set_peer_id, PeerId}
use seda_rust.Peers.Discovery.{DiscoveryStatus, add_connected_peer}
use seda_rust.Peers.Server.{
  P2PServer, Around, Event, search, handle, tick, connection_established, connection_closed,
  transport_failed, other_error, gossip_message, mdns_discovered, closest_peers,
  closest_peers_failed, other_event, broadcast, unicast, add_peer_command, remove_peer_command,
  discover_peers, established, then_remove, add_peer_by, remove_peer_by,
}
use seda_rust.Peers.Server.Search.{search-Done}

-- The events on which the loop panics: a command to send to one peer, which is not implemented, and a
-- connection to an address that no search has dialled.
unfoldable pub panics_on : Event → P2PServer → Bool
panics_on unicast s = true
panics_on (connection_established peer_id address) s =
    not (has_addr address s.discovery_status.connected_peers)
panics_on _ s = false

search-is_some : (w : Around) (s : P2PServer) → is_some (search w s) ≡ true
search-is_some w s = let (s', e, done) = search-Done w s in rw (e) refl

established-is_some :
    (w : Around) (peer_id : PeerId) (address : Multiaddr) (s : P2PServer)
    (o : Option DiscoveryStatus)
    → is_some (established w peer_id address s o) ≡ is_some o
unfolding established
established-is_some w peer_id address s none = refl
established-is_some w peer_id address s (some d) = search-is_some w _

add_connected_peer-is_some :
    (addr : Multiaddr) (peer_id : PeerId) (d : DiscoveryStatus)
    → is_some (add_connected_peer addr peer_id d) ≡ has_addr addr d.connected_peers
unfolding add_connected_peer set_peer_id has_addr HashMap.contains_key
add_connected_peer-is_some addr peer_id d = ground arith

not-not : (b : Bool) → not (not b) ≡ b
not-not true = refl
not-not false = refl

then_remove-is_some :
    (peer_id : PeerId) (o : Option P2PServer) → is_some (then_remove peer_id o) ≡ is_some o
then_remove-is_some peer_id none = refl
then_remove-is_some peer_id (some s) = refl

add_peer_by-is_some :
    (w : Around) (o : Option Multiaddr) (s : P2PServer) → is_some (add_peer_by w o s) ≡ true
unfolding add_peer_by
add_peer_by-is_some w none s = refl
add_peer_by-is_some w (some addr) s = search-is_some w _

remove_peer_by-is_some :
    (w : Around) (o : Option PeerId) (s : P2PServer) → is_some (remove_peer_by w o s) ≡ true
unfolding remove_peer_by
remove_peer_by-is_some w none s = refl
remove_peer_by-is_some w (some addr) s = search-is_some w _

-- One pass of the loop panics on those events and on no other.
pub handle-panics_on :
    (w : Around) (e : Event) (s : P2PServer) → is_some (handle w e s) ≡ not (panics_on e s)
unfolding handle panics_on
handle-panics_on w tick s = search-is_some w s
handle-panics_on w (connection_established peer_id address) s =
    established-is_some w peer_id address s _
    ∙ add_connected_peer-is_some address peer_id s.discovery_status
    ∙ sym (not-not _)
handle-panics_on w (connection_closed peer_id) s =
    then_remove-is_some peer_id _ ∙ search-is_some w _
handle-panics_on w (transport_failed failed) s = search-is_some w _
handle-panics_on w other_error s = search-is_some w s
handle-panics_on w (gossip_message source bytes) s = refl
handle-panics_on w (mdns_discovered found) s = search-is_some w _
handle-panics_on w (closest_peers peers) s = refl
handle-panics_on w closest_peers_failed s = refl
handle-panics_on w other_event s = refl
handle-panics_on w (broadcast bytes) s = refl
handle-panics_on w unicast s = refl
handle-panics_on w (add_peer_command text) s = add_peer_by-is_some w (w.parse_multiaddr text) s
handle-panics_on w (remove_peer_command peer_id) s =
    remove_peer_by-is_some w (w.parse_peer_id peer_id) s
handle-panics_on w discover_peers s = search-is_some w s
