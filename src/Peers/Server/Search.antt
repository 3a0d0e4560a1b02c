-- ===== src/Peers/Server/Search.antt =====
-- The search for one more peer, in p2p/src/libp2p/mod.rs.
use seda_rust.Base.{
  ℕ, zero, suc, ◌+◌, ◌≤◌, ◌<◌, ◌≡◌, ◌≢◌, refl, sym, ap, ◌∙◌, arith, true, false, Option, none, some,
  [], ◌∷◌, ◌++◌, unwrap_or,
}
use seda_rust.Peers.PeerList.{
  ConnectionType, PeerInfo, unset, manual, mdns, chain, kademlia, rank, Multiaddr,
}
use seda_rust.Peers.Discovery.{
  DiscoveryStatus, get_current_discovery_method, get_next_manual_peer, get_next_mdns_peer,
  get_next_kademlia_peer,
}
use seda_rust.Peers.Discovery.Next.{
  Calm, Calm-refl, Calm-trans, Taken, NextOutcome, NextOutcome-step, next_peer-NextOutcome, full,
  allowed, get_current_discovery_method-first,
}
use seda_rust.Peers.Server.{
  P2PServer, Around, dial, get_closest_peers, act, dial_peer, dial_or, ask_kademlia, search_by,
  search_new_peer, search, search_rounds, with_status,
}

-- What one search does: nothing, one question to Kademlia, or one peer dialled that was available
-- while peers were wanted.
pub data Searched (now : ℕ) (s s' : P2PServer) : Type 0 where
  quiet :
      s'.actions ≡ s.actions
      → s'.local_peer_id ≡ s.local_peer_id
      → Calm now s.discovery_status s'.discovery_status
      → Searched now s s'
  asked :
      s'.actions ≡ s.actions ++ get_closest_peers s.local_peer_id ∷ []
      → s'.local_peer_id ≡ s.local_peer_id
      → Calm now s.discovery_status s'.discovery_status
      → Searched now s s'
  dialled :
      (addr : Multiaddr) (info : PeerInfo) (t : ConnectionType)
      → s'.actions ≡ s.actions ++ dial addr ∷ []
      → s'.local_peer_id ≡ s.local_peer_id
      → full s.discovery_status ≡ false
      → Taken t now s.discovery_status addr info s'.discovery_status
      → Searched now s s'

abbrev pub Done : ℕ → P2PServer → Option P2PServer → Type 0
Done now s r = (s' : P2PServer) × (r ≡ some s') × Searched now s s'

-- What `s1` may be when the search goes on from it.
abbrev GoesOn : ℕ → P2PServer → P2PServer → Type 0
GoesOn now s s1 =
    (s1.actions ≡ s.actions)
    × (s1.local_peer_id ≡ s.local_peer_id)
    × Calm now s.discovery_status s1.discovery_status

full-GoesOn :
    (now : ℕ) (s s1 : P2PServer)
    → GoesOn now s s1
    → full s1.discovery_status ≡ full s.discovery_status
unfolding full
full-GoesOn now s s1 (a, l, (config, connected, _, _, _, _)) = rw (config, connected) refl

Done-GoesOn :
    (now : ℕ) (s s1 : P2PServer) (r : Option P2PServer)
    → GoesOn now s s1
    → Done now s1 r
    → Done now s r
Done-GoesOn now s s1 r (a, l, calm) (s', e, quiet b m c) =
    (s', e, quiet (b ∙ a) (m ∙ l) (Calm-trans now _ _ _ calm c))
Done-GoesOn now s s1 r (a, l, calm) (s', e, asked b m c) =
    (s', e, asked (rw (← a, ← l) b) (m ∙ l) (Calm-trans now _ _ _ calm c))
Done-GoesOn now s s1 r (a, l, calm) (s', e, dialled addr info t b m f (free, taken, config)) = (
  s',
  e,
  dialled addr info t (rw (← a) b) (m ∙ l) (sym (full-GoesOn now s s1 (a, l, calm)) ∙ f) (
      NextOutcome-step t now _ _ (some (addr, info), s'.discovery_status) calm
        (free, taken, config)),
)

dial_or-Done :
    (now : ℕ) (t : ConnectionType) (s : P2PServer) (exhausted : P2PServer → Option P2PServer)
    (r : Option (Multiaddr × PeerInfo) × DiscoveryStatus)
    → full s.discovery_status ≡ false
    → ((s1 : P2PServer) → GoesOn now s s1 → Done now s1 (exhausted s1))
    → NextOutcome t now s.discovery_status r
    → Done now s (dial_or exhausted s r)
unfolding dial_peer act
dial_or-Done now t s exhausted (none, d) f on calm =
    Done-GoesOn now s (with_status d s) _ (refl, refl, calm)
      (on (with_status d s) (refl, refl, calm))
dial_or-Done now t s exhausted (some (addr, info), d) f on taken =
    (_, refl, dialled addr info t refl refl f taken)

search_by-Done :
    (w : Around) (t : ConnectionType) (s : P2PServer)
    (again : ConnectionType → P2PServer → Option P2PServer)
    → (t ≢ unset → (full s.discovery_status ≡ false) × (allowed t s.discovery_status ≡ true))
    → (0 < rank t → rank t < 3 → (s1 : P2PServer) → Done w.now s1 (again t s1))
    → Done w.now s (search_by again w t s)
unfolding search_by allowed ask_kademlia act get_next_manual_peer get_next_mdns_peer
    get_next_kademlia_peer
search_by-Done w unset s again wanted on =
    (s, refl, quiet refl refl (Calm-refl w.now s.discovery_status))
search_by-Done w chain s again wanted on = cc ((wanted (λ e. cc)).1)
search_by-Done w manual s again wanted on =
    dial_or-Done w.now manual s (again manual) _ ((wanted (λ e. cc)).0)
      (λ s1 g. on (omega arith) (omega arith) s1)
      (next_peer-NextOutcome manual w.now _ s.discovery_status)
search_by-Done w mdns s again wanted on =
    dial_or-Done w.now mdns s (again mdns) _ ((wanted (λ e. cc)).0)
      (λ s1 g. on (omega arith) (omega arith) s1)
      (next_peer-NextOutcome mdns w.now _ s.discovery_status)
search_by-Done w kademlia s again wanted on =
    dial_or-Done w.now kademlia s ask_kademlia _ ((wanted (λ e. cc)).0)
      (λ s1 g. (_, refl, asked refl refl (Calm-refl w.now s1.discovery_status)))
      (next_peer-NextOutcome kademlia w.now _ s.discovery_status)

rank_pos : (t : ConnectionType) → 0 < rank t → t ≢ unset
rank_pos t low e = omega (arith, ap rank e)

-- The search ends within the rounds given, when there is one for every method not yet skipped.
search_new_peer-Done :
    (fuel : ℕ) (w : Around) (skip : Option ConnectionType) (s : P2PServer)
    → 3 ≤ fuel + rank (unwrap_or skip unset)
    → 1 ≤ fuel
    → Done w.now s (search_new_peer fuel w skip s)
unfolding search_new_peer
search_new_peer-Done zero w skip s enough one = absurd (omega arith)
search_new_peer-Done (suc fuel) w skip s enough one =
    let method = get_current_discovery_method skip s.discovery_status in
    let first = (get_current_discovery_method-first skip s.discovery_status unset).0 in
    let after = λ (low : 0 < rank method). (first (rank_pos method low)).2 in
    search_by-Done w method s (λ t. search_new_peer fuel w (some t))
      (λ set. let (f, a, r) = first set in (f, a))
      (λ low high s1.
        let later = after low in
        search_new_peer-Done fuel w (some method) s1 (omega arith) (omega arith))

-- Every search ends, and does at most one thing: it dials one peer, at an address that
-- was neither among those of the connected peers nor cooling down and then is among them, and only while
-- fewer of the connected peers than `out_peers` have a known identity, whatever is being dialled without
-- one; or it asks Kademlia for peers close to this one; or nothing.
pub search-Done : (w : Around) (s : P2PServer) → Done w.now s (search w s)
unfolding search
search-Done w s = search_new_peer-Done search_rounds w none s (omega arith) (omega arith)
