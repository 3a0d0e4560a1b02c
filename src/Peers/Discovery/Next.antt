-- ===== src/Peers/Discovery/Next.antt =====
-- Choosing the next peer to dial, in p2p/src/libp2p/discovery_status.rs.
use seda_rust.Base.{
  i32_mod, i32_as_usize, ℕ, ◌+◌, ◌<◌, ◌≤◌, ◌%◌, ◌≡◌, ◌≢◌, inl, inr, refl, sym, ◌∙◌, arith, Bool,
  true, false, not, ◌&&◌, Option, none, some, List, [], ◌∷◌, string_eq, ltb, if◌then◌else◌,
  unwrap_or, Bool-cases, ap,
}
use seda_rust.Base.HashMap
use seda_rust.Base.HashMap.{get, insert, remove, get-insert, get-remove}
use seda_rust.Peers.PeerList
use seda_rust.Peers.PeerList.{
  PeerList, PeerInfo, ConnectionType, unset, manual, mdns, chain, kademlia, rank, Multiaddr, PeerId,
  has_addr, add_peer,
}
use seda_rust.Peers.Discovery.{
  DiscoveryStatus, is_unused_addr, next_peer, get_current_discovery_method, leb_i32,
  get_connected_len_by_type,
}

fresh : ℕ → ℕ → Option ℕ → Bool
fresh now cooldown none = true
fresh now cooldown (some since) = ltb (since + cooldown) now

-- An address may be dialled when it is not connected and not cooling down.
unfoldable pub available : ℕ → Multiaddr → DiscoveryStatus → Bool
unfolding fresh
available now addr d =
    if has_addr addr d.connected_peers
    then false
    else fresh now d.p2p_config.cooldown_duration (HashMap.get d.cooldown_addrs addr)

-- Nothing changed but cooldowns that had ended.
abbrev pub Calm : ℕ → DiscoveryStatus → DiscoveryStatus → Type 0
Calm now d d' =
    (d'.p2p_config ≡ d.p2p_config)
    × (d'.connected_peers ≡ d.connected_peers)
    × (d'.found_manual_peers ≡ d.found_manual_peers)
    × (d'.found_mdns_peers ≡ d.found_mdns_peers)
    × (d'.found_kademlia_peers ≡ d.found_kademlia_peers)
    × ((addr : Multiaddr) → available now addr d' ≡ available now addr d)

pub Calm-refl : (now : ℕ) (d : DiscoveryStatus) → Calm now d d
Calm-refl now d = (refl, refl, refl, refl, refl, λ addr. refl)

pub Calm-trans :
    (now : ℕ) (d d' d'' : DiscoveryStatus) → Calm now d d' → Calm now d' d'' → Calm now d d''
Calm-trans now d d' d'' (a, b, c, e, f, g) (a', b', c', e', f', g') =
    (a' ∙ a, b' ∙ b, c' ∙ c, e' ∙ e, f' ∙ f, λ addr. g' addr ∙ g addr)

expired :
    (now : ℕ) (addr : Multiaddr) (d : DiscoveryStatus)
    → available now addr d ≡ true
    → Calm now d (record d { cooldown_addrs = HashMap.remove d.cooldown_addrs addr })
unfolding available
expired now addr d h = (
  refl,
  refl,
  refl,
  refl,
  refl,
  λ other. ground (arith, get-remove d.cooldown_addrs addr other, string_eq.beq_iff addr other),
)

pub is_unused_addr-available :
    (now : ℕ) (addr : Multiaddr) (d : DiscoveryStatus)
    → ((is_unused_addr now addr d).0 ≡ available now addr d)
      × Calm now d (is_unused_addr now addr d).1
unfolding is_unused_addr available
is_unused_addr-available now addr d = ground (arith, expired now addr d, Calm-refl now d)

-- What a pass over the candidates comes to: none is available and nothing changed, or one that is
-- available is taken, and it is connected as a peer of type `t`.
abbrev pub Taken :
    ConnectionType → ℕ → DiscoveryStatus → Multiaddr → PeerInfo → DiscoveryStatus → Type 0
Taken t now d addr info d' =
    (available now addr d ≡ true)
    × (d'.connected_peers ≡ add_peer addr info.peer_id t d.connected_peers)
    × (d'.p2p_config ≡ d.p2p_config)

abbrev pub NextOutcome :
    ConnectionType → ℕ → DiscoveryStatus → Option (Multiaddr × PeerInfo) × DiscoveryStatus → Type 0
NextOutcome t now d (none, d') = Calm now d d'
NextOutcome t now d (some (addr, info), d') = Taken t now d addr info d'

pub NextOutcome-step :
    (t : ConnectionType) (now : ℕ) (d d' : DiscoveryStatus)
    (r : Option (Multiaddr × PeerInfo) × DiscoveryStatus)
    → Calm now d d'
    → NextOutcome t now d' r
    → NextOutcome t now d r
NextOutcome-step t now d d' (none, e) calm next = Calm-trans now d d' e calm next
NextOutcome-step t now d d' (some (addr, info), e) (a, b, _, _, _, same) (free, taken, config) =
    (sym (same addr) ∙ free, rw (← b) taken, config ∙ a)

pub next_peer-NextOutcome :
    (t : ConnectionType) (now : ℕ) (candidates : List (Multiaddr × PeerInfo)) (d : DiscoveryStatus)
    → NextOutcome t now d (next_peer t now candidates d)
unfolding next_peer
next_peer-NextOutcome t now [] d = Calm-refl now d
next_peer-NextOutcome t now ((addr, info) ∷ rest) d =
    let (same, calm) = is_unused_addr-available now addr d in
    elim (Bool-cases (is_unused_addr now addr d).0) [
      | inl unused ↦
          rw (unused) (sym same ∙ unused, ap (add_peer addr info.peer_id t) calm.1, calm.0)
      | inr used ↦ rw (used) (
          NextOutcome-step t now d (is_unused_addr now addr d).1
            (next_peer t now rest (is_unused_addr now addr d).1) calm
            (next_peer-NextOutcome t now rest (is_unused_addr now addr d).1))
    ]

-- A method is allowed when it is enabled and its peers are below their limit.
unfoldable pub allowed : ConnectionType → DiscoveryStatus → Bool
allowed unset d = false
allowed chain d = false
allowed manual d =
    not d.p2p_config.disable_manual_peers
    && ltb (get_connected_len_by_type manual d) (i32_as_usize d.p2p_config.max_manual_peers)
allowed mdns d =
    not d.p2p_config.disable_mdns
    && ltb (get_connected_len_by_type mdns d) (i32_as_usize d.p2p_config.max_mdns_peers)
allowed kademlia d =
    not d.p2p_config.disable_kademlia_peers
    && ltb (get_connected_len_by_type kademlia d) (i32_as_usize d.p2p_config.max_kademlia_peers)

unfoldable pub full : DiscoveryStatus → Bool
full d = leb_i32 d.p2p_config.out_peers (PeerList.length d.connected_peers % i32_mod)

-- The method chosen is allowed and comes after those to be skipped, while peers are wanted at all; and
-- no method that is allowed and not skipped comes before it.
pub get_current_discovery_method-first :
    (skip : Option ConnectionType) (d : DiscoveryStatus) (t : ConnectionType)
    → (get_current_discovery_method skip d ≢ unset
        → (full d ≡ false)
          × (allowed (get_current_discovery_method skip d) d ≡ true)
          × (rank (unwrap_or skip unset) < rank (get_current_discovery_method skip d)))
      × (full d ≡ false
          → allowed t d ≡ true
          → rank (unwrap_or skip unset) < rank t
          → (get_current_discovery_method skip d ≢ unset)
            × (rank (get_current_discovery_method skip d) ≤ rank t))
unfolding get_current_discovery_method allowed full
get_current_discovery_method-first skip d t = elim t [
  | unset ↦ ground arith
  | manual ↦ ground arith
  | mdns ↦ ground arith
  | chain ↦ ground arith
  | kademlia ↦ ground arith
]
