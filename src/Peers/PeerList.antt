-- ===== src/Peers/PeerList.antt =====
-- p2p/src/libp2p/peer_list.rs: peers by address and by identity. Addresses and identities are
-- libp2p's types, which the code only compares and prints: they stand here as their texts.
use seda_rust.Base.{
  ℕ, Bool, Option, none, some, List, [], ◌∷◌, String, string_eq, length as entry_count, eqb,
}
use seda_rust.Base.HashMap
use seda_rust.Base.HashMap.{HashMap}

abbrev pub Multiaddr : Type 0
Multiaddr = String

abbrev pub PeerId : Type 0
PeerId = String

pub data ConnectionType : Type 0 where
  unset manual mdns chain kademlia : ConnectionType

-- The derived order, which is that of the variants; `unset` is the source's `None`, below all others.
abbrev pub rank : ConnectionType → ℕ
rank unset = 0
rank manual = 1
rank mdns = 2
rank chain = 3
rank kademlia = 4

pub record PeerInfo : Type 0 where
  pub peer_id : Option PeerId
  pub conn_type : ConnectionType

pub record PeerList : Type 0 where
  pub addr_to_peer : HashMap Multiaddr PeerInfo
  pub peer_to_addr : HashMap PeerId Multiaddr

abbrev pub default : PeerList
default = record { addr_to_peer = []; peer_to_addr = [] }

-- `Multiaddr::from_str` is libp2p's: `parse`. An address that does not parse panics: `none`.
unfoldable pub insert_manual :
    (String → Option Multiaddr)
    → List String
    → HashMap Multiaddr PeerInfo
    → Option (HashMap Multiaddr PeerInfo)
insert_manual parse [] m = some m
insert_manual parse (text ∷ texts) m = elim (parse text) [
  | none ↦ none
  | some addr ↦
      insert_manual parse texts
        (HashMap.insert m addr (record { peer_id = none; conn_type = manual }))
]

abbrev listed : Option (HashMap Multiaddr PeerInfo) → Option PeerList
listed none = none
listed (some m) = some (record { addr_to_peer = m; peer_to_addr = [] })

unfoldable pub from_vec : (String → Option Multiaddr) → List String → Option PeerList
unfolding insert_manual
from_vec parse unparsed_multi_addresses = listed (insert_manual parse unparsed_multi_addresses [])

unfoldable pub length : PeerList → ℕ
length l = entry_count l.peer_to_addr

unfoldable pub is_empty : PeerList → Bool
is_empty l = eqb (entry_count l.peer_to_addr) 0

abbrev index_peer : Option PeerId → Multiaddr → HashMap PeerId Multiaddr → HashMap PeerId Multiaddr
index_peer none addr m = m
index_peer (some peer) addr m = HashMap.insert m peer addr

unfoldable pub add_peer : Multiaddr → Option PeerId → ConnectionType → PeerList → PeerList
add_peer multi_addr peer_id conn_type l = record {
  addr_to_peer =
      HashMap.insert l.addr_to_peer multi_addr
        (record { peer_id = peer_id; conn_type = conn_type });
  peer_to_addr = index_peer peer_id multi_addr l.peer_to_addr;
}

abbrev with_addr : Multiaddr → Option PeerInfo → Option (Multiaddr × PeerInfo)
with_addr addr none = none
with_addr addr (some info) = some (addr, info)

unfoldable pub get_peer_by_id : PeerId → PeerList → Option (Multiaddr × PeerInfo)
get_peer_by_id peer_id l = elim (HashMap.get l.peer_to_addr peer_id) [
  | none ↦ none
  | some addr ↦ with_addr addr (HashMap.get l.addr_to_peer addr)
]

unfoldable pub get_peer_by_addr : Multiaddr → PeerList → Option PeerInfo
get_peer_by_addr addr l = HashMap.get l.addr_to_peer addr

-- An unknown address is an `unwrap` on `None`: the thread panics, `none`.
unfoldable pub set_peer_id : Multiaddr → PeerId → PeerList → Option PeerList
set_peer_id multi_addr peer_id l = elim (HashMap.get l.addr_to_peer multi_addr) [
  | none ↦ none
  | some peer_info ↦ some (record {
    addr_to_peer =
        HashMap.insert l.addr_to_peer multi_addr (record peer_info { peer_id = some peer_id });
    peer_to_addr = HashMap.insert l.peer_to_addr peer_id multi_addr;
  })
]

abbrev drop_id : Option PeerId → HashMap PeerId Multiaddr → HashMap PeerId Multiaddr
drop_id none m = m
drop_id (some peer_id) m = HashMap.remove m peer_id

abbrev unindex : Option PeerInfo → HashMap PeerId Multiaddr → HashMap PeerId Multiaddr
unindex none m = m
unindex (some info) m = drop_id info.peer_id m

unfoldable pub remove_peer_by_addr : Multiaddr → PeerList → PeerList
remove_peer_by_addr multi_addr l = record {
  addr_to_peer = HashMap.remove l.addr_to_peer multi_addr;
  peer_to_addr = unindex (HashMap.get l.addr_to_peer multi_addr) l.peer_to_addr;
}

abbrev forget_addr : Option Multiaddr → HashMap Multiaddr PeerInfo → HashMap Multiaddr PeerInfo
forget_addr none m = m
forget_addr (some addr) m = HashMap.remove m addr

unfoldable pub remove_peer_by_id : PeerId → PeerList → PeerList
remove_peer_by_id peer_id l = record {
  addr_to_peer = forget_addr (HashMap.get l.peer_to_addr peer_id) l.addr_to_peer;
  peer_to_addr = HashMap.remove l.peer_to_addr peer_id;
}

unfoldable pub has_peer_id : PeerId → PeerList → Bool
has_peer_id peer_id l = HashMap.contains_key l.peer_to_addr peer_id

unfoldable pub has_addr : Multiaddr → PeerList → Bool
has_addr multi_addr l = HashMap.contains_key l.addr_to_peer multi_addr

unfoldable pub get_all : PeerList → HashMap PeerId Multiaddr
get_all l = l.peer_to_addr

unfoldable pub get_all_info : PeerList → HashMap Multiaddr PeerInfo
get_all_info l = l.addr_to_peer

-- The object that `get_json` prints: for each address the identity that is visited last.
unfoldable pub json_of : List (PeerId × Multiaddr) → HashMap String String → HashMap String String
json_of [] result = result
json_of ((peer, addr) ∷ rest) result = json_of rest (HashMap.insert result addr peer)

unfoldable pub get_json :
    (List (PeerId × Multiaddr) → List (PeerId × Multiaddr)) → PeerList → HashMap String String
unfolding json_of
get_json visit l = json_of (visit l.peer_to_addr) []
