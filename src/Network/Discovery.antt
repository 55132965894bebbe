-- ===== src/Network/Discovery.antt =====
-- Peer discovery in project/oracle/pkg/network/discovery.go. The module is Go 1.21, where a loop has
-- one variable for all its rounds: HandleDiscoveryMessage stores the address of that variable.
use lab.Network.Transport.{Transport, close_connection, register_peer}
use lab.Base.{
  Map, String, ℕ, List, lookup, Bool, insert, some, ◌∷◌, [], none, if◌then◌else◌, string_eq, true,
  ◌==◌, ltb, ◌-◌,
}

pub record PeerInfo : Type 0 where
  pub node_id : String
  pub address : String
  pub last_seen : ℕ
  pub version : String

pub record DiscoveryMessage : Type 0 where
  pub peers : List PeerInfo
  pub node_id : String
  pub address : String

-- A pointer that a map holds: to a record of its own, or to the variable of the running loop.
pub data Pointer : Type 0 where
  own : PeerInfo → Pointer
  loop_variable : Pointer

pub record Discovery : Type 0 where
  pub known_peers : Map String PeerInfo
  pub version : String
  pub transport : Transport

-- peerTTL
abbrev pub peer_ttl : ℕ
peer_ttl = 300000000000

-- What a pointer leads to, while the loop variable has a value.
abbrev pub follow : PeerInfo → Pointer → PeerInfo
follow peer (own info) = info
follow peer loop_variable = peer

-- `!exists || existing.LastSeen.Before(peer.LastSeen)`
unfoldable pub is_news : PeerInfo → Map String Pointer → Bool
is_news peer known = elim (lookup peer.node_id known) [
  | none ↦ true
  | some pointer ↦ ltb (follow peer pointer).last_seen peer.last_seen
]

-- A round of the loop over the peers of a message.
unfoldable pub learn : PeerInfo → Map String Pointer → Transport → Map String Pointer × Transport
unfolding is_news
learn peer known t =
    if peer.node_id == t.node_id
    then (known, t)
    else if is_news peer known
    then (insert peer.node_id loop_variable known, register_peer peer.node_id peer.address t)
    else (known, t)

unfoldable pub learn_all :
    List PeerInfo → Map String Pointer → Transport → Map String Pointer × Transport
unfolding learn
learn_all [] known t = (known, t)
learn_all (peer ∷ peers) known t = let first = learn peer known t in learn_all peers first.0 first.1

-- The last value of the loop variable, which keeps it.
unfoldable pub last_value : PeerInfo → List PeerInfo → PeerInfo
last_value peer [] = peer
last_value peer (next ∷ peers) = last_value next peers

unfoldable pub own_all : Map String PeerInfo → Map String Pointer
own_all [] = []
own_all ((id, info) ∷ known) = (id, own info) ∷ own_all known

unfoldable pub follow_all : PeerInfo → Map String Pointer → Map String PeerInfo
follow_all peer [] = []
follow_all peer ((id, pointer) ∷ known) = (id, follow peer pointer) ∷ follow_all peer known

abbrev pub sender_info : ℕ → DiscoveryMessage → Discovery → PeerInfo
sender_info now msg pd = record {
  node_id = msg.node_id;
  address = msg.address;
  last_seen = now;
  version = pd.version;
}

-- HandleDiscoveryMessage; the loop variable starts as the sender's record, which no pointer leads to.
unfoldable pub handle_discovery_message : ℕ → DiscoveryMessage → Discovery → Discovery
unfolding own_all follow_all learn_all last_value
handle_discovery_message now msg pd =
    let sender = sender_info now msg pd in
    let learned =
      learn_all msg.peers (own_all (insert msg.node_id sender pd.known_peers)) pd.transport in
    record pd {
      known_peers = follow_all (last_value sender msg.peers) learned.0;
      transport = learned.1;
    }

-- The loop of cleanupStaleNodes over the entries.
unfoldable pub cleanup_entries :
    ℕ → Map String PeerInfo → Transport → Map String PeerInfo × Transport
cleanup_entries now [] t = ([], t)
cleanup_entries now ((id, info) ∷ known) t =
    let stale = cleanup_entries now known (close_connection id t) in
    let rest = cleanup_entries now known t in
    if ltb peer_ttl (now - info.last_seen) then stale else ((id, info) ∷ rest.0, rest.1)

-- cleanupStaleNodes
unfoldable pub cleanup_stale_nodes : ℕ → Discovery → Discovery
unfolding cleanup_entries
cleanup_stale_nodes now pd =
    let kept = cleanup_entries now pd.known_peers pd.transport in
    record pd { known_peers = kept.0; transport = kept.1 }
