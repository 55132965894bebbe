-- ===== src/Network/Aliasing.antt =====
-- What HandleDiscoveryMessage in project/oracle/pkg/network/discovery.go leaves in its map.
use lab.Network.Transport.{register_peer, Transport}
use lab.Network.Discovery.{
  PeerInfo, learn, handle_discovery_message, learn_all, follow_all, is_news, own_all, Pointer,
  DiscoveryMessage, Discovery, follow, loop_variable, last_value, sender_info,
}
use lab.Base.{
  ◌≡◌, List, lookup, String, Map, Option, ◌∷◌, ℕ, ◌⊎◌, none, [], some, Bool-cases, ◌==◌, ◌≢◌,
  string_eq, inl, arith, beq_ne, lookup-insert, lookup-insert_self, inr, refl, insert, ◌∙◌, sym, ap,
}

abbrev over_pointer : PeerInfo → Option Pointer → Option PeerInfo
over_pointer peer none = none
over_pointer peer (some pointer) = some (follow peer pointer)

-- The entry of a map that a message with news about it turns into.
lookup-follow_all :
    (id : String) (peer : PeerInfo) (known : Map String Pointer)
    → lookup id (follow_all peer known) ≡ over_pointer peer (lookup id known)
unfolding lookup follow_all
lookup-follow_all id peer [] = refl
lookup-follow_all id peer ((j, pointer) ∷ known) = elim (Bool-cases (j == id)) [
  | inl q ↦ rw q refl
  | inr q ↦ rw q (lookup-follow_all id peer known)
]

-- Once an entry leads to the loop variable, it does so to the end.
learn-stays :
    (id : String) (peer : PeerInfo) (known : Map String Pointer) (t : Transport)
    → lookup id known ≡ some loop_variable
    → lookup id (learn peer known t).0 ≡ some loop_variable
unfolding learn
learn-stays id peer known t h = ground (arith, lookup-insert peer.node_id id loop_variable known)

learn_all-stays :
    (id : String) (peers : List PeerInfo) (known : Map String Pointer) (t : Transport)
    → lookup id known ≡ some loop_variable
    → lookup id (learn_all peers known t).0 ≡ some loop_variable
unfolding learn_all
learn_all-stays id [] known t h = h
learn_all-stays id (peer ∷ peers) known t h =
    learn_all-stays id peers (learn peer known t).0 (learn peer known t).1
      (learn-stays id peer known t h)

-- A peer is mentioned in a list.
abbrev pub IsMentioned : PeerInfo → List PeerInfo → Type 0
IsMentioned p [] = ⊥
IsMentioned p (q ∷ peers) = (q ≡ p) ⊎ IsMentioned p peers

learn_new :
    (p : PeerInfo) (known : Map String Pointer) (t : Transport)
    → p.node_id ≢ t.node_id
    → lookup p.node_id known ≡ none
    → lookup p.node_id (learn p known t).0 ≡ some loop_variable
unfolding learn is_news
learn_new p known t me h =
    ground (arith, beq_ne p.node_id t.node_id me, lookup-insert_self p.node_id loop_variable known)

-- Another round leaves an unknown number unknown or leads it to the loop variable.
learn-other :
    (id : String) (peer : PeerInfo) (known : Map String Pointer) (t : Transport)
    → lookup id known ≡ none
    → ((lookup id (learn peer known t).0 ≡ none)
        ⊎ (lookup id (learn peer known t).0 ≡ some loop_variable))
      × ((learn peer known t).1.node_id ≡ t.node_id)
unfolding learn register_peer
learn-other id peer known t h = ground (arith, lookup-insert peer.node_id id loop_variable known)

learn_all_new :
    (p : PeerInfo) (peers : List PeerInfo) (known : Map String Pointer) (t : Transport)
    → IsMentioned p peers
    → p.node_id ≢ t.node_id
    → lookup p.node_id known ≡ none
    → lookup p.node_id (learn_all peers known t).0 ≡ some loop_variable
unfolding learn_all
learn_all_new p [] known t m me h = absurd m
learn_all_new p (q ∷ peers) known t (inl e) me h =
    learn_all-stays p.node_id peers (learn q known t).0 (learn q known t).1
      (rw e (learn_new p known t me h))
learn_all_new p (q ∷ peers) known t (inr m) me h =
    let other = learn-other p.node_id q known t h in
    elim other.0 [
      | inl n ↦
          learn_all_new p peers (learn q known t).0 (learn q known t).1 m (λ e. me (e ∙ other.1)) n
      | inr n ↦ learn_all-stays p.node_id peers (learn q known t).0 (learn q known t).1 n
    ]

lookup-own_all :
    (id : String) (known : Map String PeerInfo)
    → lookup id known ≡ none
    → lookup id (own_all known) ≡ none
unfolding lookup own_all
lookup-own_all id [] h = refl
lookup-own_all id ((j, info) ∷ known) h = elim (Bool-cases (j == id)) [
  | inl q ↦ absurd (cc (rw q at h))
  | inr q ↦ rw q (lookup-own_all id known (rw q at h))
]

-- Every peer of a message that the node has not known, other than the node itself and the sender,
-- ends up with the record of the last peer of the message, whatever the message says of it.
pub handle_discovery_message_shares :
    (now : ℕ) (msg : DiscoveryMessage) (pd : Discovery) (p : PeerInfo)
    → IsMentioned p msg.peers
    → p.node_id ≢ pd.transport.node_id
    → p.node_id ≢ msg.node_id
    → lookup p.node_id pd.known_peers ≡ none
    → lookup p.node_id (handle_discovery_message now msg pd).known_peers
      ≡ some (last_value (sender_info now msg pd) msg.peers)
unfolding handle_discovery_message
handle_discovery_message_shares now msg pd p m me sender h =
    let info = sender_info now msg pd in
    let known = insert msg.node_id info pd.known_peers in
    let unknown : lookup p.node_id known ≡ none =
      lookup-insert msg.node_id p.node_id info pd.known_peers
      ∙ rw (beq_ne msg.node_id p.node_id (λ e. sender (sym e))) h in
    lookup-follow_all p.node_id _ _
    ∙ ap (over_pointer (last_value info msg.peers)) (
        learn_all_new p msg.peers (own_all known) pd.transport m me
          (lookup-own_all p.node_id known unknown))
