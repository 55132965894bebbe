-- ===== src/Network/Sending.antt =====
-- Sends, broadcasts and health checks of project/oracle/pkg/network.
use lab.Base.{
  Option, String, Bool, lookup, delete, true, ◌≡◌, some, none, arith, false, string_eq, ◌≢◌, ◌||◌,
  ◌&&◌, lookup-delete_where, Option-cases, inl, ◌==◌, beq_ne, inr, lookup-insert_self,
  lookup-insert, List, ◌∷◌, keys, [], if◌then◌else◌,
}
use lab.Base.{contains, Distinct, All, IsMap, refl, ◌∙◌, beq_cases}
use lab.Network.Transport.{
  World, send, SendError, write_frame, connect_with_retry, Transport, Outcome, written, send_each,
  broadcast,
}

send-peers :
    (world : World) (peer_id : String) (t : Transport) → (send world peer_id t).0.peers ≡ t.peers
unfolding send write_frame connect_with_retry
send-peers world peer_id t = ground arith

-- There is a connection to a peer, open for the node.
unfoldable pub is_connected : String → Transport → Bool
is_connected peer_id t = elim (lookup peer_id t.connections) [ none ↦ false | some conn ↦ true ]

-- The registered address of a peer answers.
unfoldable pub is_dialled : World → String → Transport → Bool
is_dialled world peer_id t = elim (lookup peer_id t.peers) [
  | none ↦ false
  | some address ↦ elim (world.dial address) [ none ↦ false | some conn ↦ true ]
]

abbrev pub is_written : Outcome → Bool
is_written written = true
is_written _ = false

abbrev pub succeeds : Option SendError → Bool
succeeds none = true
succeeds (some err) = false

-- What writing a frame does to the connections.
write_frame_lem :
    (world : World) (peer_id other : String) (t : Transport)
    → (succeeds (write_frame world peer_id t).1
        ≡ (world.marshals && is_written (world.outcome peer_id)))
      × ((write_frame world peer_id t).1 ≡ none → (write_frame world peer_id t).0 ≡ t)
      × (other ≢ peer_id
          → lookup other (write_frame world peer_id t).0.connections ≡ lookup other t.connections)
unfolding write_frame delete
write_frame_lem world peer_id other t =
    let gone = lookup-delete_where (λ k. k == peer_id) other t.connections in
    ground (arith, gone, beq_ne other peer_id)

connect_with_retry_lem :
    (world : World) (peer_id other : String) (t : Transport)
    → lookup peer_id t.connections ≡ none
    → (succeeds (connect_with_retry world peer_id t).1 ≡ is_dialled world peer_id t)
      × ((connect_with_retry world peer_id t).1 ≡ none
          → is_connected peer_id (connect_with_retry world peer_id t).0 ≡ true)
      × (other ≢ peer_id
          → lookup other (connect_with_retry world peer_id t).0.connections
            ≡ lookup other t.connections)
unfolding connect_with_retry is_dialled is_connected
connect_with_retry_lem world peer_id other t h = elim (Option-cases (lookup peer_id t.peers)) [
  | inl n ↦ ground arith
  | inr (address, n) ↦ elim (Option-cases (world.dial address)) [
    | inl d ↦ ground arith
    | inr (conn, d) ↦ ground (
      arith,
      lookup-insert_self peer_id conn t.connections,
      lookup-insert peer_id other conn t.connections,
      beq_ne peer_id other,
    )
  ]
]

-- A send succeeds exactly when the peer is connected or its registered address answers, and the
-- message is marshalled and written. It leaves the peer connected if so, and it never touches the
-- connection to another peer.
pub send_lem :
    (world : World) (peer_id other : String) (t : Transport)
    → (succeeds (send world peer_id t).1 ≡ (
        (is_connected peer_id t || is_dialled world peer_id t)
        && (world.marshals && is_written (world.outcome peer_id))))
      × ((send world peer_id t).1 ≡ none → is_connected peer_id (send world peer_id t).0 ≡ true)
      × (other ≢ peer_id
          → lookup other (send world peer_id t).0.connections ≡ lookup other t.connections)
unfolding send is_connected
send_lem world peer_id other t =
    let connected = (connect_with_retry world peer_id t).0 in
    elim (Option-cases (lookup peer_id t.connections)) [
      | inl n ↦ ground (
        arith,
        connect_with_retry_lem world peer_id other t n,
        write_frame_lem world peer_id other connected,
      )
      | inr (conn, n) ↦ ground (arith, write_frame_lem world peer_id other t)
    ]

-- Whether a send to a peer works on a transport.
unfoldable pub is_reached : World → Transport → String → Bool
is_reached world t id =
    (is_connected id t || is_dialled world id t)
    && (world.marshals && is_written (world.outcome id))

-- The peers in front of the first one that a transport does not reach.
unfoldable pub first_reached : World → Transport → List String → List String
first_reached world t [] = []
first_reached world t (id ∷ ids) =
    let rest = first_reached world t ids in if is_reached world t id then id ∷ rest else []

unfoldable pub all_reached : World → Transport → List String → Bool
all_reached world t [] = true
all_reached world t (id ∷ ids) = is_reached world t id && all_reached world t ids

-- For these peers a transport stands as another one did.
abbrev SameFor : Transport → Transport → List String → Type 0
SameFor t u ids = All (λ id. lookup id u.connections ≡ lookup id t.connections) ids

SameFor-refl : (t : Transport) (ids : List String) → SameFor t t ids
SameFor-refl t [] = tt
SameFor-refl t (id ∷ ids) = (refl, SameFor-refl t ids)

contains_cons :
    (j id : String) (ids : List String)
    → contains (j ∷ ids) id ≡ false
    → (j ≢ id) × (contains ids id ≡ false)
contains_cons j id ids n = ground (arith, beq_cases j id, beq_cases id j)

is_reached-same :
    (world : World) (t u : Transport) (id : String)
    → u.peers ≡ t.peers
    → lookup id u.connections ≡ lookup id t.connections
    → is_reached world u id ≡ is_reached world t id
unfolding is_reached is_connected is_dialled
is_reached-same world t u id e h = ground arith

-- A send to a peer leaves the others as they were.
send-SameFor :
    (world : World) (id : String) (t u : Transport) (ids : List String)
    → contains ids id ≡ false
    → SameFor t u ids
    → SameFor t (send world id u).0 ids
send-SameFor world id t u [] n h = tt
send-SameFor world id t u (j ∷ ids) n h =
    let others = contains_cons j id ids n in
    ((send_lem world id j u).2 others.0 ∙ h.0, send-SameFor world id t u ids others.1 h.1)

send_each_lem :
    (world : World) (t u : Transport) (ids : List String)
    → Distinct ids
    → u.peers ≡ t.peers
    → SameFor t u ids
    → ((send_each world ids u).1.0 ≡ first_reached world t ids)
      × (succeeds (send_each world ids u).1.1 ≡ all_reached world t ids)
      × ((send_each world ids u).0.peers ≡ t.peers)
unfolding send_each first_reached all_reached is_reached
send_each_lem world t u [] d e h = ground arith
send_each_lem world t u (id ∷ ids) d e h =
    let sent = send_lem world id id u in
    let rest =
      send_each_lem world t (send world id u).0 ids d.1 (send-peers world id u ∙ e)
        (send-SameFor world id t u ids d.0 h.1) in
    ground (arith, sent.0, is_reached-same world t u id e h.0, rest)

-- A broadcast over different peers sends to them in the order of the map: it reaches exactly those in
-- front of the first one to whom a send does not work, which ends it. A send works where the peer has a
-- connection or its address answers, and the message is marshalled and written. The broadcast succeeds
-- exactly when it works for all, and the registered peers stay.
pub broadcast_lem :
    (world : World) (t : Transport)
    → IsMap t.peers
    → ((broadcast world t).1.0 ≡ first_reached world t (keys t.peers))
      × (succeeds (broadcast world t).1.1 ≡ all_reached world t (keys t.peers))
      × ((broadcast world t).0.peers ≡ t.peers)
unfolding broadcast
broadcast_lem world t d =
    send_each_lem world t t (keys t.peers) d refl (SameFor-refl t (keys t.peers))
