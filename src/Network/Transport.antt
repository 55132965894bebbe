-- ===== src/Network/Transport.antt =====
-- The connections of project/oracle/pkg/network/p2p.go and the health records of
-- project/oracle/pkg/network/health.go.
use lab.Base.{
  List, ℕ, String, false, delete, Map, Bool, insert, Option, string_eq, if◌then◌else◌, keys, none,
  lookup, some, ◌+◌, ◌∷◌, [], ◌-◌, true,
}

-- A connection is a number that dialling gives it.
pub record Transport : Type 0 where
  pub node_id : String
  pub peers : Map String String
  pub connections : Map String ℕ

pub data SendError : Type 0 where
  unknown_peer connection_failed marshal_failed deadline_failed write_length_failed
        write_data_failed :
      SendError

-- What the system does with one write of a frame.
pub data Outcome : Type 0 where
  no_deadline no_length no_data written : Outcome

-- What a send meets outside: net.DialTimeout for an address, json.Marshal, and the connection.
pub record World : Type 0 where
  pub dial : String → Option ℕ
  pub marshals : Bool
  pub outcome : String → Outcome

-- RegisterPeer
unfoldable pub register_peer : String → String → Transport → Transport
register_peer id address t = record t { peers = insert id address t.peers }

-- closeConnection
unfoldable pub close_connection : String → Transport → Transport
close_connection peer_id t = record t { connections = delete peer_id t.connections }

-- connectWithRetry
unfoldable pub connect_with_retry : World → String → Transport → Transport × Option SendError
connect_with_retry world peer_id t = elim (lookup peer_id t.peers) [
  | none ↦ (t, some unknown_peer)
  | some address ↦ elim (lookup peer_id t.connections) [
    | some conn ↦ (t, none)
    | none ↦ elim (world.dial address) [
      | none ↦ (t, some connection_failed)
      | some conn ↦ (record t { connections = insert peer_id conn t.connections }, none)
    ]
  ]
]

-- Send behind the connection: a write that fails takes the connection out.
unfoldable pub write_frame : World → String → Transport → Transport × Option SendError
unfolding close_connection
write_frame world peer_id t =
    let dropped = record t { connections = delete peer_id t.connections } in
    if world.marshals
    then (elim (world.outcome peer_id) [
      | no_deadline ↦ (t, some deadline_failed)
      | no_length ↦ (dropped, some write_length_failed)
      | no_data ↦ (dropped, some write_data_failed)
      | written ↦ (t, none)
    ])
    else (t, some marshal_failed)

-- Send
unfoldable pub send : World → String → Transport → Transport × Option SendError
unfolding connect_with_retry write_frame
send world peer_id t = elim (lookup peer_id t.connections) [
  | some conn ↦ write_frame world peer_id t
  | none ↦
      let connected = connect_with_retry world peer_id t in
      elim connected.1 [ some err ↦ connected | none ↦ write_frame world peer_id connected.0 ]
]

-- The loop of Broadcast: the peers that have got the message, and the error that ended it.
unfoldable pub send_each :
    World → List String → Transport → Transport × (List String × Option SendError)
unfolding send
send_each world [] t = (t, ([], none))
send_each world (peer_id ∷ ids) t =
    let sent = send world peer_id t in
    let rest = send_each world ids sent.0 in
    elim sent.1 [
      | some err ↦ (sent.0, ([], some err))
      | none ↦ (rest.0, (peer_id ∷ rest.1.0, rest.1.1))
    ]

-- Broadcast
unfoldable pub broadcast : World → Transport → Transport × (List String × Option SendError)
unfolding send_each
broadcast world t = send_each world (keys t.peers) t

-- PeerHealth; times in nanoseconds
pub record PeerHealth : Type 0 where
  pub last_seen : ℕ
  pub latency : ℕ
  pub failures : ℕ
  pub is_healthy : Bool

abbrev new_health : PeerHealth
new_health = record { last_seen = 0; latency = 0; failures = 0; is_healthy = false }

unfoldable pub health_of : String → Map String PeerHealth → PeerHealth
health_of peer_id healths = elim (lookup peer_id healths) [ none ↦ new_health | some h ↦ h ]

-- What checkPeer writes down behind its ping.
unfoldable pub note_ping : ℕ → ℕ → Option SendError → PeerHealth → PeerHealth
note_ping started now (some err) health = record health {
  failures = health.failures + 1;
  is_healthy = false;
}
note_ping started now none health = record health {
  latency = now - started;
  last_seen = now;
  failures = 0;
  is_healthy = true;
}

-- checkPeer
unfoldable pub check_peer :
    World → ℕ → ℕ → String → Map String PeerHealth → Transport → Transport × Map String PeerHealth
unfolding health_of note_ping
check_peer world started now peer_id healths t =
    let sent = send world peer_id t in
    (sent.0, insert peer_id (note_ping started now sent.1 (health_of peer_id healths)) healths)
