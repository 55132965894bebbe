-- ===== src/Network/Connections.antt =====
-- The life of the connections in project/oracle/pkg/network/p2p.go: Start and Stop, the read loop of a
-- connection with what it defers, and the dispatch of control messages. The readers are goroutines;
-- here each round of a reader is two steps, the test of doneChan and what follows ReadMessage, and what
-- it defers is three: the end with its test, the test of handleConnectionFailure, and the dialling. So
-- other events may come between a test and what it guards. A full channel makes the reader wait.
use lab.Base.{
  contains, remove, ◌&&◌, ℕ, Bool, true, false, String, List, [], ◌∷◌, ◌++◌, Option, none, some,
  Map, lookup, insert, length, ltb, nat_beq, if◌then◌else◌, string_eq, ◌==◌, nat_eq,
}
use lab.Network.Framing.{Json, Message, ReadResult, failed, received, read_message}
use lab.Network.Transport.{
  Transport, World, SendError, unknown_peer, connection_failed, close_connection,
  connect_with_retry, send, register_peer,
}
use lab.Network.Discovery.{DiscoveryMessage, Discovery, handle_discovery_message}

-- make(chan *Message, 1000)
abbrev pub queue_capacity : ℕ
queue_capacity = 1000

pub record Hub : Type 0 where
  pub transport : Transport
  pub is_done : Bool  -- doneChan is closed
  pub is_listening : Bool
  pub accepted : List ℕ  -- open connections that Accept has given; they have no peer
  pub msg_chan : List Message  -- oldest first
  pub reading : List ℕ  -- connections whose readers are between the test and the channel
  pub failing : List String  -- peers of readers in front of the test of handleConnectionFailure
  pub dialling : List String  -- peers of readers behind it

-- NewP2PTransport
unfoldable pub new_hub : String → Hub
new_hub node_id = record {
  transport = record { node_id = node_id; peers = []; connections = [] };
  is_done = false;
  is_listening = false;
  accepted = [];
  msg_chan = [];
  reading = [];
  failing = [];
  dialling = [];
}

-- Start; the argument is whether net.Listen works. It says whether there was no error.
unfoldable pub start_hub : Bool → Hub → Hub × Bool
start_hub listens hub = if listens then (record hub { is_listening = true }, true) else (hub, false)

-- A round of the loop of Start whose Accept gives a connection.
unfoldable pub accept_connection : ℕ → Hub → Hub
accept_connection conn hub =
    if hub.is_listening then record hub { accepted = conn ∷ hub.accepted } else hub

-- Stop. It closes the listener and the connections of peers, not the accepted ones.
unfoldable pub stop_hub : Hub → Hub
stop_hub hub = if hub.is_done then hub else record hub {
  is_done = true;
  is_listening = false;
  transport = record hub.transport { connections = [] };
}

-- The peer of a connection when its reader starts; "" where it has none.
unfoldable pub owner_of : ℕ → Map String ℕ → String
owner_of conn [] = ""
owner_of conn ((id, c) ∷ connections) =
    let rest = owner_of conn connections in if nat_beq c conn then id else rest

-- The test of handleConnectionFailure, for a reader that has come to it.
unfoldable pub handle_connection_failure : String → Hub → Hub
handle_connection_failure peer_id hub =
    let left = record hub { failing = remove peer_id hub.failing } in
    if contains hub.failing peer_id
    then (if hub.is_done then left else record left { dialling = peer_id ∷ hub.dialling })
    else hub

-- handleConnectionFailure behind its test: connectWithRetry, at whatever time it comes to it.
unfoldable pub dial_again : World → String → Hub → Hub
dial_again world peer_id hub =
    if contains hub.dialling peer_id
    then record hub {
      dialling = remove peer_id hub.dialling;
      transport = (connect_with_retry world peer_id hub.transport).0;
    }
    else hub

-- What handleConnection defers, up to the call of handleConnectionFailure.
unfoldable pub end_reader : ℕ → String → Hub → Hub
end_reader conn peer_id hub =
    let shut = record hub { accepted = remove conn hub.accepted } in
    let closed = record shut { transport = close_connection peer_id hub.transport } in
    if peer_id == ""
    then shut
    else if hub.is_done
    then closed
    else record closed { failing = peer_id ∷ hub.failing }

-- The test of doneChan at the start of a round of handleConnection.
unfoldable pub start_round : ℕ → String → Hub → Hub
unfolding end_reader
start_round conn peer_id hub =
    if hub.is_done then end_reader conn peer_id hub else record hub { reading = conn ∷ hub.reading }

pub data Round : Type 0 where
  goes_on waits ended : Round

-- The message goes into the channel.
unfoldable pub take_in : ℕ → Message → Hub → Hub
take_in conn msg hub = record hub {
  reading = remove conn hub.reading;
  msg_chan = hub.msg_chan ++ (msg ∷ []);
}

-- The rest of a round of handleConnection, with what ReadMessage gives it. Where doneChan is closed and
-- the channel has room, both cases of the select are ready, and the first argument is Go's choice.
unfoldable pub read_round : Bool → ℕ → String → ReadResult → Hub → Hub × Round
unfolding end_reader take_in
read_round takes conn peer_id (failed err) hub =
    (end_reader conn peer_id (record hub { reading = remove conn hub.reading }), ended)
read_round takes conn peer_id (received msg rest) hub =
    let ended_hub = end_reader conn peer_id (record hub { reading = remove conn hub.reading }) in
    let room = ltb (length hub.msg_chan) queue_capacity in
    if hub.is_done
    then (if room && takes then (take_in conn msg hub, goes_on) else (ended_hub, ended))
    else if room
    then (take_in conn msg hub, goes_on)
    else (hub, waits)

-- connect
unfoldable pub connect : World → String → Transport → Transport × Option SendError
connect world peer_id t = elim (lookup peer_id t.peers) [
  | none ↦ (t, some unknown_peer)
  | some address ↦ elim (world.dial address) [
    | none ↦ (t, some connection_failed)
    | some conn ↦ (record t { connections = insert peer_id conn t.connections }, none)
  ]
]

-- reconnect
unfoldable pub reconnect : World → String → Transport → Transport × Option SendError
unfolding connect close_connection
reconnect world peer_id t = connect world peer_id (close_connection peer_id t)

-- ReadMessage of the transport: a read deadline in front of the frame. none is its error.
unfoldable pub read_before_deadline : Bool → Json → List ℕ → Option ReadResult
read_before_deadline sets json input = if sets then some (read_message json input) else none

-- What the payload of a control message is, after encoding/json.
pub data Control : Type 0 where
  no_json no_type : Control
  discovery_of : Option DiscoveryMessage → Control
  ping : Control
  other_type : Control

pub data ControlOutcome : Type 0 where
  bad_json bad_type bad_discovery : ControlOutcome
  learned : ControlOutcome
  ponged : Option SendError → ControlOutcome
  handed_over : ControlOutcome

-- handleMessage; the handler that the transport was given gets what is neither.
unfoldable pub handle_control :
    (List ℕ → Control) → World → ℕ → Message → Discovery → Discovery × ControlOutcome
handle_control parse world now msg pd = elim (parse msg.payload) [
  | no_json ↦ (pd, bad_json)
  | no_type ↦ (pd, bad_type)
  | discovery_of parsed ↦ elim parsed [
    | none ↦ (pd, bad_discovery)
    | some m ↦ (handle_discovery_message now m pd, learned)
  ]
  | ping ↦
      let sent = send world msg.from pd.transport in
      (record pd { transport = sent.0 }, ponged sent.1)
  | other_type ↦ (pd, handed_over)
]

pub data HubEvent : Type 0 where
  accepts : ℕ → HubEvent
  looks : ℕ → String → HubEvent
  reads : Bool → ℕ → String → ReadResult → HubEvent
  fails_over : String → HubEvent
  dials : World → String → HubEvent
  sends : World → String → HubEvent
  registers : String → String → HubEvent
  stops : HubEvent

-- A round of a reader that is not in one is no event of the program; here it changes nothing.
unfoldable pub hub_step : HubEvent → Hub → Hub
unfolding read_round stop_hub
hub_step (accepts conn) hub = accept_connection conn hub
hub_step (looks conn peer_id) hub = start_round conn peer_id hub
hub_step (reads takes conn peer_id r) hub =
    if contains hub.reading conn then (read_round takes conn peer_id r hub).0 else hub
hub_step (fails_over peer_id) hub = handle_connection_failure peer_id hub
hub_step (dials world peer_id) hub = dial_again world peer_id hub
hub_step (sends world peer_id) hub = record hub { transport = (send world peer_id hub.transport).0 }
hub_step (registers id address) hub = record hub {
  transport = register_peer id address hub.transport;
}
hub_step stops hub = stop_hub hub

unfoldable pub hub_run : List HubEvent → Hub → Hub
hub_run [] hub = hub
hub_run (e ∷ es) hub = hub_run es (hub_step e hub)
