-- ===== src/Paxos/Peers.antt =====
-- A peer as a state machine: handleMessage of lab4/src/main.go, under the peer's mutex, and a run of
-- it on the messages that arrive.
use lab.Base.{List, [], ◌∷◌, ◌++◌}
use lab.Paxos.Types.{
  Peer, Message, MessageType, prepare, prepare_ack, accept, accept_ack, chose, other_type, received,
  Library, Action, log_message,
}
use lab.Paxos.Acceptor.{handle_prepare, handle_accept}
use lab.Paxos.Proposer.{Ending, done, fatal, handle_prepare_ack, handle_accept_ack}

abbrev pub ended : Peer × List Action → Ending
ended r = done r.0 r.1

module _ (lib : Library) where
  unfoldable pub dispatch : MessageType → Message → Peer → Ending
  dispatch prepare msg peer = ended (handle_prepare lib msg peer)
  dispatch prepare_ack msg peer = ended (handle_prepare_ack lib msg peer)
  dispatch accept msg peer = ended (handle_accept lib msg peer)
  dispatch accept_ack msg peer = handle_accept_ack lib msg peer
  dispatch chose msg peer = done peer []
  dispatch other_type msg peer = done peer []

  unfoldable pub log_first : Message → Ending → Ending
  log_first msg (done peer out) = done peer (log_message (record msg { action = received }) ∷ out)
  log_first msg (fatal peer out) = fatal peer (log_message (record msg { action = received }) ∷ out)

  -- handleMessage
  unfoldable pub handle_message : Message → Peer → Ending
  unfolding dispatch log_first
  handle_message msg peer = log_first msg (dispatch msg.message_type msg peer)

  -- The messages of all connections in the order in which they get the mutex.
  unfoldable pub run : List Message → Peer → Ending
  run [] peer = done peer []
  run (msg ∷ msgs) peer = elim (handle_message msg peer) [
    | fatal p out ↦ fatal p out
    | done p out ↦ elim (run msgs p) [
      | fatal q later ↦ fatal q (out ++ later)
      | done q later ↦ done q (out ++ later)
    ]
  ]
