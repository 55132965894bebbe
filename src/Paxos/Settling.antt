-- ===== src/Paxos/Settling.antt =====
-- The branch of handleAcceptAck in lab4/src/main.go that no message reaches.
use lab.Paxos.Responses.{
  store-IsResponseLog, Inv, IsFiled-no_rejection, Inv-Reconnected, SameLogs, Inv-SameLogs,
  open_round-Inv, cleanup_responses-Inv,
}
use lab.Paxos.Peers.{run, log_first, dispatch, handle_message}
use lab.Paxos.Roles.{find_proposer}
use lab.Paxos.Acceptor.{handle_prepare, promise, handle_accept, log_chose}
use lab.Paxos.Frames.{
  broadcast_to_acceptors-Reconnected, answer_proposer-Reconnected, answer_connected-Reconnected,
}
use lab.Paxos.Proposer.{
  responses_to, store, start_paxos, open_round, send_accept, handle_accept_ack, handle_prepare_ack,
  prepare_message, accept_message, done, Ending, fatal,
}
use lab.Base.{
  ◌≡◌, insert, ℤ, [], false, int_eq, ◌∷◌, arith, refl, true, List, String, ◌++◌, string_eq,
}
use lab.Paxos.Types.{
  Peer, Message, Library, Action, sent, accept_ack, MessageType, prepare, prepare_ack, accept,
  chose, other_type,
}

-- All messages were handled, and the responses are filed.
abbrev pub EndsWell : Ending → Type 0
EndsWell (done q out) = Inv q
EndsWell (fatal q out) = ⊥

module _ (lib : Library) where
  pub start_paxos-Inv : (p : Peer) → Inv p → Inv (start_paxos lib p).0
  unfolding start_paxos
  start_paxos-Inv p v =
      Inv-Reconnected (open_round p) (start_paxos lib p).0
        (broadcast_to_acceptors-Reconnected lib (prepare_message (open_round p)) (open_round p))
        (open_round-Inv p v)

  handle_prepare-SameLogs : (m : Message) (p : Peer) → SameLogs p (handle_prepare lib m p).0
  unfolding handle_prepare
  handle_prepare-SameLogs m p =
      let promised = record p { min_proposal = m.proposal_num; has_chosen = false } in
      ground (
        arith,
        answer_proposer-Reconnected lib (promise lib m promised)
            (find_proposer lib m.peer_id p.peer_roles p.peer_roles) p.peer_roles promised,
      )

  handle_accept-SameLogs : (m : Message) (p : Peer) → SameLogs p (handle_accept lib m p).0
  unfolding handle_accept log_chose
  handle_accept-SameLogs m p = ground (
    arith,
    answer_connected-Reconnected lib
        (record {
          peer_id = p.id;
          action = sent;
          message_type = accept_ack;
          message_value = m.message_value;
          proposal_num = m.proposal_num;
        })
        (find_proposer lib m.peer_id p.peer_roles p.peer_roles) p.connections
        (record p {
          min_proposal = m.proposal_num;
          accepted_num = m.proposal_num;
          accepted_value = m.message_value;
        }),
  )

  store_promise-Inv :
      (m : Message) (p : Peer)
      → Inv p
      → Inv (record p { prepare_responses = store m.proposal_num m.peer_id m p.prepare_responses })
  store_promise-Inv m p v = record {
    promises = store-IsResponseLog m p.prepare_responses v.promises;
    accepts = v.accepts;
  }

  store_accept-Inv :
      (m : Message) (p : Peer)
      → Inv p
      → Inv (record p { accept_responses = store m.proposal_num m.peer_id m p.accept_responses })
  store_accept-Inv m p v = record {
    promises = v.promises;
    accepts = store-IsResponseLog m p.accept_responses v.accepts;
  }

  send_accept-SameLogs : (num : ℤ) (p : Peer) → SameLogs p (send_accept lib num p).0
  unfolding send_accept
  send_accept-SameLogs num p =
      let marked = record p { accept_sent = insert num true p.accept_sent } in
      ground (arith, broadcast_to_acceptors-Reconnected lib (accept_message num marked) marked)

  pub handle_prepare_ack-Inv : (m : Message) (p : Peer) → Inv p → Inv (handle_prepare_ack lib m p).0
  unfolding handle_prepare_ack
  handle_prepare_ack-Inv m p v =
      let stored = record p {
        prepare_responses = store m.proposal_num m.peer_id m p.prepare_responses;
      } in
      ground (
        arith,
        store_promise-Inv m p v,
        Inv-SameLogs stored (send_accept lib m.proposal_num stored).0
            (send_accept-SameLogs m.proposal_num stored) (store_promise-Inv m p v),
      )

  log_chose-SameLogs :
      (value : String) (num : ℤ) (p : Peer) → SameLogs p (log_chose lib value num p).0
  unfolding log_chose
  log_chose-SameLogs value num p = ground arith

  handle_accept_ack-EndsWell :
      (m : Message) (p : Peer) → Inv p → EndsWell (handle_accept_ack lib m p)
  unfolding handle_accept_ack
  handle_accept_ack-EndsWell m p v =
      let stored = record p {
        accept_responses = store m.proposal_num m.peer_id m p.accept_responses;
      } in
      let kept = store_accept-Inv m p v in
      let logged = (log_chose lib m.message_value m.proposal_num stored).0 in
      ground (
        arith,
        kept,
        IsFiled-no_rejection m.proposal_num (responses_to m.proposal_num stored.accept_responses)
            (kept.accepts m.proposal_num).1,
        cleanup_responses-Inv m.proposal_num logged (
            Inv-SameLogs stored logged (log_chose-SameLogs m.message_value m.proposal_num stored)
              kept),
      )

  dispatch-EndsWell :
      (t : MessageType) (m : Message) (p : Peer) → Inv p → EndsWell (dispatch lib t m p)
  unfolding dispatch
  dispatch-EndsWell prepare m p v =
      Inv-SameLogs p (handle_prepare lib m p).0 (handle_prepare-SameLogs m p) v
  dispatch-EndsWell prepare_ack m p v = handle_prepare_ack-Inv m p v
  dispatch-EndsWell accept m p v =
      Inv-SameLogs p (handle_accept lib m p).0 (handle_accept-SameLogs m p) v
  dispatch-EndsWell accept_ack m p v = handle_accept_ack-EndsWell m p v
  dispatch-EndsWell chose m p v = v
  dispatch-EndsWell other_type m p v = v

  log_first-EndsWell : (m : Message) (r : Ending) → EndsWell r → EndsWell (log_first lib m r)
  unfolding log_first
  log_first-EndsWell m (done q out) h = h
  log_first-EndsWell m (fatal q out) h = absurd h

  join-EndsWell :
      (out : List Action) (r : Ending)
      → EndsWell r
      → EndsWell
          (elim r [ fatal q later ↦ fatal q (out ++ later) | done q later ↦ done q (out ++ later) ])
  join-EndsWell out (done q later) h = h
  join-EndsWell out (fatal q later) h = absurd h

  -- From a peer whose responses are filed under their own numbers, every run of messages ends with
  -- all of them handled: no response is ever read as a rejection, so a proposer never starts again,
  -- and the fatal unlock behind that branch is never reached.
  pub run-EndsWell : (ms : List Message) (p : Peer) → Inv p → EndsWell (run lib ms p)
  unfolding run handle_message
  run-EndsWell [] p v = v
  run-EndsWell (m ∷ ms) p v =
      by_first (run-EndsWell ms) (log_first lib m (dispatch lib m.message_type m p)) refl
        (log_first-EndsWell m _ (dispatch-EndsWell m.message_type m p v))
    where
      by_first :
          ((q : Peer) → Inv q → EndsWell (run lib ms q))
          → (r : Ending) → log_first lib m (dispatch lib m.message_type m p) ≡ r
          → EndsWell r
          → EndsWell (run lib (m ∷ ms) p)
      by_first later (done q out) e h = rw (e, run) (join-EndsWell out (run lib ms q) (later q h))
      by_first later (fatal q out) e h = absurd h
