-- ===== src/Paxos/Proposer.antt =====
-- The proposer's handlers of lab4/src/main.go.
use lab.Base.{
  ◌/◌, Bool, true, false, not, String, List, [], ◌∷◌, none, some, Map, size, lookup, insert,
  delete_where, ◌==◌, ◌&&◌, string_eq, int_eq, ltb, if◌then◌else◌, ℤ, pos, ◌+ℤ◌, ltb_ℤ,
}
use lab.Paxos.Types.{Peer, Message, Responses, Library, Action, log_message, prepare, accept, sent}
use lab.Paxos.Roles.{is_proposer, broadcast_to_acceptors}
use lab.Paxos.Acceptor.{log_chose}

-- The responses to one number, none if there is no map for it.
unfoldable pub responses_to : ℤ → Responses → Map ℤ Message
responses_to num rs = elim (lookup num rs) [ none ↦ [] | some m ↦ m ]

-- `if _, exists := rs[num]; !exists { … }; rs[num][id] = msg`
unfoldable pub store : ℤ → ℤ → Message → Responses → Responses
unfolding responses_to
store num id msg rs = insert num (insert id msg (responses_to num rs)) rs

-- cleanupResponses
unfoldable pub cleanup_responses : ℤ → Peer → Peer
cleanup_responses num peer = record peer {
  prepare_responses = delete_where (λ pn. ltb_ℤ pn num) peer.prepare_responses;
  accept_responses = delete_where (λ pn. ltb_ℤ pn num) peer.accept_responses;
  accept_sent = delete_where (λ pn. ltb_ℤ pn num) peer.accept_sent;
}

-- The loop of handlePrepareAck that looks for the value with the highest number.
unfoldable pub pick : Map ℤ Message → ℤ → String → ℤ × String
pick [] num value = (num, value)
pick ((id, r) ∷ rest) num value =
    let better = ltb_ℤ num r.proposal_num && not (r.message_value == "") in
    pick rest (if better then r.proposal_num else num) (if better then r.message_value else value)

-- `peer.acceptSent[num]`
unfoldable pub was_sent : ℤ → Peer → Bool
was_sent num peer = elim (lookup num peer.accept_sent) [ none ↦ false | some b ↦ b ]

-- The loop of handleAcceptAck that looks for a rejection.
unfoldable pub has_rejection : ℤ → Map ℤ Message → Bool
has_rejection num [] = false
has_rejection num ((id, r) ∷ rest) =
    if ltb_ℤ num r.proposal_num then true else has_rejection num rest

-- How a handler ends: normally, or by the fatal error of an unlock of an unlocked mutex.
pub data Ending : Type 0 where
  done : Peer → List Action → Ending
  fatal : Peer → List Action → Ending

-- startPaxos up to its broadcast: a new number, and empty responses to it.
unfoldable pub open_round : Peer → Peer
unfolding cleanup_responses
open_round peer =
    let num = peer.current_proposal +ℤ pos 1 in
    let cleaned =
      cleanup_responses num (record peer { current_proposal = num; has_chosen = false }) in
    record cleaned {
      prepare_responses = insert num [] cleaned.prepare_responses;
      accept_responses = insert num [] cleaned.accept_responses;
    }

unfoldable pub prepare_message : Peer → Message
prepare_message peer = record {
  peer_id = peer.id;
  action = sent;
  message_type = prepare;
  message_value = "";
  proposal_num = peer.current_proposal;
}

-- The accept message for the responses to a number.
unfoldable pub accept_message : ℤ → Peer → Message
accept_message num peer = record {
  peer_id = peer.id;
  action = sent;
  message_type = accept;
  message_value = (pick (responses_to num peer.prepare_responses) (pos 0) peer.proposed_value).1;
  proposal_num = peer.current_proposal;
}

module _ (lib : Library) where
  -- startPaxos
  unfoldable pub start_paxos : Peer → Peer × List Action
  unfolding open_round prepare_message
  start_paxos peer =
      let opened = open_round peer in
      let out = broadcast_to_acceptors lib (prepare_message opened) opened in
      (out.0, log_message (prepare_message opened) ∷ out.1)

  -- The accept message, behind a majority of promises.
  unfoldable pub send_accept : ℤ → Peer → Peer × List Action
  unfolding accept_message
  send_accept num peer =
      let marked = record peer { accept_sent = insert num true peer.accept_sent } in
      let out = broadcast_to_acceptors lib (accept_message num marked) marked in
      (out.0, log_message (accept_message num marked) ∷ out.1)

  -- handlePrepareAck
  unfoldable pub handle_prepare_ack : Message → Peer → Peer × List Action
  handle_prepare_ack msg peer =
      let stored = record peer {
        prepare_responses = store msg.proposal_num msg.peer_id msg peer.prepare_responses;
      } in
      if not (is_proposer lib peer.roles)
      then (peer, [])
      else if was_sent msg.proposal_num peer
      then (peer, [])
      else if ltb (peer.num_acceptors / 2)
          (size (responses_to msg.proposal_num stored.prepare_responses))
      then send_accept msg.proposal_num stored
      else (stored, [])

  -- handleAcceptAck. On a rejection it gives the lock back and starts again; the deferred unlock of
  -- handleMessage then hits a free mutex.
  unfoldable pub handle_accept_ack : Message → Peer → Ending
  handle_accept_ack msg peer =
      let stored = record peer {
        accept_responses = store msg.proposal_num msg.peer_id msg peer.accept_responses;
      } in
      let answers = responses_to msg.proposal_num stored.accept_responses in
      let restarted = start_paxos (cleanup_responses msg.proposal_num stored) in
      let logged = log_chose lib msg.message_value msg.proposal_num stored in
      if not (is_proposer lib peer.roles)
      then done peer []
      else if not (ltb (peer.num_acceptors / 2) (size answers))
      then done stored []
      else if has_rejection msg.proposal_num answers
      then fatal restarted.0 restarted.1
      else done (cleanup_responses msg.proposal_num logged.0) logged.1
