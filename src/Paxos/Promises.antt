-- ===== src/Paxos/Promises.antt =====
-- The acceptor's side of lab4/src/main.go: promises are kept.
use lab.Paxos.Peers.{handle_message, run, dispatch, log_first}
use lab.Paxos.Proposer.{
  handle_prepare_ack, start_paxos, handle_accept_ack, Ending, cleanup_responses, done, send_accept,
  fatal, store, accept_message, prepare_message, open_round,
}
use lab.Paxos.Roles.{find_proposer}
use lab.Paxos.Frames.{
  answer_connected-Reconnected, answer_proposer-Reconnected, broadcast_to_acceptors-Reconnected,
}
use lab.Paxos.Acceptor.{handle_prepare, handle_accept, log_chose, promise}
use lab.Base.{
  ◌≡◌, ◌≤ℤ◌, ◌⊎◌, arith, false, List, ◌∷◌, ◌≢◌, [], ◌<ℤ◌, insert, true, int_eq, refl, ap, subst,
  inl, sym, pos_part, inr, neg_part,
}
use lab.Paxos.Types.{
  Peer, Library, Message, sent, accept_ack, accept, Action, MessageType, prepare, prepare_ack,
  chose, other_type,
}

-- What an acceptor may do between two states: its promise only grows, and it takes over a value
-- only under a number that its promise allows.
pub record Advances (p q : Peer) : Type 0 where
  pub promise_grows : p.min_proposal ≤ℤ q.min_proposal
  pub accepts :
      ((q.accepted_num ≡ p.accepted_num) × (q.accepted_value ≡ p.accepted_value))
      ⊎ ((p.min_proposal ≤ℤ q.accepted_num) × (q.accepted_num ≤ℤ q.min_proposal))

-- No accepted number is above the promise.
abbrev pub IsBounded : Peer → Type 0
IsBounded p = p.accepted_num ≤ℤ p.min_proposal

module _ (lib : Library) where
  handle_prepare-Advances : (m : Message) (p : Peer) → Advances p (handle_prepare lib m p).0
  unfolding handle_prepare
  handle_prepare-Advances m p =
      let promised = record p { min_proposal = m.proposal_num; has_chosen = false } in
      ground (
        arith,
        answer_proposer-Reconnected lib (promise lib m promised)
            (find_proposer lib m.peer_id p.peer_roles p.peer_roles) p.peer_roles promised,
      )

  handle_accept-Advances : (m : Message) (p : Peer) → Advances p (handle_accept lib m p).0
  unfolding handle_accept log_chose
  handle_accept-Advances m p = ground (
    arith,
    answer_connected-Reconnected lib
        (record {
          peer_id = p.id;
          action = sent;
          message_type = accept_ack;
          message_value = m.message_value;
          proposal_num = m.proposal_num;
        })
        (find_proposer lib m.peer_id p.peer_roles p.peer_roles) p.connections
        (record p {
          min_proposal = m.proposal_num;
          accepted_num = m.proposal_num;
          accepted_value = m.message_value;
        }),
  )

  handle_prepare_ack-Advances : (m : Message) (p : Peer) → Advances p (handle_prepare_ack lib m p).0
  unfolding handle_prepare_ack send_accept
  handle_prepare_ack-Advances m p =
      let marked = record p {
        prepare_responses = store m.proposal_num m.peer_id m p.prepare_responses;
        accept_sent = insert m.proposal_num true p.accept_sent;
      } in
      ground (
        arith,
        broadcast_to_acceptors-Reconnected lib (accept_message m.proposal_num marked) marked,
      )

  -- The state that a handler ends in.
  abbrev pub after : Ending → Peer
  after (done q out) = q
  after (fatal q out) = q

  start_paxos-Advances : (p : Peer) → Advances p (start_paxos lib p).0
  unfolding start_paxos cleanup_responses
  start_paxos-Advances p = ground (
    arith,
    broadcast_to_acceptors-Reconnected lib (prepare_message (open_round p)) (open_round p),
  )

  handle_accept_ack-Advances :
      (m : Message) (p : Peer) → Advances p (after (handle_accept_ack lib m p))
  unfolding handle_accept_ack cleanup_responses log_chose
  handle_accept_ack-Advances m p = ground (
    arith,
    start_paxos-Advances (
        cleanup_responses m.proposal_num
          (record p { accept_responses = store m.proposal_num m.peer_id m p.accept_responses })),
  )

  dispatch-Advances :
      (t : MessageType) (m : Message) (p : Peer) → Advances p (after (dispatch lib t m p))
  unfolding dispatch
  dispatch-Advances prepare m p = handle_prepare-Advances m p
  dispatch-Advances prepare_ack m p = handle_prepare_ack-Advances m p
  dispatch-Advances accept m p = handle_accept-Advances m p
  dispatch-Advances accept_ack m p = handle_accept_ack-Advances m p
  dispatch-Advances chose m p = ground arith
  dispatch-Advances other_type m p = ground arith

  after-log_first : (m : Message) (r : Ending) → after (log_first lib m r) ≡ after r
  unfolding log_first
  after-log_first m (done q out) = refl
  after-log_first m (fatal q out) = refl

  -- No message makes a peer go back on its promise.
  handle_message-Advances : (m : Message) (p : Peer) → Advances p (after (handle_message lib m p))
  unfolding handle_message
  handle_message-Advances m p =
      subst (Advances p) (sym (after-log_first m (dispatch lib m.message_type m p)))
        (dispatch-Advances m.message_type m p)

  -- A run ends where the run of the remaining messages ends, or with a fatal error at its first
  -- message.
  after-run :
      (m : Message) (ms : List Message) (p : Peer)
      → (after (run lib (m ∷ ms) p) ≡ after (run lib ms (after (handle_message lib m p))))
        ⊎ (after (run lib (m ∷ ms) p) ≡ after (handle_message lib m p))
  unfolding run
  after-run m ms p = by_first (handle_message lib m p) refl
    where
      by_rest :
          (q : Peer) (out : List Action) (r : Ending)
          → run lib ms q ≡ r
          → handle_message lib m p ≡ done q out
          → after (run lib (m ∷ ms) p) ≡ after (run lib ms q)
      by_rest q out (done q' later) k e = rw (e, run, k)
      by_rest q out (fatal q' later) k e = rw (e, run, k)

      by_first :
          (r : Ending)
          → handle_message lib m p ≡ r
          → (after (run lib (m ∷ ms) p) ≡ after (run lib ms (after (handle_message lib m p))))
            ⊎ (after (run lib (m ∷ ms) p) ≡ after (handle_message lib m p))
      by_first (fatal q out) e = inr (rw (e, run))
      by_first (done q out) e = inl (rw e (by_rest q out (run lib ms q) refl e))

  -- What a peer reads of Advances over a whole run.
  record Holds (p q : Peer) : Type 0 where
    promise_grows : p.min_proposal ≤ℤ q.min_proposal
    stays_bounded : IsBounded p → IsBounded q

  run-Holds : (ms : List Message) (p : Peer) → Holds p (after (run lib ms p))
  unfolding run
  run-Holds [] p = ground arith
  run-Holds (m ∷ ms) p =
      let first = handle_message-Advances m p in
      let later = run-Holds ms (after (handle_message lib m p)) in
      elim (after-run m ms p) [ inl e ↦ ground arith | inr e ↦ ground arith ]

  -- Through every run of messages the promise of a peer only grows, and it never accepts a number
  -- above its promise.
  pub run-IsBounded :
      (ms : List Message) (p : Peer)
      → IsBounded p
      → IsBounded (after (run lib ms p)) × (p.min_proposal ≤ℤ (after (run lib ms p)).min_proposal)
  run-IsBounded ms p h = ((run-Holds ms p).stays_bounded h, (run-Holds ms p).promise_grows)

  min_proposal-handle_prepare :
      (m : Message) (p : Peer)
      → (handle_prepare lib m p).1 ≢ []
      → (handle_prepare lib m p).0.min_proposal ≡ m.proposal_num
  unfolding handle_prepare
  min_proposal-handle_prepare m p h =
      let promised = record p { min_proposal = m.proposal_num; has_chosen = false } in
      ground (
        arith,
        answer_proposer-Reconnected lib (promise lib m promised)
            (find_proposer lib m.peer_id p.peer_roles p.peer_roles) p.peer_roles promised,
      )

  handle_accept_below :
      (m : Message) (p : Peer) → m.proposal_num <ℤ p.min_proposal → handle_accept lib m p ≡ (p, [])
  unfolding handle_accept
  handle_accept_below m p h = ground arith

  -- A promise is kept through every run of messages: an accept message under a lower number than a
  -- prepare message that the peer has answered leaves the peer as it is, and is not answered.
  pub promise_kept :
      (prep late : Message) (ms : List Message) (p : Peer)
      → (handle_prepare lib prep p).1 ≢ []
      → late.proposal_num <ℤ prep.proposal_num
      → handle_accept lib late (after (run lib ms (handle_prepare lib prep p).0))
        ≡ (after (run lib ms (handle_prepare lib prep p).0), [])
  promise_kept prep late ms p h k =
      handle_accept_below late (after (run lib ms (handle_prepare lib prep p).0)) (
        omega (
          arith,
          ap pos_part (min_proposal-handle_prepare prep p h),
          ap neg_part (min_proposal-handle_prepare prep p h),
          (run-Holds ms (handle_prepare lib prep p).0).promise_grows,
        ))
