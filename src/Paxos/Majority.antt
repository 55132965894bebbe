-- ===== src/Paxos/Majority.antt =====
-- Majorities in lab4/src/main.go: who stands behind an accept message, and how promises are counted.
use lab.Paxos.Responses.{responses_to-store}
use lab.Paxos.Acceptor.{promise}
use lab.Paxos.Frames.{Reconnected, broadcast_to_acceptors-Reconnected}
use lab.Paxos.Proposer.{
  responses_to, store, send_accept, handle_prepare_ack, accept_message, was_sent,
}
use lab.Base.{
  ◌≡◌, insert, ℤ, [], false, sym, int_eq, if◌then◌else◌, ◌==◌, arith, inl, inr, refl, true, ◌≢◌,
  ◌≤◌, ◌/◌, beq_ne, ◌<◌, string_eq, size, ◌⊎◌, lookup-insert_self, beq_self, ◌∙◌,
}
use lab.Paxos.Types.{Peer, Message, Responses, Library}

module _ (lib : Library) where
  send_accept-Reconnected :
      (num : ℤ) (p : Peer)
      → Reconnected
          (record p { accept_sent = insert num true p.accept_sent })
          (send_accept lib num p).0
  unfolding send_accept
  send_accept-Reconnected num p =
      let marked = record p { accept_sent = insert num true p.accept_sent } in
      broadcast_to_acceptors-Reconnected lib (accept_message num marked) marked

  -- A handler that sends has passed all of its tests.
  handle_prepare_ack_sends :
      (m : Message) (p : Peer)
      → (handle_prepare_ack lib m p).1 ≢ []
      → (p.num_acceptors / 2
          < size (responses_to m.proposal_num (handle_prepare_ack lib m p).0.prepare_responses))
        × ((handle_prepare_ack lib m p).0.accept_sent ≡ insert m.proposal_num true p.accept_sent)
  unfolding handle_prepare_ack
  handle_prepare_ack_sends m p h = ground (
    arith,
    send_accept-Reconnected m.proposal_num
        (record p { prepare_responses = store m.proposal_num m.peer_id m p.prepare_responses }),
  )

  was_sent-insert :
      (num : ℤ) (p q : Peer) → q.accept_sent ≡ insert num true p.accept_sent → was_sent num q ≡ true
  unfolding was_sent
  was_sent-insert num p q e = rw (was_sent, e, lookup-insert_self num true p.accept_sent)

  -- The proposer sends once for a number: after that, every further promise under that number leaves
  -- it as it is and sends nothing.
  pub handle_prepare_ack_once :
      (m again : Message) (p : Peer)
      → (handle_prepare_ack lib m p).1 ≢ []
      → again.proposal_num ≡ m.proposal_num
      → handle_prepare_ack lib again (handle_prepare_ack lib m p).0
        ≡ ((handle_prepare_ack lib m p).0, [])
  handle_prepare_ack_once m again p h e =
      let marked =
        was_sent-insert m.proposal_num p (handle_prepare_ack lib m p).0
          (handle_prepare_ack_sends m p h).1 in
      quiet again (handle_prepare_ack lib m p).0 (rw e marked)
    where
      quiet :
          (m : Message) (q : Peer)
          → was_sent m.proposal_num q ≡ true
          → handle_prepare_ack lib m q ≡ (q, [])
      quiet m q k = unfold handle_prepare_ack in (ground arith)

  size-store_first :
      (m : Message) (rs : Responses)
      → responses_to m.proposal_num rs ≡ []
      → size (responses_to m.proposal_num (store m.proposal_num m.peer_id m rs)) ≡ 1
  unfolding insert
  size-store_first m rs e =
      rw (
        responses_to-store m.proposal_num m.proposal_num m.peer_id m rs,
        beq_self m.proposal_num,
        e,
      )

  responses_to-store_ne :
      (m : Message) (j : ℤ) (rs : Responses)
      → m.proposal_num ≢ j
      → responses_to j (store m.proposal_num m.peer_id m rs) ≡ responses_to j rs
  responses_to-store_ne m j rs h =
      rw (responses_to-store m.proposal_num j m.peer_id m rs, beq_ne m.proposal_num j h)

  -- The first response to a number is not enough where there are two acceptors or more.
  handle_prepare_ack_first :
      (m : Message) (p : Peer)
      → responses_to m.proposal_num p.prepare_responses ≡ []
      → 2 ≤ p.num_acceptors
      → ((handle_prepare_ack lib m p).1 ≡ [])
        × ((handle_prepare_ack lib m p).0.num_acceptors ≡ p.num_acceptors)
        × (((handle_prepare_ack lib m p).0.prepare_responses ≡ p.prepare_responses)
            ⊎ ((handle_prepare_ack lib m p).0.prepare_responses
                ≡ store m.proposal_num m.peer_id m p.prepare_responses))
  unfolding handle_prepare_ack
  handle_prepare_ack_first m p e h = ground (arith, size-store_first m p.prepare_responses e)

  firsts_apart :
      (m n : Message) (p : Peer)
      → m.proposal_num ≢ n.proposal_num
      → 2 ≤ p.num_acceptors
      → responses_to m.proposal_num p.prepare_responses ≡ []
      → responses_to n.proposal_num p.prepare_responses ≡ []
      → ((handle_prepare_ack lib m p).1 ≡ [])
        × ((handle_prepare_ack lib n (handle_prepare_ack lib m p).0).1 ≡ [])
  firsts_apart m n p c d e k =
      let (silent, same, kept) = handle_prepare_ack_first m p e d in
      let q = (handle_prepare_ack lib m p).0 in
      let still : responses_to n.proposal_num q.prepare_responses ≡ [] = elim kept [
        | inl h ↦ rw h k
        | inr h ↦ rw h (responses_to-store_ne m n.proposal_num p.prepare_responses c ∙ k)
      ] in
      (silent, (handle_prepare_ack_first n q still (omega arith)).0)

  promise_number :
      (request : Message) (acceptor : Peer)
      → (promise lib request acceptor).proposal_num
        ≡ (if acceptor.accepted_value == "" then request.proposal_num else acceptor.accepted_num)
  unfolding promise
  promise_number request acceptor = refl

  -- A promise of an acceptor that has accepted a value is filed under the accepted number, not under
  -- the number that was asked for. So with two acceptors or more, a promise of a fresh acceptor and
  -- one of an acceptor that has accepted under another number, as the first responses to their
  -- numbers, do not make the proposer send.
  pub promises_counted_apart :
      (request : Message) (fresh old p : Peer)
      → (fresh.accepted_value == "") ≡ true
      → (old.accepted_value == "") ≡ false
      → request.proposal_num ≢ old.accepted_num
      → 2 ≤ p.num_acceptors
      → responses_to request.proposal_num p.prepare_responses ≡ []
      → responses_to old.accepted_num p.prepare_responses ≡ []
      → ((handle_prepare_ack lib (promise lib request fresh) p).1 ≡ [])
        × ((handle_prepare_ack lib
              (promise lib request old)
              (handle_prepare_ack lib (promise lib request fresh) p).0).1
            ≡ [])
  promises_counted_apart request fresh old p a b c d e k =
      let one = promise_number request fresh ∙ (rw a) in
      let two = promise_number request old ∙ (rw b) in
      firsts_apart (promise lib request fresh) (promise lib request old) p
        (λ h. c (sym one ∙ h ∙ two)) d (rw one e) (rw two k)
