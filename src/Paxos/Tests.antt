-- ===== src/Paxos/Tests.antt =====
-- The theorems about the Paxos peer at a proposer and its two acceptors.
use lab.Paxos.Roles.{
  send_message, send_each, broadcast_to_acceptors, find_proposer, get_peer_id, position,
  get_proposer_number, is_proposer, is_acceptor_for, contains_role,
}
use lab.Paxos.Values.{Every, AtMost, Some, HasValue, pick_is_paxos}
use lab.Paxos.Acceptor.{
  handle_prepare, handle_accept, promise, answer_proposer, answer_connected, log_chose, roles_of,
}
use lab.Paxos.Promises.{after, promise_kept}
use lab.Paxos.Peers.{handle_message, dispatch, run, log_first}
use lab.Paxos.Responses.{Inv, IsResponseLog}
use lab.Paxos.Settling.{EndsWell, run-EndsWell}
use lab.Paxos.Proposer.{
  handle_prepare_ack, pick, responses_to, handle_accept_ack, store, was_sent, has_rejection,
  send_accept, accept_message, start_paxos, open_round, prepare_message, cleanup_responses, Ending,
}
use lab.Base.{
  ◌≡◌, pos, String, Map, ℤ, suc, ◌∷◌, ◌≢◌, [], if◌then◌else◌, List, ◌==◌, zero, false, arith,
  string_eq, ◌||◌, true, ◌⊎◌, int_eq, lookup, insert, delete_where, refl,
}
use lab.Paxos.Types.{
  Peer, MessageType, Message, Library, sent, prepare_ack, accept, prepare, accept_ack,
}

-- Role texts, with the number as the text's last part.
number : ℤ → String
number (pos (suc zero)) = "1"
number (pos (suc (suc zero))) = "2"
number _ = "0"

word : String → ℤ → String
unfolding number
word w n =
    if w == "proposer"
    then (if number n == "1" then "proposer1" else "proposer2")
    else if number n == "1"
    then "acceptor1"
    else "acceptor2"

abbrev plain : Library
plain = record {
  sort_strings = λ hosts. hosts;
  has_prefix = λ s p. if p == "proposer" then (s == "proposer1") || (s == "proposer2") else false;
  trim_prefix = λ s p. if s == "proposer1" then "1" else "2";
  atoi = λ s. if s == "1" then pos 1 else pos 2;
  format = word;
  dial = λ host. true;
}

abbrev hosts : Map String (List String)
hosts = ("a", "proposer1" ∷ []) ∷ ("b", "acceptor1" ∷ []) ∷ ("c", "acceptor1" ∷ []) ∷ []

abbrev new_peer : ℤ → List String → Peer
new_peer id roles = record {
  id = id;
  proposer_num = pos 1;
  current_proposal = pos 0;
  roles = roles;
  min_proposal = pos 0;
  accepted_value = "";
  accepted_num = pos 0;
  proposed_value = "X";
  connections = [];
  prepare_responses = [];
  accept_responses = [];
  num_acceptors = 2;
  peer_roles = hosts;
  has_chosen = false;
  accept_sent = [];
}

abbrev proposer : Peer
proposer = new_peer (pos 1) ("proposer1" ∷ [])

abbrev acceptor : Peer
acceptor = new_peer (pos 2) ("acceptor1" ∷ [])

abbrev message : MessageType → ℤ → String → ℤ → Message
message t id value num = record {
  peer_id = id;
  action = sent;
  message_type = t;
  message_value = value;
  proposal_num = num;
}

-- Everything that a peer computes with.
computing : Library → Message → Peer → Ending
unfolding handle_message dispatch log_first handle_prepare handle_accept handle_prepare_ack
    handle_accept_ack promise answer_proposer answer_connected send_message send_each
    broadcast_to_acceptors find_proposer get_peer_id position get_proposer_number is_proposer
    is_acceptor_for contains_role log_chose roles_of store responses_to lookup insert delete_where
    was_sent has_rejection pick send_accept accept_message start_paxos open_round prepare_message
    cleanup_responses word number run
computing = handle_message

nil-IsResponseLog : IsResponseLog []
unfolding computing
nil-IsResponseLog num = (tt, tt)

proposer-Inv : Inv proposer
proposer-Inv = record { promises = nil-IsResponseLog; accepts = nil-IsResponseLog }

abbrev prepared : Message
prepared = message prepare (pos 1) "" (pos 5)

answered : (handle_prepare plain prepared acceptor).1 ≢ []
unfolding computing
answered e = cc

promise_kept_example :
    handle_accept plain (message accept (pos 1) "Y" (pos 3)) (
      after plain (
        run plain
          (message prepare (pos 1) "" (pos 7) ∷ [])
          (handle_prepare plain prepared acceptor).0))
    ≡ (
      after plain (
          run plain
            (message prepare (pos 1) "" (pos 7) ∷ [])
            (handle_prepare plain prepared acceptor).0),
      [],
    )
promise_kept_example =
    promise_kept plain prepared (message accept (pos 1) "Y" (pos 3))
      (message prepare (pos 1) "" (pos 7) ∷ []) acceptor answered (omega arith)

-- The acceptor's run ends at the accepted value.
run_accepts :
    (after plain
      (run plain (prepared ∷ message accept (pos 1) "Y" (pos 6) ∷ []) acceptor)).accepted_value
    ≡ "Y"
unfolding computing
run_accepts = refl

pick_is_paxos_example :
    ((pick ((pos 2, message prepare_ack (pos 2) "Y" (pos 3)) ∷ []) (pos 0) "X" ≡ (pos 0, "X"))
      × Every (AtMost (pos 0)) ((pos 2, message prepare_ack (pos 2) "Y" (pos 3)) ∷ []))
    ⊎ Some
        (λ r.
          HasValue r
          × ((pick ((pos 2, message prepare_ack (pos 2) "Y" (pos 3)) ∷ []) (pos 0) "X").1
              ≡ r.message_value)
          × Every (AtMost r.proposal_num) ((pos 2, message prepare_ack (pos 2) "Y" (pos 3)) ∷ []))
        ((pos 2, message prepare_ack (pos 2) "Y" (pos 3)) ∷ [])
pick_is_paxos_example = pick_is_paxos ((pos 2, message prepare_ack (pos 2) "Y" (pos 3)) ∷ []) "X"

run-EndsWell_example : EndsWell (
    run plain
      (message prepare_ack (pos 2) "" (pos 1)
        ∷ message accept_ack (pos 2) "X" (pos 1)
        ∷ message accept_ack (pos 3) "X" (pos 1)
        ∷ [])
      proposer)
run-EndsWell_example =
    run-EndsWell plain
      (message prepare_ack (pos 2) "" (pos 1)
        ∷ message accept_ack (pos 2) "X" (pos 1)
        ∷ message accept_ack (pos 3) "X" (pos 1)
        ∷ [])
      proposer proposer-Inv

abbrev first_ack : Message
first_ack = message prepare_ack (pos 2) "" (pos 1)

abbrev second_ack : Message
second_ack = message prepare_ack (pos 3) "" (pos 1)

abbrev half : Peer
half = record proposer { prepare_responses = (pos 1, (pos 2, first_ack) ∷ []) ∷ [] }
