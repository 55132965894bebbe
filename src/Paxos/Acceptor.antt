-- ===== src/Paxos/Acceptor.antt =====
-- The acceptor's handlers of lab4/src/main.go.
use lab.Base.{
  true, false, not, String, List, [], ◌∷◌, ◌++◌, Map, ◌==◌, string_eq, if◌then◌else◌, ℤ, ltb_ℤ,
  leb_ℤ,
}
use lab.Paxos.Types.{
  Peer, Message, Library, Action, log_message, prepare_ack, accept_ack, chose, sent, chosen,
}
use lab.Paxos.Roles.{contains_role, is_acceptor_for, find_proposer, send_message}

module _ (lib : Library) where
  -- The loop of handlePrepare that answers the first host with the proposer's role.
  unfoldable pub answer_proposer :
      Message → ℤ → Map String (List String) → Peer → Peer × List Action
  answer_proposer msg proposer_num [] peer = (peer, [])
  answer_proposer msg proposer_num ((host, roles) ∷ rest) peer =
      if contains_role roles (lib.format "proposer" proposer_num)
      then send_message lib host msg peer
      else answer_proposer msg proposer_num rest peer

  -- The answer to a prepare message.
  unfoldable pub promise : Message → Peer → Message
  promise msg peer = record {
    peer_id = peer.id;
    action = sent;
    message_type = prepare_ack;
    message_value = peer.accepted_value;
    proposal_num = if peer.accepted_value == "" then msg.proposal_num else peer.accepted_num;
  }

  -- handlePrepare
  unfoldable pub handle_prepare : Message → Peer → Peer × List Action
  handle_prepare msg peer =
      let proposer_num = find_proposer lib msg.peer_id peer.peer_roles peer.peer_roles in
      let promised = record peer { min_proposal = msg.proposal_num; has_chosen = false } in
      let response = promise msg promised in
      let answered = answer_proposer response proposer_num peer.peer_roles promised in
      if not (is_acceptor_for lib peer.roles proposer_num)
      then (peer, [])
      else if ltb_ℤ peer.min_proposal msg.proposal_num
      then (answered.0, log_message response ∷ answered.1)
      else (peer, [])

  unfoldable pub roles_of : String → Map String (List String) → List String
  roles_of host [] = []
  roles_of host ((other, roles) ∷ rest) = if other == host then roles else roles_of host rest

  -- The loop of handleAccept over the open connections.
  unfoldable pub answer_connected : Message → ℤ → List String → Peer → Peer × List Action
  unfolding roles_of
  answer_connected msg proposer_num [] peer = (peer, [])
  answer_connected msg proposer_num (host ∷ hosts) peer =
      if contains_role (roles_of host peer.peer_roles) (lib.format "proposer" proposer_num)
      then send_message lib host msg peer
      else answer_connected msg proposer_num hosts peer

  -- `if !peer.hasChosen { log "chose"; peer.hasChosen = true }`, for a value and its number.
  unfoldable pub log_chose : String → ℤ → Peer → Peer × List Action
  log_chose value num peer = if peer.has_chosen then (peer, []) else (
    record peer { has_chosen = true },
    log_message (record {
      peer_id = peer.id;
      action = chosen;
      message_type = chose;
      message_value = value;
      proposal_num = num;
    })
        ∷ [],
  )

  -- handleAccept
  unfoldable pub handle_accept : Message → Peer → Peer × List Action
  handle_accept msg peer =
      let proposer_num = find_proposer lib msg.peer_id peer.peer_roles peer.peer_roles in
      let accepted = record peer {
        min_proposal = msg.proposal_num;
        accepted_num = msg.proposal_num;
        accepted_value = msg.message_value;
      } in
      let response : Message = record {
        peer_id = peer.id;
        action = sent;
        message_type = accept_ack;
        message_value = msg.message_value;
        proposal_num = msg.proposal_num;
      } in
      let answered = answer_connected response proposer_num peer.connections accepted in
      let logged = log_chose msg.message_value msg.proposal_num answered.0 in
      if not (is_acceptor_for lib peer.roles proposer_num)
      then (peer, [])
      else if leb_ℤ peer.min_proposal msg.proposal_num
      then (logged.0, log_message response ∷ (answered.1 ++ logged.1))
      else (peer, [])
