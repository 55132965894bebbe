-- ===== src/Membership/Election.antt =====
-- Failure detection and the election of a leader in lab3/src/main.go, and what a new leader does.
use lab.Base.{
  ℕ, ◌+◌, ◌-◌, Bool, true, false, not, List, [], ◌∷◌, ◌++◌, Option, none, some, length, lookup, ltb,
  nat_beq, nat_eq, if◌then◌else◌, ◌&&◌, add64,
}
use lab.Membership.Types.{
  Peer, Message, Node, Action, reply, start_leader_loop, start_reconciliation, Operation, add,
  delete, pending, nothing, unset, ok, failure_timeout,
}
use lab.Membership.Views.{
  handle_join_request, initiate_remove_peer, is_other, send_where, new_view_message,
}

-- math.MaxInt32
abbrev pub max_int32 : ℕ
max_int32 = 2147483647

-- The loop of findNextLeaderID.
unfoldable pub least_id : ℕ → List Peer → ℕ → ℕ
least_id leader_id [] min = min
least_id leader_id (p ∷ ps) min =
    least_id leader_id ps
      (if not (nat_beq p.id leader_id) && p.is_alive && ltb p.id min then p.id else min)

-- findNextLeaderID
unfoldable pub find_next_leader_id : Node → ℕ
find_next_leader_id node = least_id node.leader_id node.peers max_int32

-- handleLeaderFailure
unfoldable pub handle_leader_failure : Node → Node × List Action
handle_leader_failure node =
    let next = find_next_leader_id node in
    if nat_beq node.my_id next
    then (
      record node { is_leader = true; leader_id = node.my_id },
      start_leader_loop ∷ start_reconciliation ∷ [],
    )
    else (record node { leader_id = next }, [])

-- The test of failureDetector: a heartbeat has come before, and too long ago.
unfoldable pub is_silent : ℕ → Node → Peer → Bool
is_silent now node p = elim (lookup p.id node.last_heartbeat) [
  | none ↦ false
  | some beat ↦ ltb failure_timeout (now - beat)
]

-- What failureDetector does about one peer.
unfoldable pub check_peer : ℕ → Peer → Node → Node × List Action
check_peer now p node =
    if is_other node.my_id p && is_silent now node p
    then (if nat_beq p.id node.leader_id
        then handle_leader_failure node
        else if node.is_leader
        then (record node { removal_requests = node.removal_requests ++ (p.id ∷ []) }, [])
        else (node, []))
    else (node, [])

-- One round of failureDetector, over the members at its start.
unfoldable pub check_all : ℕ → List Peer → Node → Node × List Action
check_all now [] node = (node, [])
check_all now (p ∷ ps) node =
    let first = check_peer now p node in
    let rest = check_all now ps first.0 in (rest.0, first.1 ++ rest.1)

-- handleNewLeaderMessage
unfoldable pub handle_new_leader : Message → Node → List Action
handle_new_leader msg node = elim node.pending_operation [
  | some op ↦ reply op ∷ []
  | none ↦
      reply (record {
        kind = ok;
        request_id = msg.request_id;
        view_id = msg.view_id;
        operation = nothing;
        peer_id = 0;
        peers = none;
      })
      ∷ []
]

abbrev pub is_nothing : Operation → Bool
is_nothing nothing = true
is_nothing _ = false

-- The loop of initiateReconciliation, which reads the number of members again before each round: the
-- responses of an operation, or nothing on a timeout. Each response has the number of members at the
-- test in front of it; the last argument is the one at the end.
unfoldable pub collect_pending : ℕ → List (ℕ × Message) → ℕ → Option (List Message)
collect_pending i [] members = if ltb i (members - 1) then none else some []
collect_pending i ((before, response) ∷ arrived) members =
    let rest = collect_pending (i + 1) arrived members in
    if ltb i (before - 1)
    then (elim rest [
      | none ↦ none
      | some ops ↦ some (if is_nothing response.operation then ops else response ∷ ops)
    ])
    else some []

-- The pending operation that a new leader takes up: the first one only.
unfoldable pub take_up : ℕ → ℕ → List Bool → Operation → ℕ → Node → Node × List Action
take_up now req_id answers add peer_id node = handle_join_request now req_id answers peer_id node
take_up now req_id answers delete peer_id node = initiate_remove_peer req_id answers peer_id node
take_up now req_id answers pending peer_id node = (node, [])
take_up now req_id answers nothing peer_id node = (node, [])
take_up now req_id answers unset peer_id node = (node, [])

unfoldable pub resume : ℕ → ℕ → List Bool → List Message → Node → Node × List Action
unfolding take_up
resume now req_id answers [] node = (node, [])
resume now req_id answers (op ∷ ops) node = take_up now req_id answers op.operation op.peer_id node

-- initiateReconciliation, from the responses that arrive in time on.
unfoldable pub reconcile : ℕ → ℕ → List (ℕ × Message) → List Bool → Node → Node × List Action
reconcile now req_id arrived answers node = elim (collect_pending 0 arrived (length node.peers)) [
  | none ↦ (node, [])
  | some ops ↦
      let resumed = resume now req_id answers ops node in
      let next = record (resumed.0) { view_id = add64 resumed.0.view_id 1 } in
      (
        next,
        resumed.1
            ++ send_where (is_other next.my_id) (new_view_message next.view_id next.peers)
                next.peers,
      )
]
