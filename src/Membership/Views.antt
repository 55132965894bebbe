-- ===== src/Membership/Views.antt =====
-- Views and their changes in lab3/src/main.go: updateMembership, the two phases of joining and
-- removal, and the handlers of REQ and NEWVIEW.
use lab.Membership.Types.{order_of}
use lab.Base.{
  ℕ, zero, suc, ◌+◌, ◌-◌, ◌/◌, Bool, true, false, not, List, [], ◌∷◌, ◌++◌, Option, none, some, Map,
  length, lookup, insert, ltb, leb, nat_beq, nat_eq, if◌then◌else◌, ◌&&◌, add64, map,
}
use lab.Membership.Types.{
  Peer, Message, Node, Action, send_to, reply, Operation, add, delete, unset, req, ok, new_view,
  Kind,
}

unfoldable pub insert_peer : Peer → List Peer → List Peer
insert_peer p [] = p ∷ []
insert_peer p (q ∷ qs) = if ltb q.id p.id then q ∷ insert_peer p qs else p ∷ q ∷ qs

-- sort.Slice by ID
unfoldable pub sort_peers : List Peer → List Peer
unfolding insert_peer
sort_peers [] = []
sort_peers (p ∷ ps) = insert_peer p (sort_peers ps)

-- updateMembership
unfoldable pub update_membership : List Peer → Node → Node
update_membership alive node = record node {
  view_id = add64 node.view_id 1;
  peers = sort_peers alive;
}

-- The loop that reads a number of answers off the channel: the count of OKs, or nothing when the
-- timeout comes first. The list holds the answers in the order in which they arrive in time.
unfoldable pub collect : ℕ → List Bool → Option ℕ
collect zero arrived = some 0
collect (suc n) [] = none
collect (suc n) (answer ∷ arrived) = elim (collect n arrived) [
  | none ↦ none
  | some count ↦ some (if answer then count + 1 else count)
]

abbrev pub is_ok : Kind → Bool
is_ok ok = true
is_ok _ = false

-- The value that sendReqMessage returns for a response.
unfoldable pub is_ok_response : ℕ → ℕ → Message → Bool
is_ok_response req_id view_id response =
    is_ok response.kind && (nat_beq response.request_id req_id && nat_beq response.view_id view_id)

unfoldable pub req_message : ℕ → ℕ → Operation → ℕ → Message
req_message req_id view_id operation peer_id = record {
  kind = req;
  request_id = req_id;
  view_id = view_id;
  operation = operation;
  peer_id = peer_id;
  peers = none;
}

unfoldable pub new_view_message : ℕ → List Peer → Message
new_view_message view_id peers = record {
  kind = new_view;
  request_id = 0;
  view_id = view_id;
  operation = unset;
  peer_id = 0;
  peers = some peers;
}

-- A loop over peers that sends a message to those that pass a test.
unfoldable pub send_where : (Peer → Bool) → Message → List Peer → List Action
send_where test msg [] = []
send_where test msg (p ∷ ps) =
    if test p then send_to p msg ∷ send_where test msg ps else send_where test msg ps

abbrev pub is_other : ℕ → Peer → Bool
is_other my_id p = not (nat_beq p.id my_id) && p.is_alive

-- The first phase of handleJoinRequest.
unfoldable pub ask_join : ℕ → ℕ → Node → List Action
ask_join req_id peer_id node =
    send_where (is_other node.my_id) (req_message req_id node.view_id add peer_id) node.peers

-- The second phase, for the view number that the first one has read.
unfoldable pub commit_join : ℕ → ℕ → ℕ → Node → Node × List Action
unfolding update_membership
commit_join now view_id peer_id node =
    let joined : Peer = record {
      id = peer_id;
      hostname = node.id_to_hostname peer_id;
      is_alive = true;
    } in
    let updated = update_membership (node.peers ++ (joined ∷ [])) node in
    (
      record updated { last_heartbeat = insert peer_id now updated.last_heartbeat },
      send_where (λ p. p.is_alive) (new_view_message (add64 view_id 1) updated.peers) updated.peers,
    )

-- The loop of handleJoinRequest, which reads the number of members again before each round: the count
-- of OKs, or nothing when the timeout comes first. The list holds, for each answer that arrives in
-- time, the number of members at the test in front of it; the last argument is the one at the end.
unfoldable pub count_answers : ℕ → List (ℕ × Bool) → ℕ → Option ℕ
count_answers i [] members = if ltb i (members - 1) then none else some 0
count_answers i ((before, answer) ∷ arrived) members =
    let rest = count_answers (i + 1) arrived members in
    if ltb i (before - 1)
    then (elim rest [ none ↦ none | some count ↦ some (if answer then count + 1 else count) ])
    else some 0

-- handleJoinRequest behind its first phase: the wait, and the second phase. The state is the one at
-- the end of the wait.
unfoldable pub finish_join : ℕ → List (ℕ × Bool) → ℕ → ℕ → Node → Node × List Action
finish_join now arrived view_id peer_id node = elim (count_answers 0 arrived (length node.peers)) [
  | none ↦ (node, [])
  | some count ↦
      if ltb count ((length node.peers - 1) / 2)
      then (node, [])
      else commit_join now view_id peer_id node
]

-- handleJoinRequest with no other event during the wait.
unfoldable pub handle_join_request : ℕ → ℕ → List Bool → ℕ → Node → Node × List Action
handle_join_request now req_id arrived peer_id node =
    let members = length node.peers in
    let finished =
      finish_join now (map (λ answer. (members, answer)) arrived) node.view_id peer_id node in
    (finished.0, ask_join req_id peer_id node ++ finished.1)

unfoldable pub without : ℕ → List Peer → List Peer
without peer_id [] = []
without peer_id (p ∷ ps) =
    if nat_beq p.id peer_id then without peer_id ps else p ∷ without peer_id ps

-- removePeerAndSendNewView
unfoldable pub remove_peer : ℕ → Node → Node × List Action
remove_peer peer_id node =
    let updated = without peer_id node.peers in
    (
      record node { view_id = add64 node.view_id 1; peers = updated },
      send_where (λ p. not (nat_beq p.id node.my_id))
          (new_view_message (add64 node.view_id 1) updated) updated,
    )

-- The peers that initiateRemovePeer asks.
abbrev pub is_asked : ℕ → ℕ → Peer → Bool
is_asked my_id peer_id p = is_other my_id p && not (nat_beq p.id peer_id)

unfoldable pub count_where : (Peer → Bool) → List Peer → ℕ
count_where test [] = 0
count_where test (p ∷ ps) = if test p then suc (count_where test ps) else count_where test ps

-- initiateRemovePeer with no other event during the wait.
unfoldable pub initiate_remove_peer : ℕ → List Bool → ℕ → Node → Node × List Action
initiate_remove_peer req_id arrived peer_id node =
    let asked = is_asked node.my_id peer_id in
    let active = count_where asked node.peers in
    let asks = send_where asked (req_message req_id node.view_id delete peer_id) node.peers in
    let removed = remove_peer peer_id node in
    if not node.is_leader then (node, []) else elim (collect active arrived) [
      | none ↦ (node, asks)
      | some count ↦ if ltb count (active / 2) then (node, asks) else (removed.0, asks ++ removed.1)
    ]

-- handleReqMessage
unfoldable pub handle_req : Message → Node → Node × List Action
handle_req msg node = (
  record node { pending_operation = some msg },
  reply (record {
    kind = ok;
    request_id = msg.request_id;
    view_id = msg.view_id;
    operation = unset;
    peer_id = 0;
    peers = none;
  })
      ∷ [],
)

-- The loop of handleNewViewMessage that builds the new heartbeat times.
unfoldable pub reset_heartbeats : ℕ → ℕ → Map ℕ ℕ → List Peer → Map ℕ ℕ → Map ℕ ℕ
reset_heartbeats now my_id old [] new = new
reset_heartbeats now my_id old (p ∷ ps) new =
    let beat : ℕ = elim (lookup p.id old) [ none ↦ now | some t ↦ t ] in
    reset_heartbeats now my_id old ps (if is_other my_id p then insert p.id beat new else new)

-- handleNewViewMessage
unfoldable pub handle_new_view : ℕ → Message → Node → Node
handle_new_view now msg node =
    if leb (order_of msg.view_id) (order_of node.view_id) then node else elim msg.peers [
      | none ↦ record node { view_id = msg.view_id; pending_operation = none }
      | some peers ↦ record node {
        view_id = msg.view_id;
        peers = peers;
        last_heartbeat = reset_heartbeats now node.my_id node.last_heartbeat peers [];
        pending_operation = none;
      }
    ]
