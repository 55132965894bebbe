-- ===== src/Membership/Machine.antt =====
-- A process of lab3/src/main.go as a state machine: the events that reach it, one after another.
use lab.Base.{ℕ, Bool, List, [], ◌∷◌, insert, nat_eq, if◌then◌else◌}
use lab.Membership.Types.{
  Node, Message, Action, Kind, join, req, ok, new_view, new_leader, other_kind,
}
use lab.Membership.Views.{
  handle_join_request, initiate_remove_peer, finish_join, handle_req, handle_new_view,
}
use lab.Membership.Election.{check_all, handle_new_leader, reconcile}

pub data Event : Type 0 where
  -- A message on a new connection; the answers are those to the requests that it makes a leader send.
  connection : List Bool → Message → Event
  -- The wait of a join that began earlier, at a view number, is over; each answer has the number of
  -- members at the test in front of it.
  join_answers : List (ℕ × Bool) → ℕ → ℕ → Event
  -- The leader's loop takes a removal request.
  take_removal : List Bool → Event
  heartbeat : ℕ → Event
  detect : Event
  -- The responses to a new leader are in.
  reconciliation : List (ℕ × Message) → List Bool → Event

-- handleConnection
unfoldable pub dispatch : ℕ → ℕ → List Bool → Kind → Message → Node → Node × List Action
dispatch now req_id answers join msg node =
    if node.is_leader then handle_join_request now req_id answers msg.peer_id node else (node, [])
dispatch now req_id answers req msg node = handle_req msg node
dispatch now req_id answers ok msg node = (node, [])
dispatch now req_id answers new_view msg node = (handle_new_view now msg node, [])
dispatch now req_id answers new_leader msg node = (node, handle_new_leader msg node)
dispatch now req_id answers other_kind msg node = (node, [])

-- leaderLoop and initiateRemovePeer
unfoldable pub remove_next : ℕ → List Bool → List ℕ → Node → Node × List Action
remove_next req_id answers [] node = (node, [])
remove_next req_id answers (peer_id ∷ rest) node =
    if node.is_leader
    then initiate_remove_peer req_id answers peer_id (record node { removal_requests = rest })
    else (record node { removal_requests = rest }, [])

-- An event at a time; request numbers are times too.
unfoldable pub step : ℕ → Event → Node → Node × List Action
unfolding dispatch remove_next
step now (connection answers msg) node = dispatch now now answers msg.kind msg node
step now (join_answers answers view_id peer_id) node = finish_join now answers view_id peer_id node
step now (take_removal answers) node = remove_next now answers node.removal_requests node
step now (heartbeat peer_id) node =
    (record node { last_heartbeat = insert peer_id now node.last_heartbeat }, [])
step now detect node = check_all now node.peers node
step now (reconciliation arrived answers) node = reconcile now now arrived answers node

unfoldable pub run : List (ℕ × Event) → Node → Node
run [] node = node
run ((now, e) ∷ es) node = run es (step now e node).0
