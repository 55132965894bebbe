-- ===== src/Membership/Tests.antt =====
-- The theorems about lab3's membership service at a leader of three processes.
use lab.Membership.Joining.{IsSorted, Syncs, commit_join_lem, remove_peer_lem, lookup_peer}
use lab.Membership.Machine.{run, join_answers, detect, take_removal, step, Event}
use lab.Membership.Leaders.{handle_leader_failure_agrees, IsCandidate}
use lab.Membership.Growth.{Later, run-Later, KeepsRoom}
use lab.Membership.Election.{handle_leader_failure, check_all, check_peer, is_silent}
use lab.Membership.Views.{finish_join, commit_join, count_answers, update_membership, remove_peer}
use mathlib.Core.List.{Perm}
use lab.Base.{
  nat_beq, inl, inr, ◌≤◌, ◌≡◌, ℕ, [], ◌∷◌, ◌++◌, String, true, false, none, All, arith, refl,
  nat_eq, add64, List, lookup, insert, if◌then◌else◌,
}
use lab.Membership.Types.{Node, Peer}

host : ℕ → String
host _ = "peer"

abbrev one : Peer
one = record { id = 1; hostname = "one"; is_alive = true }

abbrev two : Peer
two = record { id = 2; hostname = "two"; is_alive = true }

abbrev three : Peer
three = record { id = 3; hostname = "three"; is_alive = true }

abbrev leader : Node
leader = record {
  view_id = 7;
  peers = one ∷ two ∷ three ∷ [];
  my_id = 1;
  is_leader = true;
  leader_id = 1;
  last_heartbeat = (2, 100) ∷ (3, 200) ∷ [];
  removal_requests = [];
  pending_operation = none;
  id_to_hostname = host;
}

abbrev follower : Node
follower = record leader { my_id = 3; is_leader = false; last_heartbeat = (1, 50) ∷ (2, 60) ∷ [] }

abbrev second : Node
second = record leader { my_id = 2; is_leader = false; last_heartbeat = (1, 50) ∷ (3, 60) ∷ [] }

-- A join, a round of the detector and a removal.
abbrev events : List (ℕ × Event)
events =
    (500, join_answers ((3, true) ∷ (3, true) ∷ []) 7 4)
    ∷ (20000000000, detect)
    ∷ (20000000001, take_removal (true ∷ true ∷ true ∷ []))
    ∷ []

events-KeepsRoom : KeepsRoom events leader
unfolding step finish_join count_answers commit_join update_membership check_all check_peer
    is_silent lab.Membership.Views.sort_peers lookup insert
events-KeepsRoom = (omega arith, (omega arith, (omega arith, tt)))

run-Later_example : Later leader (run events leader)
run-Later_example = run-Later events leader events-KeepsRoom

commit_join_lem_example :
    ((commit_join 500 leader.view_id 4 leader).0.view_id ≡ add64 leader.view_id 1)
    × Perm (commit_join 500 leader.view_id 4 leader).0.peers (
        leader.peers
        ++ (record { id = 4; hostname = leader.id_to_hostname 4; is_alive = true } ∷ []))
    × IsSorted (commit_join 500 leader.view_id 4 leader).0.peers
    × All
        (Syncs (commit_join 500 leader.view_id 4 leader).0)
        (commit_join 500 leader.view_id 4 leader).1
commit_join_lem_example = commit_join_lem 500 4 leader

remove_peer_lem_example :
    ((remove_peer 2 leader).0.view_id ≡ add64 leader.view_id 1)
    × (lookup_peer 2 (remove_peer 2 leader).0.peers
        ≡ (if nat_beq 2 2 then false else lookup_peer 2 leader.peers))
    × All (Syncs (remove_peer 2 leader).0) (remove_peer 2 leader).1
remove_peer_lem_example = remove_peer_lem 2 2 leader

handle_leader_failure_agrees_example :
    ((handle_leader_failure second).0.leader_id ≡ (handle_leader_failure follower).0.leader_id)
    × IsCandidate 1 (handle_leader_failure follower).0.leader_id follower.peers
    × ((handle_leader_failure follower).0.leader_id ≤ 2)
    × ((handle_leader_failure follower).0.is_leader
        ≡ nat_beq 3 (handle_leader_failure follower).0.leader_id)
    × ((handle_leader_failure second).0.is_leader
        ≡ nat_beq 2 (handle_leader_failure follower).0.leader_id)
handle_leader_failure_agrees_example =
    handle_leader_failure_agrees follower second 2 refl refl refl refl (omega arith)
      (inr (inl (refl, (λ e. omega arith), refl)))
