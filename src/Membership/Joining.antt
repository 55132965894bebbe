-- ===== src/Membership/Joining.antt =====
-- Joins and removals in lab3/src/main.go: what a committed change does, how the others take it over,
-- and what two joins do to each other.
use mathlib.Core.List.{Perm}
use mathlib.Core.List.Perm
use lab.Membership.Views.{
  insert_peer, sort_peers, commit_join, without, new_view_message, remove_peer, send_where,
  handle_new_view,
}
use lab.Membership.Types.{order_of}
use lab.Base.{
  ◌≡◌, List, ℕ, Bool, ◌≤◌, false, All, if◌then◌else◌, ◌∷◌, ◌<◌, arith, Bool-cases, [], nat_beq, inl,
  ◌||◌, inr, ltb, refl, ◌++◌, true, add64,
}
use lab.Membership.Types.{Node, Action, Peer, send_to, Message}

-- In order of their numbers.
abbrev pub IsSorted : List Peer → Type 0
IsSorted [] = Unit
IsSorted (p ∷ []) = Unit
IsSorted (p ∷ q ∷ ps) = (p.id ≤ q.id) × IsSorted (q ∷ ps)

insert_peer-perm : (p : Peer) (qs : List Peer) → Perm (insert_peer p qs) (p ∷ qs)
unfolding insert_peer
insert_peer-perm p [] = Perm.refl (p ∷ [])
insert_peer-perm p (q ∷ qs) = elim (Bool-cases (ltb q.id p.id)) [
  | inl c ↦ rw c (Perm.trans (Perm.cons q (insert_peer-perm p qs)) (Perm.swap p q qs))
  | inr c ↦ rw c (Perm.refl (p ∷ q ∷ qs))
]

pub sort_peers-perm : (ps : List Peer) → Perm (sort_peers ps) ps
unfolding sort_peers
sort_peers-perm [] = Perm.refl []
sort_peers-perm (p ∷ ps) =
    Perm.trans (insert_peer-perm p (sort_peers ps)) (Perm.cons p (sort_peers-perm ps))

insert_peer-IsSorted : (p : Peer) (qs : List Peer) → IsSorted qs → IsSorted (insert_peer p qs)
unfolding insert_peer
insert_peer-IsSorted p [] h = tt
insert_peer-IsSorted p (q ∷ []) h = ground arith
insert_peer-IsSorted p (q ∷ r ∷ qs) h = ground (arith, insert_peer-IsSorted p (r ∷ qs) h.1)

pub sort_peers-IsSorted : (ps : List Peer) → IsSorted (sort_peers ps)
unfolding sort_peers
sort_peers-IsSorted [] = tt
sort_peers-IsSorted (p ∷ ps) = insert_peer-IsSorted p (sort_peers ps) (sort_peers-IsSorted ps)

-- A process that has not reached the view takes the view of a node over from a message.
abbrev pub Syncs : Node → Action → Type 0
Syncs node (send_to p m) =
    (now : ℕ) (member : Node)
    → order_of member.view_id < order_of node.view_id
    → ((handle_new_view now m member).view_id ≡ node.view_id)
      × ((handle_new_view now m member).peers ≡ node.peers)
Syncs node _ = Unit

send_where-All :
    (P : Action → Type 0) (test : Peer → Bool) (m : Message) (ps : List Peer)
    → ((p : Peer) → P (send_to p m))
    → All P (send_where test m ps)
unfolding send_where
send_where-All P test m [] h = tt
send_where-All P test m (p ∷ ps) h = elim (Bool-cases (test p)) [
  | inl c ↦ rw c (h p, send_where-All P test m ps h)
  | inr c ↦ rw c (send_where-All P test m ps h)
]

new_view_message-Syncs :
    (node : Node) (p : Peer) → Syncs node (send_to p (new_view_message node.view_id node.peers))
unfolding new_view_message handle_new_view
new_view_message-Syncs node p now member h = ground arith

-- A join that commits under the view number that it has read makes the next view, in Go's ints, whose members are
-- the old ones and the new one, in order of their numbers; and every process that has not reached
-- this view takes it over, number and members, from any message that the join sends.
pub commit_join_lem :
    (now peer_id : ℕ) (node : Node)
    → ((commit_join now node.view_id peer_id node).0.view_id ≡ add64 node.view_id 1)
      × Perm (commit_join now node.view_id peer_id node).0.peers (
          node.peers
          ++ (record { id = peer_id; hostname = node.id_to_hostname peer_id; is_alive = true }
              ∷ []))
      × IsSorted (commit_join now node.view_id peer_id node).0.peers
      × All
          (Syncs (commit_join now node.view_id peer_id node).0)
          (commit_join now node.view_id peer_id node).1
unfolding commit_join
commit_join_lem now peer_id node = (
  refl,
  sort_peers-perm _,
  sort_peers-IsSorted _,
  send_where-All _ _ _ _ (new_view_message-Syncs (commit_join now node.view_id peer_id node).0),
)

-- A message that a process which has reached the view number does not react to.
abbrev pub Ignored : ℕ → Action → Type 0
Ignored view_id (send_to p m) =
    (now : ℕ) (member : Node)
    → order_of view_id ≤ order_of member.view_id
    → handle_new_view now m member ≡ member
Ignored view_id _ = Unit

old_view-Ignored :
    (view_id : ℕ) (peers : List Peer) (p : Peer)
    → Ignored view_id (send_to p (new_view_message view_id peers))
unfolding new_view_message handle_new_view
old_view-Ignored view_id peers p now member h = ground arith

-- Two joins that have read the same view number and commit one after the other: the leader has both
-- new members and is two views further, but every message of the second join is ignored by all that
-- have taken over the first, so these never learn of the second member.
pub commit_join_overlaps :
    (now later a b : ℕ) (node : Node)
    → ((commit_join later node.view_id b (commit_join now node.view_id a node).0).0.view_id
        ≡ add64 (add64 node.view_id 1) 1)
      × All
          (Ignored (add64 node.view_id 1))
          (commit_join later node.view_id b (commit_join now node.view_id a node).0).1
unfolding commit_join
commit_join_overlaps now later a b node = (refl, send_where-All _ _ _ _ (old_view-Ignored _ _))

unfoldable pub lookup_peer : ℕ → List Peer → Bool
lookup_peer j [] = false
lookup_peer j (p ∷ ps) = nat_beq p.id j || lookup_peer j ps

lookup_peer-without :
    (j peer_id : ℕ) (ps : List Peer)
    → lookup_peer j (without peer_id ps) ≡ (if nat_beq j peer_id then false else lookup_peer j ps)
unfolding lookup_peer without
lookup_peer-without j peer_id [] = ground arith
lookup_peer-without j peer_id (p ∷ ps) = ground (arith, lookup_peer-without j peer_id ps)

-- A removal makes the next view, in Go's ints, takes exactly the named number out, also when it is there twice, and
-- every process that has not reached the view takes it over from any message that the removal sends.
pub remove_peer_lem :
    (j peer_id : ℕ) (node : Node)
    → ((remove_peer peer_id node).0.view_id ≡ add64 node.view_id 1)
      × (lookup_peer j (remove_peer peer_id node).0.peers
          ≡ (if nat_beq j peer_id then false else lookup_peer j node.peers))
      × All (Syncs (remove_peer peer_id node).0) (remove_peer peer_id node).1
unfolding remove_peer
remove_peer_lem j peer_id node = (
  refl,
  lookup_peer-without j peer_id node.peers,
  send_where-All _ _ _ _ (new_view_message-Syncs (remove_peer peer_id node).0),
)
