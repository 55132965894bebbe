-- ===== src/Membership/Leaders.antt =====
-- Elections in lab3/src/main.go.
use lab.Membership.Election.{handle_leader_failure, least_id, find_next_leader_id, max_int32}
use lab.Base.{
  nat_beq, sym, subst, ap, ◌∙◌, ◌≡◌, ℕ, ◌<◌, List, ◌≢◌, false, ◌∷◌, ◌≤◌, ◌⊎◌, true, inl, [], arith,
  refl, inr,
}
use lab.Membership.Types.{Node, Peer}

-- A live member that is not the given one has this number.
abbrev pub IsCandidate : ℕ → ℕ → List Peer → Type 0
IsCandidate leader_id n [] = ⊥
IsCandidate leader_id n (p ∷ ps) =
    ((p.id ≡ n) × (p.id ≢ leader_id) × (p.is_alive ≡ true)) ⊎ IsCandidate leader_id n ps

least_id-le : (leader_id : ℕ) (ps : List Peer) (min : ℕ) → least_id leader_id ps min ≤ min
unfolding least_id
least_id-le leader_id [] min = omega arith
least_id-le leader_id (p ∷ ps) min =
    ground (arith, least_id-le leader_id ps p.id, least_id-le leader_id ps min)

least_id-le_candidate :
    (leader_id n : ℕ) (ps : List Peer) (min : ℕ)
    → IsCandidate leader_id n ps
    → least_id leader_id ps min ≤ n
unfolding least_id
least_id-le_candidate leader_id n [] min h = absurd h
least_id-le_candidate leader_id n (p ∷ ps) min (inl h) =
    ground (arith, least_id-le leader_id ps p.id, least_id-le leader_id ps min)
least_id-le_candidate leader_id n (p ∷ ps) min (inr h) =
    ground (
      arith,
      least_id-le_candidate leader_id n ps p.id h,
      least_id-le_candidate leader_id n ps min h,
    )

least_id_found :
    (leader_id : ℕ) (ps : List Peer) (min : ℕ)
    → (least_id leader_id ps min ≡ min) ⊎ IsCandidate leader_id (least_id leader_id ps min) ps
unfolding least_id
least_id_found leader_id [] min = inl refl
least_id_found leader_id (p ∷ ps) min =
    ground (arith, least_id_found leader_id ps p.id, least_id_found leader_id ps min)

-- The next leader is the live member with the least number other than the present leader: it is one
-- where there is any below the start value, and none has a lower number.
pub find_next_leader_id_least :
    (node : Node) (n : ℕ)
    → n < max_int32
    → IsCandidate node.leader_id n node.peers
    → IsCandidate node.leader_id (find_next_leader_id node) node.peers
      × (find_next_leader_id node ≤ n)
unfolding find_next_leader_id
find_next_leader_id_least node n h c =
    let below = least_id-le_candidate node.leader_id n node.peers max_int32 c in
    elim (least_id_found node.leader_id node.peers max_int32) [
      | inl e ↦ absurd (omega arith)
      | inr k ↦ (k, below)
    ]

least_of :
    (node : Node) (n : ℕ)
    → n < max_int32
    → IsCandidate node.leader_id n node.peers
    → ((m : ℕ) → IsCandidate node.leader_id m node.peers → n ≤ m)
    → find_next_leader_id node ≡ n
least_of node n h c least =
    let found = find_next_leader_id_least node n h c in
    let up = least (find_next_leader_id node) found.0 in omega arith

handle_leader_failure_lem :
    (p : Node)
    → p.is_leader ≡ false
    → ((handle_leader_failure p).0.leader_id ≡ find_next_leader_id p)
      × ((handle_leader_failure p).0.is_leader ≡ nat_beq p.my_id (find_next_leader_id p))
unfolding handle_leader_failure
handle_leader_failure_lem p g = ground arith

-- Two processes that did not lead, with one list of members and one leader, agree on its successor
-- where some live member other than it has a number below the start value: the successor is such a
-- member, its number is not above that one, and each of the two leads exactly when it is the successor.
pub handle_leader_failure_agrees :
    (p q : Node) (n : ℕ)
    → q.peers ≡ p.peers
    → q.leader_id ≡ p.leader_id
    → p.is_leader ≡ false
    → q.is_leader ≡ false
    → n < max_int32
    → IsCandidate p.leader_id n p.peers
    → ((handle_leader_failure q).0.leader_id ≡ (handle_leader_failure p).0.leader_id)
      × IsCandidate p.leader_id (handle_leader_failure p).0.leader_id p.peers
      × ((handle_leader_failure p).0.leader_id ≤ n)
      × ((handle_leader_failure p).0.is_leader
          ≡ nat_beq p.my_id (handle_leader_failure p).0.leader_id)
      × ((handle_leader_failure q).0.is_leader
          ≡ nat_beq q.my_id (handle_leader_failure p).0.leader_id)
handle_leader_failure_agrees p q n e f g k h c =
    let least = find_next_leader_id_least p n h c in
    let same : find_next_leader_id q ≡ find_next_leader_id p =
      unfold find_next_leader_id in rw (e, f) in
    let mine = handle_leader_failure_lem p g in
    let other = handle_leader_failure_lem q k in
    (
      other.0 ∙ same ∙ sym mine.0,
      subst (λ x. IsCandidate p.leader_id x p.peers) (sym mine.0) least.0,
      subst (λ x. x ≤ n) (sym mine.0) least.1,
      mine.1 ∙ ap (nat_beq p.my_id) (sym mine.0),
      other.1 ∙ ap (nat_beq q.my_id) (same ∙ sym mine.0),
    )

-- A failed leader stays a live member, so with two failed leaders of the least numbers a process
-- that is neither goes back to the first one when the second fails: it never gets past the two.
pub handle_leader_failure_flips :
    (node : Node) (b : ℕ)
    → b < max_int32
    → node.leader_id < max_int32
    → node.my_id ≢ node.leader_id
    → node.my_id ≢ b
    → b ≢ node.leader_id
    → IsCandidate b node.leader_id node.peers
    → IsCandidate node.leader_id b node.peers
    → ((n : ℕ) → IsCandidate node.leader_id n node.peers → b ≤ n)
    → ((n : ℕ) → IsCandidate b n node.peers → node.leader_id ≤ n)
    → (handle_leader_failure (handle_leader_failure node).0).0 ≡ node
unfolding handle_leader_failure
handle_leader_failure_flips node b h1 h2 h3 h4 h5 a c least_b least_a =
    let to_b : find_next_leader_id node ≡ b = least_of node b h1 c least_b in
    let back : find_next_leader_id (record node { leader_id = b }) ≡ node.leader_id =
      least_of (record node { leader_id = b }) node.leader_id h2 a least_a in
    ground arith
