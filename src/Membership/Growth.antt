-- ===== src/Membership/Growth.antt =====
-- View numbers and the leader flag through every run of a process of lab3/src/main.go.
use lab.Membership.Machine.{
  remove_next, step, Event, run, connection, dispatch, join_answers, take_removal, heartbeat,
  reconciliation, detect,
}
use lab.Membership.Election.{
  check_peer, take_up, resume, reconcile, check_all, handle_leader_failure, collect_pending,
}
use lab.Membership.Views.{
  commit_join, remove_peer, handle_new_view, initiate_remove_peer, finish_join, handle_join_request,
  handle_req,
}
use lab.Membership.Types.{order_of}
use lab.Base.{
  ◌≡◌, true, ◌≤◌, arith, List, ◌∙◌, ℕ, Bool, Option-cases, ◌∷◌, [], length, inl, inr, add64, map,
  u64_mod, ◌⊎◌, refl, ◌<◌, ◌+◌,
}
use lab.Membership.Types.{Node, Message, Peer, Operation, Kind, add, delete, join, new_view}

-- A process that leads knows itself as the leader.
abbrev pub LeadsItself : Node → Type 0
LeadsItself node = node.is_leader ≡ true → node.leader_id ≡ node.my_id

-- The view number is at least two below the greatest int.
abbrev pub HasRoom : Node → Type 0
HasRoom p = order_of p.view_id + 2 < u64_mod

-- What every event keeps.
pub record Later (p q : Node) : Type 0 where
  pub view : order_of p.view_id ≤ order_of q.view_id
  pub me : q.my_id ≡ p.my_id
  pub leads : LeadsItself p → LeadsItself q

Later-trans : (p q r : Node) → Later p q → Later q r → Later p r
Later-trans p q r a b = record {
  view = omega arith;
  me = b.me ∙ a.me;
  leads = λ h. b.leads (a.leads h);
}

-- What a join, a removal or none of them does.
record Grown (p q : Node) : Type 0 where
  view : (q.view_id ≡ p.view_id) ⊎ (q.view_id ≡ add64 p.view_id 1)
  me : q.my_id ≡ p.my_id
  leads : LeadsItself p → LeadsItself q

order_of-next : (v : ℕ) → order_of v + 1 < u64_mod → order_of (add64 v 1) ≡ order_of v + 1
order_of-next v h = omega arith

Grown-order :
    (p q : Node)
    → HasRoom p
    → Grown p q
    → (order_of p.view_id ≤ order_of q.view_id) × (order_of q.view_id ≤ order_of p.view_id + 1)
Grown-order p q h g = elim (g.view) [
  | inl e ↦ rw e (omega arith, omega arith)
  | inr e ↦
      let next = order_of-next p.view_id (omega arith) in rw (e, next) (omega arith, omega arith)
]

Grown-Later : (p q : Node) → HasRoom p → Grown p q → Later p q
Grown-Later p q h g = record { view = (Grown-order p q h g).0; me = g.me; leads = g.leads }

commit_join-Grown :
    (now view_id peer_id : ℕ) (p : Node) → Grown p (commit_join now view_id peer_id p).0
unfolding commit_join
commit_join-Grown now view_id peer_id p = record { view = inr refl; me = refl; leads = λ h. h }

finish_join-Grown :
    (now : ℕ) (arrived : List (ℕ × Bool)) (view_id peer_id : ℕ) (p : Node)
    → Grown p (finish_join now arrived view_id peer_id p).0
unfolding finish_join
finish_join-Grown now arrived view_id peer_id p =
    let same : Grown p p = record { view = inl refl; me = refl; leads = λ h. h } in
    ground (arith, same, commit_join-Grown now view_id peer_id p)

remove_peer-Grown : (peer_id : ℕ) (p : Node) → Grown p (remove_peer peer_id p).0
unfolding remove_peer
remove_peer-Grown peer_id p = record { view = inr refl; me = refl; leads = λ h. h }

initiate_remove_peer-Grown :
    (req_id : ℕ) (arrived : List Bool) (peer_id : ℕ) (p : Node)
    → Grown p (initiate_remove_peer req_id arrived peer_id p).0
unfolding initiate_remove_peer
initiate_remove_peer-Grown req_id arrived peer_id p =
    let same : Grown p p = record { view = inl refl; me = refl; leads = λ h. h } in
    ground (arith, same, remove_peer-Grown peer_id p)

handle_new_view-Later : (now : ℕ) (m : Message) (p : Node) → Later p (handle_new_view now m p)
unfolding handle_new_view
handle_new_view-Later now m p = ground arith

check_peer-Later : (now : ℕ) (member : Peer) (p : Node) → Later p (check_peer now member p).0
unfolding check_peer handle_leader_failure
check_peer-Later now member p = ground arith

check_all-Later : (now : ℕ) (members : List Peer) (p : Node) → Later p (check_all now members p).0
unfolding check_all
check_all-Later now [] p = ground arith
check_all-Later now (m ∷ ms) p =
    Later-trans p (check_peer now m p).0 _ (check_peer-Later now m p)
      (check_all-Later now ms (check_peer now m p).0)

take_up-Grown :
    (now req_id : ℕ) (answers : List Bool) (op : Operation) (peer_id : ℕ) (p : Node)
    → Grown p (take_up now req_id answers op peer_id p).0
unfolding take_up handle_join_request
take_up-Grown now req_id answers add peer_id p = finish_join-Grown now _ p.view_id peer_id p
take_up-Grown now req_id answers delete peer_id p =
    initiate_remove_peer-Grown req_id answers peer_id p
take_up-Grown now req_id answers _ peer_id p = record { view = inl refl; me = refl; leads = λ h. h }

resume-Grown :
    (now req_id : ℕ) (answers : List Bool) (ops : List Message) (p : Node)
    → Grown p (resume now req_id answers ops p).0
unfolding resume
resume-Grown now req_id answers [] p = record { view = inl refl; me = refl; leads = λ h. h }
resume-Grown now req_id answers (op ∷ ops) p =
    take_up-Grown now req_id answers op.operation op.peer_id p

next-Later :
    (p q : Node) → HasRoom p → Grown p q → Later p (record q { view_id = add64 q.view_id 1 })
next-Later p q h g =
    let bounds = Grown-order p q h g in
    let next = order_of-next q.view_id (omega arith) in
    record { view = omega arith; me = g.me; leads = g.leads }

reconcile-Later :
    (now req_id : ℕ) (arrived : List (ℕ × Message)) (answers : List Bool) (p : Node)
    → HasRoom p
    → Later p (reconcile now req_id arrived answers p).0
unfolding reconcile
reconcile-Later now req_id arrived answers p h =
    elim (Option-cases (collect_pending 0 arrived (length p.peers))) [
      | inl n ↦ ground arith
      | inr (ops, n) ↦ rw (reconcile, n) (next-Later p _ h (resume-Grown now req_id answers ops p))
    ]

dispatch-Later :
    (now req_id : ℕ) (answers : List Bool) (k : Kind) (m : Message) (p : Node)
    → HasRoom p
    → Later p (dispatch now req_id answers k m p).0
unfolding dispatch handle_join_request handle_req
dispatch-Later now req_id answers join m p h =
    let members = length p.peers in
    let grown =
      finish_join-Grown now (map (λ answer. (members, answer)) answers) p.view_id m.peer_id p in
    ground (arith, Grown-Later p _ h grown)
dispatch-Later now req_id answers new_view m p h = handle_new_view-Later now m p
dispatch-Later now req_id answers _ m p h = ground arith

remove_next-Later :
    (req_id : ℕ) (answers : List Bool) (queue : List ℕ) (p : Node)
    → HasRoom p
    → Later p (remove_next req_id answers queue p).0
unfolding remove_next
remove_next-Later req_id answers [] p h = ground arith
remove_next-Later req_id answers (peer_id ∷ rest) p h =
    let taken = record p { removal_requests = rest } in
    let grown = initiate_remove_peer-Grown req_id answers peer_id taken in
    let later : Later taken (initiate_remove_peer req_id answers peer_id taken).0 =
      Grown-Later taken _ h grown in
    ground (arith, later)

step-Later : (now : ℕ) (e : Event) (p : Node) → HasRoom p → Later p (step now e p).0
unfolding step
step-Later now (connection answers m) p h = dispatch-Later now now answers m.kind m p h
step-Later now (join_answers answers view_id peer_id) p h =
    Grown-Later p _ h (finish_join-Grown now answers view_id peer_id p)
step-Later now (take_removal answers) p h = remove_next-Later now answers p.removal_requests p h
step-Later now (heartbeat peer_id) p h = ground arith
step-Later now detect p h = check_all-Later now p.peers p
step-Later now (reconciliation arrived answers) p h = reconcile-Later now now arrived answers p h

-- In front of every event of a run the view number has room.
abbrev pub KeepsRoom : List (ℕ × Event) → Node → Type 0
KeepsRoom [] p = Unit
KeepsRoom ((now, e) ∷ es) p = HasRoom p × KeepsRoom es (step now e p).0

-- Through a run of events, in front of each of which the view number is at least two below the greatest
-- int, the view number of a process never falls, in the order of ints, and its own number stays; and a
-- process that knew itself as the leader when it led still does.
pub run-Later : (es : List (ℕ × Event)) (p : Node) → KeepsRoom es p → Later p (run es p)
unfolding run
run-Later [] p h = ground arith
run-Later ((now, e) ∷ es) p h =
    Later-trans p (step now e p).0 _ (step-Later now e p h.0) (run-Later es (step now e p).0 h.1)
