-- ===== src/Pbft/Invariant/Handlers.antt =====
-- Every handler of project/oracle/pkg/consensus/pbft.go keeps the invariant.
use lab.Base.{
  ℕ, true, String, List, Option, some, ◌≡◌, refl, inl, inr, length, Option-cases, arith, string_eq,
  ◌%◌, insert, nat_eq, get_elem?,
}
use lab.Pbft.Types.{
  Bytes, Pbft, ConsensusMessage, MessageType, pre_prepare, prepare, commit, view_change, new_view,
  state_transfer, unknown, Action, Library, Error, Log,
}
use lab.Pbft.Maintenance.{store, cleanup, make_checkpoint, execute_consensus}
use lab.Pbft.Handlers.{
  dispatch, process_new_view, propose_value, handle_pre_prepare, commit_own, handle_prepare,
  handle_commit, start_view_change, handle_view_change, handle_message,
}
use lab.Pbft.Invariant.Defs.{Inv, FromMember, is_commit, is_prepare}
use lab.Pbft.Votes.{IsVote, store-IsVoteLog, delete_where-IsVoteLog}

make_checkpoint-Inv : (lib : Library) (p : Pbft) → Inv p → Inv (make_checkpoint lib p)
unfolding make_checkpoint
make_checkpoint-Inv lib p v = ground arith

cleanup-Inv : (seq : ℕ) (p : Pbft) → Inv p → Inv (cleanup seq p)
unfolding cleanup
cleanup-Inv seq p v = record {
  self = v.self;
  tolerance = v.tolerance;
  queue = v.queue;
  prepares = delete_where-IsVoteLog _ _ _ _ v.prepares;
  commits = delete_where-IsVoteLog _ _ _ _ v.commits;
}

process_new_view-Inv :
    (new : ℕ) (p q : Pbft) (out : List Action)
    → Inv p
    → process_new_view new p ≡ some (q, out)
    → Inv q
unfolding process_new_view
process_new_view-Inv new p q out v e =
    elim (Option-cases (get_elem? p.nodes (new % length p.nodes))) [
      | inl n ↦ absurd (cc (rw (n, process_new_view) at e))
      | inr (l, n) ↦ ground arith
    ]

-- Storing a member's vote keeps the invariant.
store_prepare-Inv :
    (seq : ℕ) (id : String) (m : ConsensusMessage) (p : Pbft)
    → IsVote is_prepare p.nodes seq id m
    → Inv p
    → Inv (record p { prepare_messages = store seq id m p.prepare_messages })
store_prepare-Inv seq id m p w v = record {
  self = v.self;
  tolerance = v.tolerance;
  queue = v.queue;
  prepares = store-IsVoteLog _ _ seq id m _ w v.prepares;
  commits = v.commits;
}

store_commit-Inv :
    (seq : ℕ) (id : String) (m : ConsensusMessage) (p : Pbft)
    → IsVote is_commit p.nodes seq id m
    → Inv p
    → Inv (record p { commit_messages = store seq id m p.commit_messages })
store_commit-Inv seq id m p w v = record {
  self = v.self;
  tolerance = v.tolerance;
  queue = v.queue;
  prepares = v.prepares;
  commits = store-IsVoteLog _ _ seq id m _ w v.commits;
}

module _ (lib : Library) where
  execute-Inv :
      (seq : ℕ) (payload : Bytes) (p : Pbft) → Inv p → Inv (execute_consensus lib seq payload p).0
  unfolding execute_consensus
  execute-Inv seq payload p v = cleanup-Inv seq _ (make_checkpoint-Inv lib p v)

  pub propose_value-Inv :
      (net : ConsensusMessage → Option Error) (value : Bytes) (p : Pbft)
      → Inv p
      → Inv (propose_value lib net value p).1
  unfolding propose_value
  propose_value-Inv net value p v = ground (
    arith,
    store_prepare-Inv p.sequence p.node_id
        (record {
          type = pre_prepare;
          node_id = p.node_id;
          view = p.view;
          sequence = p.sequence;
          digest = lib.sha256 value;
          payload = value;
        })
        p (record { member = v.self; sender = refl; number = refl; kind = refl }) v,
  )

  handle_pre_prepare-Inv :
      (m : ConsensusMessage) (p : Pbft) → Inv p → Inv (handle_pre_prepare lib m p).0
  unfolding handle_pre_prepare
  handle_pre_prepare-Inv m p v = ground (
    arith,
    store_prepare-Inv m.sequence p.node_id
        (record {
          type = prepare;
          node_id = p.node_id;
          view = m.view;
          sequence = m.sequence;
          digest = lib.sha256 m.payload;
          payload = m.payload;
        })
        p (record { member = v.self; sender = refl; number = refl; kind = refl }) v,
  )

  commit_own-Inv : (m : ConsensusMessage) (p : Pbft) → Inv p → Inv (commit_own lib m p).0
  unfolding commit_own
  commit_own-Inv m p v =
      let voted =
        store_commit-Inv m.sequence p.node_id
          (record {
            type = commit;
            node_id = p.node_id;
            view = m.view;
            sequence = m.sequence;
            digest = m.digest;
            payload = m.payload;
          })
          p (record { member = v.self; sender = refl; number = refl; kind = refl }) v in
      ground (arith, execute-Inv m.sequence m.payload _ voted, voted)

  handle_prepare-Inv :
      (m : ConsensusMessage) (p : Pbft)
      → FromMember p.nodes m
      → is_prepare m.type ≡ true
      → Inv p
      → Inv (handle_prepare lib m p).0
  unfolding handle_prepare
  handle_prepare-Inv m p w k v =
      let stored =
        store_prepare-Inv m.sequence m.node_id m p
          (record { member = w; sender = refl; number = refl; kind = k }) v in
      ground (arith, commit_own-Inv m _ stored, stored)

  handle_commit-Inv :
      (m : ConsensusMessage) (p : Pbft)
      → FromMember p.nodes m
      → is_commit m.type ≡ true
      → Inv p
      → Inv (handle_commit lib m p).0
  unfolding handle_commit
  handle_commit-Inv m p w k v =
      let stored =
        store_commit-Inv m.sequence m.node_id m p
          (record { member = w; sender = refl; number = refl; kind = k }) v in
      let marked : Inv (record p {
        commit_messages = store m.sequence m.node_id m p.commit_messages;
        consensus_reached = insert m.sequence true p.consensus_reached;
      }) =
        record {
          self = stored.self;
          tolerance = stored.tolerance;
          queue = stored.queue;
          prepares = stored.prepares;
          commits = stored.commits;
        } in
      ground (arith, execute-Inv m.sequence m.payload _ marked, stored)

  pub start_view_change-Inv : (new : ℕ) (p : Pbft) → Inv p → Inv (start_view_change lib new p).0
  unfolding start_view_change
  start_view_change-Inv new p v = ground arith

  handle_view_change-Inv :
      (m : ConsensusMessage) (p q : Pbft) (out : List Action)
      → Inv p
      → handle_view_change lib m p ≡ some (q, out)
      → Inv q
  unfolding handle_view_change
  handle_view_change-Inv m p q out v e = elim (Option-cases (lib.unmarshal_view_change m.payload)) [
    | inl n ↦ ground arith
    | inr (d, n) ↦ ground (
      arith,
      process_new_view-Inv d.new_view
          (record p { view_change_msgs = store d.new_view m.node_id m p.view_change_msgs }) q out
          (keep v),
    )
  ]
    where
      keep : {log : Log} → Inv p → Inv (record p { view_change_msgs = log })
      keep w = ground arith

  -- A message of a member, whatever its type.
  pub handle_message-Inv :
      (m : ConsensusMessage) (p q : Pbft) (out : List Action)
      → FromMember p.nodes m
      → Inv p
      → handle_message lib m p ≡ some (q, out)
      → Inv q
  unfolding handle_message
  handle_message-Inv m p q out w v e = by_type m.type refl e
    where
      by_type : (t : MessageType) → m.type ≡ t → dispatch lib t m p ≡ some (q, out) → Inv q
      by_type pre_prepare k h = ground (arith, handle_pre_prepare-Inv m p v)
      by_type prepare k h = ground (arith, handle_prepare-Inv m p w (rw k) v)
      by_type commit k h = ground (arith, handle_commit-Inv m p w (rw k) v)
      by_type view_change k h = handle_view_change-Inv m p q out v h
      by_type new_view k h = ground (arith, process_new_view-Inv p.view p q out v)
      by_type state_transfer k h = ground arith
      by_type unknown k h = ground arith
