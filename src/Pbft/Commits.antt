-- ===== src/Pbft/Commits.antt =====
-- What stands behind a result: the commit votes that the engine of
-- project/oracle/pkg/consensus/pbft.go holds when a vote makes it call the result callback.
use lab.Base.{
  ℕ, ◌+◌, ◌*◌, ◌≤◌, Bool, true, false, String, List, [], ◌∷◌, ◌++◌, Option, none, ◌≡◌, arith, All,
  Within, Distinct, length, keys, size, ltb, insert, if◌then◌else◌, string_eq, nat_eq,
}
use lab.Pbft.Types.{
  Bytes, Pbft, ConsensusMessage, ConsensusResult, Action, broadcast_message, deliver_result,
  Library, entries, commit, Error,
}
use lab.Pbft.Maintenance.{cleanup, make_checkpoint, execute_consensus, store}
use lab.Pbft.Handlers.{commit_own, handle_commit, broadcast, handle_prepare}
use lab.Pbft.Votes.{AllVotes, entries-delete_where}
use lab.Pbft.Invariant.Defs.{is_commit}

-- The results that a list of actions hands to the callback.
abbrev pub delivered : List Action → List ConsensusResult
delivered [] = []
delivered (deliver_result r ∷ out) = r ∷ delivered out
delivered (broadcast_message m ∷ out) = delivered out

-- The nodes whose commit votes an engine holds for a sequence number.
abbrev pub voters : ℕ → Pbft → List String
voters seq p = keys (entries seq p.commit_messages)

-- A commit quorum: different members, more than twice the tolerated faults, each with a commit
-- message of its own for this number.
pub record HasQuorum (p : Pbft) (seq : ℕ) : Type 0 where
  pub different : Distinct (voters seq p)
  pub members : Within p.nodes (voters seq p)
  pub enough : 2 * p.f + 1 ≤ length (voters seq p)
  pub votes : AllVotes is_commit p.nodes seq (entries seq p.commit_messages)

abbrev pub Enough : Pbft → ConsensusResult → Type 0
Enough p r = 2 * p.f + 1 ≤ size (entries r.sequence p.commit_messages)

module _ (P : ConsensusResult → Type 0) where
  All-callback :
      (b : Bool) (r : ConsensusResult)
      → P r
      → All P (delivered (if b then deliver_result r ∷ [] else []))
  All-callback true r h = (h, tt)
  All-callback false r h = tt

  All-broadcast :
      (net : ConsensusMessage → Option Error) (m : ConsensusMessage) (p : Pbft) (out : List Action)
      → All P (delivered out)
      → All P (delivered ((broadcast net m p).1 ++ out))
  unfolding broadcast
  All-broadcast net m p out h = ground arith

  All-broadcast_only :
      (net : ConsensusMessage → Option Error) (m : ConsensusMessage) (p : Pbft)
      → All P (delivered (broadcast net m p).1)
  unfolding broadcast
  All-broadcast_only net m p = ground arith

module _ (lib : Library) where
  -- Cleanup keeps the votes for the number that was executed.
  entries-execute :
      (seq : ℕ) (payload : Bytes) (p : Pbft)
      → entries seq (execute_consensus lib seq payload p).0.commit_messages
        ≡ entries seq p.commit_messages
  unfolding execute_consensus cleanup make_checkpoint
  entries-execute seq payload p =
      ground (arith, entries-delete_where (λ j. ltb j seq) seq p.commit_messages)

  f-execute :
      (seq : ℕ) (payload : Bytes) (p : Pbft) → (execute_consensus lib seq payload p).0.f ≡ p.f
  unfolding execute_consensus cleanup make_checkpoint
  f-execute seq payload p = ground arith

  execute-Enough :
      (seq : ℕ) (payload : Bytes) (p : Pbft)
      → 2 * p.f + 1 ≤ size (entries seq p.commit_messages)
      → All
          (Enough (execute_consensus lib seq payload p).0)
          (delivered (execute_consensus lib seq payload p).1)
  unfolding execute_consensus
  execute-Enough seq payload p h =
      All-callback (Enough (execute_consensus lib seq payload p).0) p.has_callback _
        (rw (entries-execute seq payload p, f-execute seq payload p) h)

  pub handle_commit-Enough :
      (m : ConsensusMessage) (p : Pbft)
      → All (Enough (handle_commit lib m p).0) (delivered (handle_commit lib m p).1)
  unfolding handle_commit
  handle_commit-Enough m p = ground (
    arith,
    execute-Enough m.sequence m.payload (record p {
      commit_messages = store m.sequence m.node_id m p.commit_messages;
      consensus_reached = insert m.sequence true p.consensus_reached;
    }),
  )

  commit_own-Enough :
      (m : ConsensusMessage) (p : Pbft)
      → All (Enough (commit_own lib m p).0) (delivered (commit_own lib m p).1)
  unfolding commit_own
  commit_own-Enough m p =
      let vote : ConsensusMessage = record {
        type = commit;
        node_id = p.node_id;
        view = m.view;
        sequence = m.sequence;
        digest = m.digest;
        payload = m.payload;
      } in
      let voted = record p {
        commit_messages = store m.sequence p.node_id vote p.commit_messages;
      } in
      let done = execute_consensus lib m.sequence m.payload voted in
      ground (
        arith,
        All-broadcast (Enough done.0) (λ _. none) vote p done.1,
        All-broadcast_only (Enough voted) (λ _. none) vote p,
        execute-Enough m.sequence m.payload voted,
      )

  pub handle_prepare-Enough :
      (m : ConsensusMessage) (p : Pbft)
      → All (Enough (handle_prepare lib m p).0) (delivered (handle_prepare lib m p).1)
  unfolding handle_prepare
  handle_prepare-Enough m p = ground (
    arith,
    commit_own-Enough m
        (record p { prepare_messages = store m.sequence m.node_id m p.prepare_messages }),
  )
