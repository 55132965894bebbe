-- ===== src/Pbft/Once.antt =====
-- The marks that handleCommit of project/oracle/pkg/consensus/pbft.go sets for the numbers it executes,
-- and the commit votes behind them.
use lab.Pbft.Engine.{Event, run}
use lab.Pbft.Maintenance.{execute_consensus, cleanup, make_checkpoint, store}
use lab.Pbft.Handlers.{is_reached, handle_commit}
use lab.Pbft.Types.{Library, ConsensusMessage, Pbft, Action}
use lab.Base.{◌≡◌, [], true, arith, ◌≤◌, nat_eq, string_eq, All, List, insert, some, ◌≢◌}
use lab.Pbft.Commits.{delivered}
use lab.Pbft.Marks.{is_reached-execute, is_reached-insert_self}
use lab.Pbft.Marks.Runs.{run-Keeps}

module _ (lib : Library) where
  -- A commit vote that executes marks its number.
  handle_commit_marks :
      (m : ConsensusMessage) (p : Pbft)
      → delivered (handle_commit lib m p).1 ≢ []
      → is_reached m.sequence (handle_commit lib m p).0 ≡ true
  unfolding handle_commit
  handle_commit_marks m p h =
      let stored = record p { commit_messages = store m.sequence m.node_id m p.commit_messages } in
      let marked = record stored {
        consensus_reached = insert m.sequence true p.consensus_reached;
      } in
      ground (
        arith,
        is_reached-execute lib m.sequence m.sequence m.payload marked,
        is_reached-insert_self m.sequence stored,
      )

  handle_commit_delivers :
      (m : ConsensusMessage) (p : Pbft)
      → delivered (handle_commit lib m p).1 ≢ []
      → (handle_commit lib m p).0.has_callback ≡ true
  unfolding handle_commit execute_consensus cleanup make_checkpoint
  handle_commit_delivers m p h = ground arith

  -- Once a commit vote has made the engine hand a result to the callback, and for every run of events
  -- behind it that hands no result for a higher number to the callback, a commit vote for the number of
  -- the first one is ignored: the state stays, and nothing is sent or executed.
  pub handle_commit_once :
      (m later : ConsensusMessage) (es : List Event) (p q : Pbft) (out : List Action)
      → delivered (handle_commit lib m p).1 ≢ []
      → run lib es (handle_commit lib m p).0 ≡ some (q, out)
      → All (λ r. r.sequence ≤ m.sequence) (delivered out)
      → later.sequence ≡ m.sequence
      → handle_commit lib later q ≡ (q, [])
  handle_commit_once m later es p q out h k a e =
      let kept = run-Keeps lib m.sequence es (handle_commit lib m p).0 q out k in
      let marked : is_reached later.sequence q ≡ true =
        rw e (kept.reached (handle_commit_delivers m p h) (handle_commit_marks m p h) a) in
      unfold handle_commit in rw marked
