-- ===== src/Pbft/Execution.antt =====
-- On what votes and data the engine executes: handlePrepare, handleCommit and executeConsensus of
-- project/oracle/pkg/consensus/pbft.go.
use lab.Pbft.Votes.{size-store, size-store_new}
use lab.Pbft.Maintenance.{execute_consensus}
use lab.Pbft.Handlers.{is_reached, handle_commit, handle_prepare, commit_own, broadcast}
use lab.Pbft.Types.{Library, ConsensusMessage, Pbft, Bytes, entries, commit}
use lab.Base.{
  ◌≡◌, [], true, ◌*◌, arith, ◌≤◌, size, ◌+◌, ◌∷◌, nat_eq, false, lookup, none, string_eq,
}
use lab.Pbft.Commits.{delivered}

module _ (lib : Library) where
  -- The prepare handler has no such guard: with the quorums at hand, a prepare message makes the
  -- engine execute its number again, also when consensus on it has been marked.
  pub handle_prepare_repeats :
      (m : ConsensusMessage) (p : Pbft)
      → p.has_callback ≡ true
      → is_reached m.sequence p ≡ true
      → 2 * p.f ≤ size (entries m.sequence p.prepare_messages)
      → 2 * p.f + 1 ≤ size (entries m.sequence p.commit_messages)
      → delivered (handle_prepare lib m p).1
        ≡ record { sequence = m.sequence; payload = m.payload; digest = lib.sha256 m.payload } ∷ []
  unfolding handle_prepare commit_own broadcast execute_consensus
  handle_prepare_repeats m p c r a b = ground (
    arith,
    size-store m.sequence m.node_id m p.prepare_messages,
    size-store m.sequence p.node_id
        (record {
          type = commit;
          node_id = p.node_id;
          view = m.view;
          sequence = m.sequence;
          digest = m.digest;
          payload = m.payload;
        })
        p.commit_messages,
  )

  -- Votes are counted by sender and number alone: when a commit vote completes the quorum, what is
  -- executed is the payload of that last vote, whatever payload and digest the others name.
  pub handle_commit_trusts_last :
      (m : ConsensusMessage) (p : Pbft)
      → p.has_callback ≡ true
      → is_reached m.sequence p ≡ false
      → 2 * p.f ≤ size (entries m.sequence p.commit_messages)
      → lookup m.node_id (entries m.sequence p.commit_messages) ≡ none
      → (payload digest : Bytes)
      → delivered (handle_commit lib (record m { payload = payload; digest = digest }) p).1
        ≡ record { sequence = m.sequence; payload = payload; digest = lib.sha256 payload } ∷ []
  unfolding handle_commit execute_consensus
  handle_commit_trusts_last m p c r a b payload digest = ground (
    arith,
    size-store_new m.sequence m.node_id (record m { payload = payload; digest = digest })
        p.commit_messages,
  )
