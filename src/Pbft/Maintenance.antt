-- ===== src/Pbft/Maintenance.antt =====
-- Checkpoints, cleanup and execution: makeCheckpoint, cleanup and executeConsensus of
-- project/oracle/pkg/consensus/pbft.go.
use lab.Base.{
  ℕ, ◌%◌, String, List, [], ◌∷◌, insert, delete_where, ltb, nat_beq, nat_eq, string_eq,
  if◌then◌else◌, sub64,
}
use lab.Pbft.Types.{
  Bytes, Pbft, Log, ConsensusMessage, ConsensusResult, Action, deliver_result, Library, entries,
}

-- `if _, exists := log[seq]; !exists { log[seq] = make(…) }; log[seq][id] = msg`
unfoldable pub store : ℕ → String → ConsensusMessage → Log → Log
unfolding entries
store seq id msg log = insert seq (insert id msg (entries seq log)) log

-- cleanup. The threshold for checkpoints is a uint64 difference.
unfoldable pub cleanup : ℕ → Pbft → Pbft
cleanup sequence p = record p {
  prepare_messages = delete_where (λ seq. ltb seq sequence) p.prepare_messages;
  commit_messages = delete_where (λ seq. ltb seq sequence) p.commit_messages;
  consensus_reached = delete_where (λ seq. ltb seq sequence) p.consensus_reached;
  checkpoints = delete_where (λ seq. ltb seq (sub64 sequence p.checkpoint_interval)) p.checkpoints;
}

-- The interval that makeCheckpoint puts in place of 0.
abbrev pub interval_of : ℕ → ℕ
interval_of n = if nat_beq n 0 then 100 else n

module _ (lib : Library) where
  -- makeCheckpoint
  unfoldable pub make_checkpoint : Pbft → Pbft
  make_checkpoint p =
      let interval = interval_of p.checkpoint_interval in
      if nat_beq (p.sequence % interval) 0
      then record p {
        checkpoint_interval = interval;
        checkpoints =
            insert p.sequence (lib.marshal_checkpoint p.sequence p.last_checkpoint) p.checkpoints;
        last_checkpoint_seq = p.sequence;
      }
      else record p { checkpoint_interval = interval }

  -- executeConsensus
  unfoldable pub execute_consensus : ℕ → Bytes → Pbft → Pbft × List Action
  execute_consensus sequence payload p =
      let result : ConsensusResult = record {
        sequence = sequence;
        payload = payload;
        digest = lib.sha256 payload;
      } in
      (
        cleanup sequence (make_checkpoint p),
        if p.has_callback then deliver_result result ∷ [] else [],
      )
