-- ===== src/Pbft/Checkpoints.antt =====
-- Which votes and checkpoints survive an execution: makeCheckpoint and cleanup of
-- project/oracle/pkg/consensus/pbft.go.
use lab.Pbft.Votes.{entries-delete_where}
use lab.Pbft.Handlers.{is_reached}
use lab.Pbft.Maintenance.{cleanup, make_checkpoint, execute_consensus, interval_of}
use lab.Base.{
  ◌≡◌, ℕ, arith, ◌<◌, if◌then◌else◌, ◌≤◌, lookup, ltb, u64_mod, ◌%◌, [], sub64, ◌+◌, none, some,
  false, nat_eq, sub64_wraps, lt→ltb, lookup-delete_where, ◌-◌, nat_beq_means, lookup-insert_self,
  sub64_exact,
}
use lab.Pbft.Types.{Pbft, Library, entries, Bytes}

-- Cleanup drops exactly the votes and marks under a smaller number, and the checkpoints below the
-- uint64 difference of the number and the interval.
pub cleanup_effect :
    (seq j : ℕ) (p : Pbft)
    → (entries j (cleanup seq p).prepare_messages
        ≡ (if ltb j seq then [] else entries j p.prepare_messages))
      × (entries j (cleanup seq p).commit_messages
          ≡ (if ltb j seq then [] else entries j p.commit_messages))
      × (is_reached j (cleanup seq p) ≡ (if ltb j seq then false else is_reached j p))
      × (lookup j (cleanup seq p).checkpoints
          ≡ (if ltb j (sub64 seq p.checkpoint_interval) then none else lookup j p.checkpoints))
unfolding cleanup is_reached
cleanup_effect seq j p = (
  entries-delete_where (λ i. ltb i seq) j p.prepare_messages,
  entries-delete_where (λ i. ltb i seq) j p.commit_messages,
  ground (arith, lookup-delete_where (λ i. ltb i seq) j p.consensus_reached),
  lookup-delete_where _ j p.checkpoints,
)

module _ (lib : Library) where
  interval-make_checkpoint :
      (p : Pbft) → (make_checkpoint lib p).checkpoint_interval ≡ interval_of p.checkpoint_interval
  unfolding make_checkpoint
  interval-make_checkpoint p = ground arith

  lookup-make_checkpoint :
      (p : Pbft)
      → p.sequence % interval_of p.checkpoint_interval ≡ 0
      → lookup p.sequence (make_checkpoint lib p).checkpoints
        ≡ some (lib.marshal_checkpoint p.sequence p.last_checkpoint)
  unfolding make_checkpoint
  lookup-make_checkpoint p d =
      rw ((nat_beq_means _ _).0 d) (lookup-insert_self p.sequence _ p.checkpoints)

  checkpoints-execute :
      (seq j : ℕ) (payload : Bytes) (p : Pbft)
      → lookup j (execute_consensus lib seq payload p).0.checkpoints ≡ (
          if ltb j (sub64 seq (interval_of p.checkpoint_interval))
          then none
          else lookup j (make_checkpoint lib p).checkpoints)
  unfolding execute_consensus
  checkpoints-execute seq j payload p =
      rw (((cleanup_effect seq j (make_checkpoint lib p)).3), interval-make_checkpoint p)

  -- Below the first full interval the difference wraps around, so an execution drops every
  -- checkpoint that the engine has, the one it has just made included.
  pub checkpoints_lost :
      (seq j : ℕ) (payload : Bytes) (p : Pbft)
      → seq < interval_of p.checkpoint_interval
      → interval_of p.checkpoint_interval < u64_mod
      → j + interval_of p.checkpoint_interval < u64_mod
      → lookup j (execute_consensus lib seq payload p).0.checkpoints ≡ none
  checkpoints_lost seq j payload p a b c = rw (
    checkpoints-execute seq j payload p,
    sub64_wraps seq (interval_of p.checkpoint_interval) b a,
    lt→ltb j (u64_mod - (interval_of p.checkpoint_interval - seq)) (omega arith),
  )

  -- From the first full interval on, the checkpoint that an execution makes survives it, when the
  -- engine is at the executed number or past it.
  pub checkpoints_kept :
      (seq : ℕ) (payload : Bytes) (p : Pbft)
      → interval_of p.checkpoint_interval ≤ seq
      → seq < u64_mod
      → seq ≤ p.sequence
      → p.sequence % interval_of p.checkpoint_interval ≡ 0
      → lookup p.sequence (execute_consensus lib seq payload p).0.checkpoints
        ≡ some (lib.marshal_checkpoint p.sequence p.last_checkpoint)
  checkpoints_kept seq payload p a b c d =
      rw
        (
          checkpoints-execute seq p.sequence payload p,
          sub64_exact seq (interval_of p.checkpoint_interval) b a,
          lookup-make_checkpoint p d,
        )
        (ground arith)
