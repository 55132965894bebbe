-- ===== src/Pbft/Marks.antt =====
-- The marks that handleCommit of project/oracle/pkg/consensus/pbft.go sets for the numbers it executes,
-- in the handlers of votes.
pub mod Runs
use lab.Pbft.Maintenance.{execute_consensus, cleanup, make_checkpoint, store}
use lab.Pbft.Handlers.{
  is_reached, handle_commit, handle_prepare, commit_own, broadcast, process_new_view,
}
use lab.Pbft.Types.{Library, ConsensusMessage, Pbft, Bytes, entries, commit, Action}
use lab.Base.{
  ◌≡◌, true, ◌*◌, arith, ◌≤◌, size, nat_eq, string_eq, All, List, ℕ, ◌∙◌, lookup-insert,
  lookup-insert_self, beq_cases, insert, lookup-delete_where, ltb, refl, Option-cases, inl, inr,
  get_elem?, ◌%◌, length, some, Bool-cases, leb,
}
use lab.Pbft.Commits.{delivered}

-- What every event does to the mark of a number: it stays as long as results are handed to the callback
-- for no higher number.
pub record Keeps (seq : ℕ) (p q : Pbft) (out : List Action) : Type 0 where
  pub callback : q.has_callback ≡ p.has_callback
  pub reached :
      p.has_callback ≡ true
      → is_reached seq p ≡ true
      → All (λ r. r.sequence ≤ seq) (delivered out)
      → is_reached seq q ≡ true

pub is_reached-same :
    (seq : ℕ) (p q : Pbft)
    → q.consensus_reached ≡ p.consensus_reached
    → is_reached seq q ≡ is_reached seq p
unfolding is_reached
is_reached-same seq p q e = ground arith

is_reached-insert :
    (seq n : ℕ) (p : Pbft)
    → is_reached seq p ≡ true
    → is_reached seq (record p { consensus_reached = insert n true p.consensus_reached }) ≡ true
unfolding is_reached
is_reached-insert seq n p h = ground (
  arith,
  lookup-insert_self n true p.consensus_reached,
  lookup-insert n seq true p.consensus_reached,
  beq_cases n seq,
)

pub is_reached-insert_self :
    (seq : ℕ) (p : Pbft)
    → is_reached seq (record p { consensus_reached = insert seq true p.consensus_reached }) ≡ true
unfolding is_reached
is_reached-insert_self seq p = rw (lookup-insert_self seq true p.consensus_reached, is_reached)

-- A step that leaves the marks alone.
pub untouched-Keeps :
    (seq : ℕ) (p q : Pbft) (out : List Action)
    → q.has_callback ≡ p.has_callback
    → q.consensus_reached ≡ p.consensus_reached
    → Keeps seq p q out
untouched-Keeps seq p q out c e = record {
  callback = c;
  reached = λ k h a. is_reached-same seq p q e ∙ h;
}

pub process_new_view-Keeps :
    (seq new : ℕ) (p q : Pbft) (out : List Action)
    → process_new_view new p ≡ some (q, out)
    → (q.has_callback ≡ p.has_callback) × (q.consensus_reached ≡ p.consensus_reached)
unfolding process_new_view
process_new_view-Keeps seq new p q out e =
    elim (Option-cases (get_elem? p.nodes (new % length p.nodes))) [
      | inl n ↦ absurd (cc (rw (n, process_new_view) at e))
      | inr (l, n) ↦ ground arith
    ]

module _ (lib : Library) (seq : ℕ) where
  pub is_reached-execute :
      (n : ℕ) (payload : Bytes) (p : Pbft)
      → n ≤ seq
      → is_reached seq (execute_consensus lib n payload p).0 ≡ is_reached seq p
  unfolding is_reached execute_consensus cleanup make_checkpoint
  is_reached-execute n payload p h =
      ground (arith, lookup-delete_where (λ j. ltb j n) seq p.consensus_reached)

  execute-low :
      (n : ℕ) (payload : Bytes) (p : Pbft)
      → p.has_callback ≡ true
      → All (λ r. r.sequence ≤ seq) (delivered (execute_consensus lib n payload p).1)
      → n ≤ seq
  unfolding execute_consensus
  execute-low n payload p c a = ground arith

  -- What is executed for no higher number keeps the mark.
  execute-Keeps :
      (n : ℕ) (payload : Bytes) (p : Pbft)
      → p.has_callback ≡ true
      → is_reached seq p ≡ true
      → All (λ r. r.sequence ≤ seq) (delivered (execute_consensus lib n payload p).1)
      → is_reached seq (execute_consensus lib n payload p).0 ≡ true
  execute-Keeps n payload p c h a = is_reached-execute n payload p (execute-low n payload p c a) ∙ h

  execute-callback :
      (n : ℕ) (payload : Bytes) (p : Pbft)
      → (execute_consensus lib n payload p).0.has_callback ≡ p.has_callback
  unfolding execute_consensus cleanup make_checkpoint
  execute-callback n payload p = ground arith

  pub handle_commit-Keeps :
      (m : ConsensusMessage) (p : Pbft)
      → Keeps seq p (handle_commit lib m p).0 (handle_commit lib m p).1
  unfolding handle_commit
  handle_commit-Keeps m p =
      let stored = record p { commit_messages = store m.sequence m.node_id m p.commit_messages } in
      let marked = record stored {
        consensus_reached = insert m.sequence true p.consensus_reached;
      } in
      let same = is_reached-same seq p stored refl in
      record {
        callback = ground (arith, execute-callback m.sequence m.payload marked);
        reached = λ c h a. ground (
          arith,
          is_reached-insert seq m.sequence stored (same ∙ h),
          execute-Keeps m.sequence m.payload marked c,
        );
      }

  commit_own-Keeps :
      (m : ConsensusMessage) (p : Pbft) → Keeps seq p (commit_own lib m p).0 (commit_own lib m p).1
  unfolding commit_own broadcast
  commit_own-Keeps m p =
      let vote : ConsensusMessage = record {
        type = commit;
        node_id = p.node_id;
        view = m.view;
        sequence = m.sequence;
        digest = m.digest;
        payload = m.payload;
      } in
      let voted = record p {
        commit_messages = store m.sequence p.node_id vote p.commit_messages;
      } in
      let same = is_reached-same seq p voted refl in
      record {
        callback = ground (arith, execute-callback m.sequence m.payload voted);
        reached =
            λ c h a. ground (arith, same, execute-Keeps m.sequence m.payload voted c (same ∙ h));
      }

  pub handle_prepare-Keeps :
      (m : ConsensusMessage) (p : Pbft)
      → Keeps seq p (handle_prepare lib m p).0 (handle_prepare lib m p).1
  unfolding handle_prepare
  handle_prepare-Keeps m p =
      let stored = record p {
        prepare_messages = store m.sequence m.node_id m p.prepare_messages;
      } in
      let same = is_reached-same seq p stored refl in
      let own = commit_own-Keeps m stored in
      elim (Bool-cases (leb (2 * p.f) (size (entries m.sequence stored.prepare_messages)))) [
        | inl b ↦
            rw (handle_prepare, b)
              (record { callback = own.callback; reached = λ c h a. own.reached c (same ∙ h) a })
        | inr b ↦ rw (handle_prepare, b) (record { callback = refl; reached = λ c h a. same ∙ h })
      ]
