-- ===== src/Pbft/Validation.antt =====
-- What ProcessMessage and validateMessage of project/oracle/pkg/consensus/pbft.go let in, and what
-- of the engine's own traffic they turn away.
use Prim.Native.Nat.{max}
use lab.Pbft.Validate.{
  validate, process_message, validate_type, accept, Outcome, rejected, advance, enqueued, blocked,
}
use lab.Base.{
  ◌≡◌, ◌<◌, u64_mod, some, contains, ◌⊎◌, true, inl, ◌≤◌, none, inr, ◌+◌, ◌↔◌, arith, string_eq,
  length, Option, Bool-cases, ◌++◌, ◌∷◌, ltb, [], refl,
}
use lab.Pbft.Types.{Pbft, ConsensusMessage, prepare, commit, chan_capacity, Error}

-- A message of a member whose sequence number and view lag by at most one passes unless its type
-- turns it away.
validate-recent :
    (msg : ConsensusMessage) (p : Pbft)
    → p.sequence < u64_mod
    → p.view < u64_mod
    → contains p.nodes msg.node_id ≡ true
    → p.sequence ≤ msg.sequence + 1
    → p.view ≤ msg.view + 1
    → validate msg p ≡ validate_type msg.type msg p
unfolding validate
validate-recent msg p a b m s w = ground (arith)

-- A prepare or commit message is accepted exactly when it is a member's and neither its sequence
-- number nor its view lags behind the engine's by more than one.
pub validate-vote_iff :
    (msg : ConsensusMessage) (p : Pbft)
    → p.sequence < u64_mod
    → p.view < u64_mod
    → (msg.type ≡ prepare) ⊎ (msg.type ≡ commit)
    → (validate msg p ≡ none) ↔ (
        (contains p.nodes msg.node_id ≡ true)
        × (p.sequence ≤ msg.sequence + 1)
        × (p.view ≤ msg.view + 1))
unfolding validate validate_type
validate-vote_iff msg p a b (inl k) = (λ h. ground arith, λ h. ground arith)
validate-vote_iff msg p a b (inr k) = (λ h. ground arith, λ h. ground arith)

-- What a result of ProcessMessage says: a message that is turned away leaves the engine as it is;
-- otherwise the sequence number and the view become the greater of the engine's and the message's,
-- and the message goes to the end of the channel, behind those that wait for room.
abbrev Effect : ConsensusMessage → Pbft → Pbft → Outcome → Type 0
Effect msg p q (rejected e) = (validate msg p ≡ some e) × (q ≡ p)
Effect msg p q enqueued =
    (validate msg p ≡ none)
    × (length p.msg_chan < chan_capacity)
    × (q ≡ record p {
      sequence = max p.sequence msg.sequence;
      view = max p.view msg.view;
      msg_chan = p.msg_chan ++ (msg ∷ []);
    })
Effect msg p q blocked =
    (validate msg p ≡ none)
    × (chan_capacity ≤ length p.msg_chan)
    × (q ≡ record p {
      sequence = max p.sequence msg.sequence;
      view = max p.view msg.view;
      msg_chan = p.msg_chan ++ (msg ∷ []);
    })

-- ProcessMessage rejects exactly the messages that the validation refuses, with its error and the
-- engine unchanged. It takes all others: the sequence number and the view become the greater of the
-- engine's and the message's, and the message is queued last; a full channel makes the caller wait.
pub process_message-Effect :
    (msg : ConsensusMessage) (p : Pbft)
    → Effect msg p (process_message (some msg) p).0 (process_message (some msg) p).1
unfolding process_message accept advance
process_message-Effect msg p = by_validation (validate msg p) refl
  where
    by_validation :
        (o : Option Error)
        → validate msg p ≡ o
        → Effect msg p (process_message (some msg) p).0 (process_message (some msg) p).1
    by_validation none n = elim (Bool-cases (ltb (length p.msg_chan) chan_capacity)) [
      | inl c ↦ rw (n, process_message, c, accept) (n, ground arith, ground arith)
      | inr c ↦ rw (n, process_message, c, accept) (n, ground arith, ground arith)
    ]
    by_validation (some e) n = rw (n, process_message) (n, refl)
