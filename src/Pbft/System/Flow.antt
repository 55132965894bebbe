-- ===== src/Pbft/System/Flow.antt =====
-- What flows through one engine of project/oracle/pkg/consensus/pbft.go: everything that it sends and
-- delivers for a number carries a payload that it has received for that number.
use lab.Pbft.Validate.{process_message, accept, advance}
use lab.Pbft.Engine.{take_next, Event, step, receive, propose, restore, take, time_out}
use lab.Pbft.Maintenance.{execute_consensus, store, cleanup, make_checkpoint}
use lab.Pbft.Leadership.{is_change, on_timer_unset, dispatch-Keeps}
use lab.Pbft.Handlers.{
  commit_own, dispatch, broadcast, handle_pre_prepare, handle_prepare, handle_commit, propose_value,
  handle_message,
}
use lab.Base.{
  ◌≡◌, ℕ, List, [], ◌∷◌, All, All-append, false, some, none, arith, ◌≤◌, refl, Option, subst, sym,
  ◌⊎◌, true, add64, ◌∙◌,
}
use lab.Pbft.Types.{
  Bytes, Pbft, ConsensusMessage, Action, Library, broadcast_message, deliver_result, MessageType,
  pre_prepare, prepare, commit, view_change, new_view, state_transfer, unknown, unset, Error,
}

nil_message : (p : Pbft) → (process_message none p).0 ≡ p
unfolding process_message
nil_message p = refl

-- The message that ProposeValue sends.
abbrev pub proposal : Library → Bytes → Pbft → ConsensusMessage
proposal lib value p = record {
  type = pre_prepare;
  node_id = p.node_id;
  view = p.view;
  sequence = p.sequence;
  digest = lib.sha256 value;
  payload = value;
}

-- ProposeValue with a network that takes the message: nothing is sent, or a leader sends its proposal
-- and takes the next number.
pub propose_value-cases :
    (lib : Library) (net : ConsensusMessage → Option Error) (value : Bytes) (p : Pbft)
    → ((m : ConsensusMessage) → net m ≡ none)
    → ((propose_value lib net value p).1.msg_chan ≡ p.msg_chan)
      × ((propose_value lib net value p).1.view_timer ≡ p.view_timer)
      × ((propose_value lib net value p).1.is_leader ≡ p.is_leader)
      × ((((propose_value lib net value p).2 ≡ [])
            × ((propose_value lib net value p).1.sequence ≡ p.sequence))
          ⊎ ((p.is_leader ≡ true)
              × ((propose_value lib net value p).2 ≡ broadcast_message (proposal lib value p) ∷ [])
              × ((propose_value lib net value p).1.sequence ≡ add64 p.sequence 1)))
unfolding propose_value broadcast
propose_value-cases lib net value p h = ground (arith, h (proposal lib value p))

module _ (R : ℕ → Bytes → Type 0) where
  -- A message of the three ordinary phases with a known payload.
  abbrev pub IsKnown : ConsensusMessage → Type 0
  IsKnown m = R m.sequence m.payload × (is_change m.type ≡ false)

  abbrev pub Carries : Action → Type 0
  Carries (broadcast_message m) = IsKnown m
  Carries (deliver_result r) = R r.sequence r.payload

  module _ (lib : Library) where
    execute-Carries :
        (seq : ℕ) (payload : Bytes) (p : Pbft)
        → R seq payload
        → All Carries (execute_consensus lib seq payload p).1
    unfolding execute_consensus
    execute-Carries seq payload p r = ground arith

    commit_own-Carries :
        (m : ConsensusMessage) (p : Pbft)
        → R m.sequence m.payload
        → All Carries (commit_own lib m p).1
    unfolding commit_own broadcast execute_consensus
    commit_own-Carries m p r = ground arith

    dispatch-Carries :
        (t : MessageType) (m : ConsensusMessage) (p q : Pbft) (out : List Action)
        → is_change t ≡ false
        → R m.sequence m.payload
        → dispatch lib t m p ≡ some (q, out)
        → All Carries out
    unfolding dispatch handle_pre_prepare handle_prepare handle_commit execute_consensus broadcast
    dispatch-Carries pre_prepare m p q out c r e = ground arith
    dispatch-Carries prepare m p q out c r e =
        let stored = record p {
          prepare_messages = store m.sequence m.node_id m p.prepare_messages;
        } in
        ground (arith, commit_own-Carries m stored r)
    dispatch-Carries commit m p q out c r e = ground arith
    dispatch-Carries view_change m p q out c r e = cc
    dispatch-Carries new_view m p q out c r e = cc
    dispatch-Carries state_transfer m p q out c r e = ground arith
    dispatch-Carries unknown m p q out c r e = ground arith

    -- What an engine with an unset timer and a queue of known messages is after a step, and what it has
    -- done.
    pub record Flows (p q : Pbft) (out : List Action) : Type 0 where
      pub timer : q.view_timer ≡ unset
      pub leader : q.is_leader ≡ p.is_leader
      pub queue : All IsKnown q.msg_chan
      pub silent : All Carries out

    receive-Flows :
        (m : ConsensusMessage) (p : Pbft)
        → IsKnown m
        → p.view_timer ≡ unset
        → All IsKnown p.msg_chan
        → Flows p (process_message (some m) p).0 []
          × (p.sequence ≤ (process_message (some m) p).0.sequence)
    unfolding process_message accept advance
    receive-Flows m p k t h = ground (arith, All-append IsKnown p.msg_chan (m ∷ []) h (k, tt))

    -- The number only grows where a message is validated.
    dispatch-sequence :
        (t : MessageType) (m : ConsensusMessage) (p q : Pbft) (out : List Action)
        → is_change t ≡ false
        → dispatch lib t m p ≡ some (q, out)
        → q.sequence ≡ p.sequence
    unfolding dispatch handle_pre_prepare handle_prepare handle_commit execute_consensus commit_own
        cleanup make_checkpoint
    dispatch-sequence view_change m p q out c e = cc
    dispatch-sequence new_view m p q out c e = cc
    dispatch-sequence _ m p q out c e = ground arith

    take_next-Flows :
        (queue : List ConsensusMessage) (p q : Pbft) (out : List Action)
        → queue ≡ p.msg_chan
        → p.view_timer ≡ unset
        → All IsKnown p.msg_chan
        → take_next lib queue p ≡ some (q, out)
        → Flows p q out × (p.sequence ≤ q.sequence)
    unfolding take_next handle_message
    take_next-Flows [] p q out e t h k = ground arith
    take_next-Flows (m ∷ rest) p q out e t h k =
        let waiting = subst (All IsKnown) (sym e) h in
        let popped = record p { msg_chan = rest } in
        let kept = dispatch-Keeps lib m.type m popped q out waiting.0.1 k in
        let grown = dispatch-sequence m.type m popped q out waiting.0.1 k in
        (
          record {
            timer = kept.timer ∙ t;
            leader = kept.leader;
            queue = subst (All IsKnown) (sym kept.queue) waiting.1;
            silent = dispatch-Carries m.type m popped q out waiting.0.1 waiting.0.0 k;
          },
          omega (arith, grown),
        )

    -- An event that brings nothing but known messages, and proposes nothing.
    abbrev pub Brings : Event → Type 0
    Brings (receive none) = Unit
    Brings (receive (some m)) = IsKnown m
    Brings (propose net value) = ⊥
    Brings (restore sequence view state) = ⊥
    Brings _ = Unit

    pub step-Flows :
        (e : Event) (p q : Pbft) (out : List Action)
        → Brings e
        → p.view_timer ≡ unset
        → All IsKnown p.msg_chan
        → step lib e p ≡ some (q, out)
        → Flows p q out × (p.sequence ≤ q.sequence)
    unfolding step
    step-Flows (receive none) p q out b t h k = ground (arith, nil_message p)
    step-Flows (receive (some m)) p q out b t h k = ground (arith, receive-Flows m p b t h)
    step-Flows take p q out b t h k = take_next-Flows p.msg_chan p q out refl t h k
    step-Flows (propose net value) p q out b t h k = absurd b
    step-Flows time_out p q out b t h k = ground (arith, on_timer_unset lib p.view_timer p t)
    step-Flows (restore sequence view state) p q out b t h k = absurd b
