-- ===== src/Pbft/Leadership.antt =====
-- Who starts a view change in project/oracle/pkg/consensus/pbft.go: nobody does. The view timer is
-- armed only behind a view change, and the leader flag is only ever set.
use lab.Pbft.Maintenance.{execute_consensus, cleanup, make_checkpoint, store}
use lab.Pbft.Handlers.{
  commit_own, propose_value, handle_prepare, handle_pre_prepare, dispatch, handle_commit,
  handle_message, broadcast,
}
use lab.Pbft.Engine.{
  Event, step, receive, run, take_next, restore_state, propose, run-cons, restore, take, time_out,
  on_timer,
}
use lab.Pbft.Validate.{process_message, accept, advance}
use lab.Base.{
  ◌≡◌, List, All, false, Bool, true, some, arith, Option, ◌∷◌, insert, subst, ℕ, All-append, [],
  ◌∙◌, sym, nat_eq, none, refl,
}
use lab.Pbft.Types.{
  Pbft, ConsensusMessage, unset, Library, MessageType, Action, broadcast_message, deliver_result,
  view_change, pre_prepare, prepare, commit, Error, new_view, state_transfer, Bytes, unknown, Timer,
  armed, fired,
}

abbrev pub is_change : MessageType → Bool
is_change view_change = true
is_change new_view = true
is_change _ = false

-- No message of the view-change protocol is sent.
abbrev pub IsOrdinary : Action → Type 0
IsOrdinary (broadcast_message m) = is_change m.type ≡ false
IsOrdinary (deliver_result r) = Unit

-- What a handler outside the view-change protocol leaves alone.
pub record Keeps (p q : Pbft) (out : List Action) : Type 0 where
  pub leader : q.is_leader ≡ p.is_leader
  pub timer : q.view_timer ≡ p.view_timer
  pub queue : q.msg_chan ≡ p.msg_chan
  pub silent : All IsOrdinary out

module _ (lib : Library) where
  execute-Keeps :
      (seq : ℕ) (payload : Bytes) (p : Pbft)
      → Keeps p (execute_consensus lib seq payload p).0 (execute_consensus lib seq payload p).1
  unfolding execute_consensus cleanup make_checkpoint
  execute-Keeps seq payload p = ground arith

  commit_own-Keeps :
      (m : ConsensusMessage) (p : Pbft) → Keeps p (commit_own lib m p).0 (commit_own lib m p).1
  unfolding commit_own broadcast
  commit_own-Keeps m p = ground (
    arith,
    execute-Keeps m.sequence m.payload (record p {
      commit_messages =
          store m.sequence p.node_id
            (record {
              type = commit;
              node_id = p.node_id;
              view = m.view;
              sequence = m.sequence;
              digest = m.digest;
              payload = m.payload;
            })
            p.commit_messages;
    }),
  )

  handle_prepare-Keeps :
      (m : ConsensusMessage) (p : Pbft)
      → Keeps p (handle_prepare lib m p).0 (handle_prepare lib m p).1
  unfolding handle_prepare
  handle_prepare-Keeps m p = ground (
    arith,
    commit_own-Keeps m
        (record p { prepare_messages = store m.sequence m.node_id m p.prepare_messages }),
  )

  handle_commit-Keeps :
      (m : ConsensusMessage) (p : Pbft)
      → Keeps p (handle_commit lib m p).0 (handle_commit lib m p).1
  unfolding handle_commit
  handle_commit-Keeps m p = ground (
    arith,
    execute-Keeps m.sequence m.payload (record p {
      commit_messages = store m.sequence m.node_id m p.commit_messages;
      consensus_reached = insert m.sequence true p.consensus_reached;
    }),
  )

  handle_pre_prepare-Keeps :
      (m : ConsensusMessage) (p : Pbft)
      → Keeps p (handle_pre_prepare lib m p).0 (handle_pre_prepare lib m p).1
  unfolding handle_pre_prepare broadcast
  handle_pre_prepare-Keeps m p = ground arith

  propose_value-Keeps :
      (net : ConsensusMessage → Option Error) (value : Bytes) (p : Pbft)
      → Keeps p (propose_value lib net value p).1 (propose_value lib net value p).2
  unfolding propose_value broadcast
  propose_value-Keeps net value p = ground arith

  pub dispatch-Keeps :
      (t : MessageType) (m : ConsensusMessage) (p q : Pbft) (out : List Action)
      → is_change t ≡ false
      → dispatch lib t m p ≡ some (q, out)
      → Keeps p q out
  unfolding dispatch
  dispatch-Keeps pre_prepare m p q out c e = ground (arith, handle_pre_prepare-Keeps m p)
  dispatch-Keeps prepare m p q out c e = ground (arith, handle_prepare-Keeps m p)
  dispatch-Keeps commit m p q out c e = ground (arith, handle_commit-Keeps m p)
  dispatch-Keeps view_change m p q out c e = cc
  dispatch-Keeps new_view m p q out c e = cc
  dispatch-Keeps state_transfer m p q out c e = ground arith
  dispatch-Keeps unknown m p q out c e = ground arith

abbrev NotChange : ConsensusMessage → Type 0
NotChange m = is_change m.type ≡ false

-- The timer is not set, and no view-change message waits in the channel.
pub record IsQuiet (p : Pbft) : Type 0 where
  pub timer : p.view_timer ≡ unset
  pub queue : All NotChange p.msg_chan

-- An event that brings no view-change message from outside.
abbrev pub IsOutside : Event → Type 0
IsOutside (receive (some m)) = is_change m.type ≡ false
IsOutside _ = Unit

receive-IsQuiet :
    (m : Option ConsensusMessage) (p : Pbft)
    → IsOutside (receive m)
    → IsQuiet p
    → IsQuiet (process_message m p).0 × ((process_message m p).0.is_leader ≡ p.is_leader)
unfolding process_message accept advance
receive-IsQuiet none p o h = (h, refl)
receive-IsQuiet (some m) p o h =
    ground (arith, All-append NotChange p.msg_chan (m ∷ []) h.queue (o, tt))

module _ (lib : Library) where
  take_next-IsQuiet :
      (queue : List ConsensusMessage) (p q : Pbft) (out : List Action)
      → queue ≡ p.msg_chan
      → IsQuiet p
      → take_next lib queue p ≡ some (q, out)
      → IsQuiet q × (q.is_leader ≡ p.is_leader) × All IsOrdinary out
  unfolding take_next handle_message
  take_next-IsQuiet [] p q out e h k = ground arith
  take_next-IsQuiet (m ∷ rest) p q out e h k =
      let waiting = subst (All NotChange) (sym e) h.queue in
      let kept = dispatch-Keeps lib m.type m (record p { msg_chan = rest }) q out waiting.0 k in
      (
        record {
          timer = kept.timer ∙ h.timer;
          queue = subst (All NotChange) (sym kept.queue) waiting.1;
        },
        kept.leader,
        kept.silent,
      )

  pub on_timer_unset : (t : Timer) (p : Pbft) → t ≡ unset → on_timer lib t p ≡ (p, [])
  unfolding on_timer
  on_timer_unset unset p e = refl
  on_timer_unset armed p e = cc
  on_timer_unset fired p e = cc

  step-IsQuiet :
      (e : Event) (p q : Pbft) (out : List Action)
      → IsOutside e
      → IsQuiet p
      → step lib e p ≡ some (q, out)
      → IsQuiet q × (q.is_leader ≡ p.is_leader) × All IsOrdinary out
  unfolding step restore_state
  step-IsQuiet (receive m) p q out o h k = ground (arith, receive-IsQuiet m p o h)
  step-IsQuiet take p q out o h k = take_next-IsQuiet p.msg_chan p q out refl h k
  step-IsQuiet (propose net value) p q out o h k =
      ground (arith, propose_value-Keeps lib net value p)
  step-IsQuiet time_out p q out o h k = ground (arith, on_timer_unset p.view_timer p h.timer)
  step-IsQuiet (restore sequence view state) p q out o h k = ground arith

  -- As long as no view-change message comes from outside, an engine whose timer is not set never
  -- sends one, whatever else happens to it: its leader flag stays as it was, and its timer is never
  -- set. A group of new engines thus never leaves its first leader, also when that one has failed.
  pub run-IsQuiet :
      (es : List Event) (p q : Pbft) (out : List Action)
      → All IsOutside es
      → IsQuiet p
      → run lib es p ≡ some (q, out)
      → IsQuiet q × (q.is_leader ≡ p.is_leader) × All IsOrdinary out
  unfolding run
  run-IsQuiet [] p q out o h k = ground arith
  run-IsQuiet (e ∷ es) p q out o h k =
      let (p', now, later, first, rest, joined) = run-cons lib e es p q out k in
      let (quiet, leader, silent) = step-IsQuiet e p p' now o.0 h first in
      let (quiet', leader', silent') = run-IsQuiet es p' q later o.1 quiet rest in
      (quiet', leader' ∙ leader, rw joined (All-append IsOrdinary now later silent silent'))
