-- ===== src/Pbft/Marks/Runs.antt =====
-- The marks that handleCommit of project/oracle/pkg/consensus/pbft.go sets for the numbers it executes,
-- through every event and every run of the engine.
use lab.Pbft.Validate.{process_message, accept, advance}
use lab.Pbft.Engine.{
  Event, receive, take, propose, time_out, restore, step, take_next, on_timer, restore_state, run,
  run-cons,
}
use mathlib.Core.Option.{some-injective}
use lab.Pbft.Maintenance.{store}
use lab.Pbft.Handlers.{
  handle_view_change, handle_pre_prepare, dispatch, handle_message, start_view_change,
  propose_value,
}
use lab.Pbft.Types.{
  Library, ConsensusMessage, Pbft, Bytes, commit, Action, MessageType, pre_prepare, prepare,
  view_change, new_view, state_transfer, unknown, Timer, unset, armed, fired, Error, deliver_result,
  broadcast_message, ConsensusResult,
}
use lab.Base.{
  ◌≡◌, [], arith, ◌≤◌, ◌∷◌, nat_eq, none, string_eq, All, List, ℕ, ◌∙◌, refl, Option-cases, inl,
  inr, some, Option, subst, ◌++◌,
}
use lab.Pbft.Commits.{delivered}
use lab.Pbft.Marks.{
  Keeps, untouched-Keeps, is_reached-same, process_new_view-Keeps, handle_commit-Keeps,
  handle_prepare-Keeps,
}

module _ (lib : Library) (seq : ℕ) where
  handle_view_change-untouched :
      (m : ConsensusMessage) (p q : Pbft) (out : List Action)
      → handle_view_change lib m p ≡ some (q, out)
      → (q.has_callback ≡ p.has_callback) × (q.consensus_reached ≡ p.consensus_reached)
  unfolding handle_view_change
  handle_view_change-untouched m p q out e =
      elim (Option-cases (lib.unmarshal_view_change m.payload)) [
        | inl n ↦ ground arith
        | inr (d, n) ↦ ground (
          arith,
          process_new_view-Keeps seq d.new_view
              (record p { view_change_msgs = store d.new_view m.node_id m p.view_change_msgs }) q
              out,
        )
      ]

  handle_pre_prepare-untouched :
      (m : ConsensusMessage) (p : Pbft)
      → ((handle_pre_prepare lib m p).0.has_callback ≡ p.has_callback)
        × ((handle_pre_prepare lib m p).0.consensus_reached ≡ p.consensus_reached)
  unfolding handle_pre_prepare
  handle_pre_prepare-untouched m p = ground arith

  Keeps-of :
      (p q : Pbft) (out : List Action) (done : Pbft × List Action)
      → Keeps seq p done.0 done.1
      → some done ≡ some (q, out)
      → Keeps seq p q out
  Keeps-of p q out done k e = subst (λ x. Keeps seq p x.0 x.1) (some-injective _ _ e) k

  dispatch-Keeps :
      (t : MessageType) (m : ConsensusMessage) (p q : Pbft) (out : List Action)
      → dispatch lib t m p ≡ some (q, out)
      → Keeps seq p q out
  unfolding dispatch
  dispatch-Keeps pre_prepare m p q out e =
      let same = handle_pre_prepare-untouched m p in
      Keeps-of p q out _ (untouched-Keeps seq p _ _ same.0 same.1) e
  dispatch-Keeps prepare m p q out e = Keeps-of p q out _ (handle_prepare-Keeps lib seq m p) e
  dispatch-Keeps commit m p q out e = Keeps-of p q out _ (handle_commit-Keeps lib seq m p) e
  dispatch-Keeps view_change m p q out e =
      let same = handle_view_change-untouched m p q out e in
      untouched-Keeps seq p q out same.0 same.1
  dispatch-Keeps new_view m p q out e =
      let same : (q.has_callback ≡ p.has_callback) × (q.consensus_reached ≡ p.consensus_reached) =
        ground (arith, process_new_view-Keeps seq p.view p q out) in
      untouched-Keeps seq p q out same.0 same.1
  dispatch-Keeps state_transfer m p q out e =
      Keeps-of p q out (p, []) (untouched-Keeps seq p p [] refl refl) e
  dispatch-Keeps unknown m p q out e =
      Keeps-of p q out (p, []) (untouched-Keeps seq p p [] refl refl) e

  take_next-Keeps :
      (queue : List ConsensusMessage) (p q : Pbft) (out : List Action)
      → take_next lib queue p ≡ some (q, out)
      → Keeps seq p q out
  unfolding take_next handle_message
  take_next-Keeps [] p q out e = Keeps-of p q out (p, []) (untouched-Keeps seq p p [] refl refl) e
  take_next-Keeps (m ∷ rest) p q out e =
      let taken = record p { msg_chan = rest } in
      let kept = dispatch-Keeps m.type m taken q out e in
      record {
        callback = kept.callback;
        reached = λ c h a. kept.reached c (is_reached-same seq p taken refl ∙ h) a;
      }

  step-untouched :
      (t : Timer) (p : Pbft)
      → ((on_timer lib t p).0.has_callback ≡ p.has_callback)
        × ((on_timer lib t p).0.consensus_reached ≡ p.consensus_reached)
  unfolding on_timer start_view_change
  step-untouched unset p = ground arith
  step-untouched armed p = ground arith
  step-untouched fired p = ground arith

  process_message-untouched :
      (m : Option ConsensusMessage) (p : Pbft)
      → ((process_message m p).0.has_callback ≡ p.has_callback)
        × ((process_message m p).0.consensus_reached ≡ p.consensus_reached)
  unfolding process_message accept advance
  process_message-untouched none p = ground arith
  process_message-untouched (some m) p = ground arith

  propose_value-untouched :
      (net : ConsensusMessage → Option Error) (value : Bytes) (p : Pbft)
      → ((propose_value lib net value p).1.has_callback ≡ p.has_callback)
        × ((propose_value lib net value p).1.consensus_reached ≡ p.consensus_reached)
  unfolding propose_value
  propose_value-untouched net value p = ground arith

  step-Keeps :
      (e : Event) (p q : Pbft) (out : List Action)
      → step lib e p ≡ some (q, out)
      → Keeps seq p q out
  unfolding step restore_state
  step-Keeps (receive m) p q out h =
      let same = process_message-untouched m p in
      Keeps-of p q out _ (untouched-Keeps seq p _ _ same.0 same.1) h
  step-Keeps take p q out h = take_next-Keeps p.msg_chan p q out h
  step-Keeps (propose net value) p q out h =
      let same = propose_value-untouched net value p in
      Keeps-of p q out _ (untouched-Keeps seq p _ _ same.0 same.1) h
  step-Keeps time_out p q out h =
      let same = step-untouched p.view_timer p in
      Keeps-of p q out _ (untouched-Keeps seq p _ _ same.0 same.1) h
  step-Keeps (restore sequence view state) p q out h =
      Keeps-of p q out _ (untouched-Keeps seq p _ _ refl refl) h

  delivered-All :
      (P : ConsensusResult → Type 0) (now later : List Action)
      → All P (delivered (now ++ later))
      → All P (delivered now) × All P (delivered later)
  delivered-All P [] later a = (tt, a)
  delivered-All P (deliver_result r ∷ now) later a =
      let rest = delivered-All P now later a.1 in ((a.0, rest.0), rest.1)
  delivered-All P (broadcast_message m ∷ now) later a = delivered-All P now later a

  pub run-Keeps :
      (es : List Event) (p q : Pbft) (out : List Action)
      → run lib es p ≡ some (q, out)
      → Keeps seq p q out
  unfolding run
  run-Keeps [] p q out h = Keeps-of p q out (p, []) (untouched-Keeps seq p p [] refl refl) h
  run-Keeps (e ∷ es) p q out h =
      let (r, now, later, first, rest, both) = run-cons lib e es p q out h in
      let once = step-Keeps e p r now first in
      let then_on = run-Keeps es r q later rest in
      record {
        callback = then_on.callback ∙ once.callback;
        reached = λ c k a.
            let parts =
              delivered-All (λ x. x.sequence ≤ seq) now later
                (subst (λ x. All (λ y. y.sequence ≤ seq) (delivered x)) both a) in
            then_on.reached (once.callback ∙ c) (once.reached c k parts.0) parts.1;
      }
