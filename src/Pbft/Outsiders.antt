-- ===== src/Pbft/Outsiders.antt =====
-- An engine of project/oracle/pkg/consensus/pbft.go that is not on its own node list.
use mathlib.Core.Option.{some-injective}
use lab.Base.{
  ℕ, String, List, [], ◌∷◌, false, Option, some, ◌≡◌, arith, contains, get_elem?, string_eq, ◌==◌,
  Option-cases, inl, inr, ◌%◌, length, beq_cases, beq_ne, sym, ◌∙◌, zero, suc,
}
use lab.Pbft.Types.{
  Bytes, Pbft, ConsensusMessage, MessageType, pre_prepare, prepare, commit, view_change, new_view,
  state_transfer, unknown, Action, Library, Error, Timer, unset, armed, fired, not_leader,
}
use lab.Pbft.Maintenance.{execute_consensus, cleanup, make_checkpoint, store}
use lab.Pbft.Handlers.{
  dispatch, process_new_view, propose_value, handle_pre_prepare, commit_own, handle_prepare,
  handle_commit, start_view_change, handle_view_change, handle_message,
}
use lab.Pbft.Validate.{process_message, accept, advance}
use lab.Pbft.Engine.{
  Event, receive, take, propose, time_out, restore, take_next, on_timer, restore_state, step,
}

-- It does not lead, and no view makes it a leader.
pub record IsOutsider (p : Pbft) : Type 0 where
  pub follows : p.is_leader ≡ false
  pub unlisted : contains p.nodes p.node_id ≡ false

unlisted_ne :
    (xs : List String) (id x : String) (i : ℕ)
    → contains xs id ≡ false
    → get_elem? xs i ≡ some x
    → (id == x) ≡ false
unlisted_ne [] id x i h e = cc
unlisted_ne (y ∷ xs) id x zero h e = elim (beq_cases y id) [
  | inl q ↦ absurd (cc (rw q.0 at h))
  | inr q ↦ beq_ne id x (λ same. q.1 (some-injective _ _ e ∙ sym same))
]
unlisted_ne (y ∷ xs) id x (suc i) h e = elim (beq_cases y id) [
  | inl q ↦ absurd (cc (rw q.0 at h))
  | inr q ↦ unlisted_ne xs id x i (rw q.0 at h) e
]

module _ (lib : Library) where
  execute-IsOutsider :
      (seq : ℕ) (payload : Bytes) (p : Pbft)
      → IsOutsider p
      → IsOutsider (execute_consensus lib seq payload p).0
  unfolding execute_consensus cleanup make_checkpoint
  execute-IsOutsider seq payload p v = ground arith

  process_new_view-IsOutsider :
      (new : ℕ) (p q : Pbft) (out : List Action)
      → IsOutsider p
      → process_new_view new p ≡ some (q, out)
      → IsOutsider q
  unfolding process_new_view
  process_new_view-IsOutsider new p q out v e =
      elim (Option-cases (get_elem? p.nodes (new % length p.nodes))) [
        | inl n ↦ absurd (cc (rw (n, process_new_view) at e))
        | inr (l, n) ↦
            ground (arith, unlisted_ne p.nodes p.node_id l (new % length p.nodes) v.unlisted n)
      ]

  commit_own-IsOutsider :
      (m : ConsensusMessage) (p : Pbft) → IsOutsider p → IsOutsider (commit_own lib m p).0
  unfolding commit_own execute_consensus cleanup make_checkpoint
  commit_own-IsOutsider m p v = ground arith

  handle_commit-IsOutsider :
      (m : ConsensusMessage) (p : Pbft) → IsOutsider p → IsOutsider (handle_commit lib m p).0
  unfolding handle_commit execute_consensus cleanup make_checkpoint
  handle_commit-IsOutsider m p v = ground arith

  handle_prepare-IsOutsider :
      (m : ConsensusMessage) (p : Pbft) → IsOutsider p → IsOutsider (handle_prepare lib m p).0
  unfolding handle_prepare
  handle_prepare-IsOutsider m p v = ground (
    arith,
    commit_own-IsOutsider m
        (record p { prepare_messages = store m.sequence m.node_id m p.prepare_messages })
        (record { follows = v.follows; unlisted = v.unlisted }),
  )

  handle_view_change-IsOutsider :
      (m : ConsensusMessage) (p q : Pbft) (out : List Action)
      → IsOutsider p
      → handle_view_change lib m p ≡ some (q, out)
      → IsOutsider q
  unfolding handle_view_change
  handle_view_change-IsOutsider m p q out v e =
      elim (Option-cases (lib.unmarshal_view_change m.payload)) [
        | inl n ↦ ground arith
        | inr (d, n) ↦
            let stored = record p {
              view_change_msgs = store d.new_view m.node_id m p.view_change_msgs;
            } in
            ground (
              arith,
              process_new_view-IsOutsider d.new_view stored q out
                  (record { follows = v.follows; unlisted = v.unlisted }),
            )
      ]

  dispatch-IsOutsider :
      (t : MessageType) (m : ConsensusMessage) (p q : Pbft) (out : List Action)
      → IsOutsider p
      → dispatch lib t m p ≡ some (q, out)
      → IsOutsider q
  unfolding dispatch handle_pre_prepare
  dispatch-IsOutsider pre_prepare m p q out v e = ground arith
  dispatch-IsOutsider prepare m p q out v e = ground (arith, handle_prepare-IsOutsider m p v)
  dispatch-IsOutsider commit m p q out v e = ground (arith, handle_commit-IsOutsider m p v)
  dispatch-IsOutsider view_change m p q out v e = handle_view_change-IsOutsider m p q out v e
  dispatch-IsOutsider new_view m p q out v e =
      ground (arith, process_new_view-IsOutsider p.view p q out v)
  dispatch-IsOutsider state_transfer m p q out v e = ground arith
  dispatch-IsOutsider unknown m p q out v e = ground arith

  propose_value-IsOutsider :
      (net : ConsensusMessage → Option Error) (value : Bytes) (p : Pbft)
      → IsOutsider p
      → propose_value lib net value p ≡ (some not_leader, p, [])
  unfolding propose_value
  propose_value-IsOutsider net value p v = ground (arith, v.follows)

  on_timer-IsOutsider : (t : Timer) (p : Pbft) → IsOutsider p → IsOutsider (on_timer lib t p).0
  unfolding on_timer start_view_change
  on_timer-IsOutsider unset p v = v
  on_timer-IsOutsider fired p v = v
  on_timer-IsOutsider armed p v = ground arith

  take_next-IsOutsider :
      (queue : List ConsensusMessage) (p q : Pbft) (out : List Action)
      → IsOutsider p
      → take_next lib queue p ≡ some (q, out)
      → IsOutsider q
  unfolding take_next handle_message
  take_next-IsOutsider [] p q out v e = ground arith
  take_next-IsOutsider (m ∷ rest) p q out v e =
      dispatch-IsOutsider m.type m (record p { msg_chan = rest }) q out
        (record { follows = v.follows; unlisted = v.unlisted }) e

  -- No event makes it a leader, also not a message of the view-change protocol.
  pub step-IsOutsider :
      (e : Event) (p q : Pbft) (out : List Action)
      → IsOutsider p
      → step lib e p ≡ some (q, out)
      → IsOutsider q
  unfolding step restore_state process_message accept advance
  step-IsOutsider (receive m) p q out v k = ground arith
  step-IsOutsider take p q out v k = take_next-IsOutsider p.msg_chan p q out v k
  step-IsOutsider (propose net value) p q out v k =
      ground (arith, propose_value-IsOutsider net value p v)
  step-IsOutsider time_out p q out v k = ground (arith, on_timer-IsOutsider p.view_timer p v)
  step-IsOutsider (restore sequence view state) p q out v k = ground arith
