-- ===== src/Pbft/Progress.antt =====
-- View changes in project/oracle/pkg/consensus/pbft.go: no event panics, but the protocol neither
-- starts a view change by itself nor accepts its own messages once it is past view 0.
use lab.Pbft.Validate.{validate, validate_type}
use lab.Pbft.Invariant.Run.{step-Inv}
use lab.Pbft.Invariant.Defs.{Inv}
use lab.Pbft.Engine.{step, run, take_next, Event, take}
use native.Mathlib.Nat.{mod-lt}
use lab.Pbft.Maintenance.{store}
use lab.Pbft.Handlers.{
  process_new_view, handle_view_change, dispatch, handle_message, broadcast, start_view_change,
}
use lab.Base.{
  ◌≡◌, List, ℕ, String, contains, ◌<◌, true, length, ◌∷◌, some, arith, get_elem?_total, string_eq,
  ◌%◌, inl, inr, Option-cases, [], ◌≢◌, none, Option, ◌++◌, refl, get_elem?,
}
use lab.Pbft.Types.{
  Pbft, Library, ConsensusMessage, Action, MessageType, view_change, new_view, broadcast_message,
}

nodes_nonempty : (nodes : List String) (id : String) → contains nodes id ≡ true → 0 < length nodes
nodes_nonempty [] id h = cc
nodes_nonempty (n ∷ nodes) id h = omega arith

process_new_view-ne-none : (new : ℕ) (p : Pbft) → 0 < length p.nodes → process_new_view new p ≢ none
unfolding process_new_view
process_new_view-ne-none new p h =
    ground (arith, get_elem?_total p.nodes (new % length p.nodes) (mod-lt _ h))

module _ (lib : Library) where
  dispatch-ne-none :
      (t : MessageType) (m : ConsensusMessage) (p : Pbft)
      → 0 < length p.nodes
      → dispatch lib t m p ≢ none
  unfolding dispatch handle_view_change
  dispatch-ne-none view_change m p h = elim (Option-cases (lib.unmarshal_view_change m.payload)) [
    | inl n ↦ ground arith
    | inr (d, n) ↦ ground (
      arith,
      process_new_view-ne-none d.new_view
          (record p { view_change_msgs = store d.new_view m.node_id m p.view_change_msgs }) h,
    )
  ]
  dispatch-ne-none new_view m p h = ground (arith, process_new_view-ne-none p.view p h)
  dispatch-ne-none t m p h = ground arith

  take_next-ne-none :
      (queue : List ConsensusMessage) (p : Pbft) → 0 < length p.nodes → take_next lib queue p ≢ none
  unfolding take_next handle_message
  take_next-ne-none [] p h = ground arith
  take_next-ne-none (m ∷ rest) p h = dispatch-ne-none m.type m _ h

  step-ne-none : (e : Event) (p : Pbft) → Inv p → step lib e p ≢ none
  unfolding step
  step-ne-none take p v = take_next-ne-none p.msg_chan p (nodes_nonempty p.nodes p.node_id v.self)
  step-ne-none e p v = ground arith

  -- From a state in the invariant no sequence of events makes the engine panic: every run ends in a
  -- state.
  pub run_total :
      (es : List Event) (p : Pbft)
      → Inv p
      → (q : Pbft) × (out : List Action) × (run lib es p ≡ some (q, out))
  unfolding run
  run_total [] p v = (p, [], refl)
  run_total (e ∷ es) p v = by_step (run_total es) (step lib e p) refl
    where
      Ends : List Event → Pbft → Type 0
      Ends es p = (q : Pbft) × (out : List Action) × (run lib es p ≡ some (q, out))

      by_step :
          ((q : Pbft) → Inv q → Ends es q)
          → (o : Option (Pbft × List Action)) → step lib e p ≡ o
          → Ends (e ∷ es) p
      by_step later none k = absurd (step-ne-none e p v k)
      by_step later (some (q, now)) k =
          let (r, out, l) = later q (step-Inv lib e p q now v k) in (r, now ++ out, rw (k, run, l))

-- The view-change messages that an engine makes have no view number, so an engine past view 0 turns
-- them away: with its error for a stale view, unless an earlier test fails already.
pub start_view_change_rejected :
    (lib : Library) (new : ℕ) (p receiver : Pbft) (m : ConsensusMessage)
    → 0 < receiver.view
    → (start_view_change lib new p).1 ≡ broadcast_message m ∷ []
    → validate m receiver ≢ none
unfolding start_view_change broadcast validate validate_type
start_view_change_rejected lib new p receiver m h e = ground arith

-- So is the new-view message of a new leader.
pub process_new_view_rejected :
    (new : ℕ) (p q receiver : Pbft) (m : ConsensusMessage)
    → 0 < receiver.view
    → process_new_view new p ≡ some (q, broadcast_message m ∷ [])
    → validate m receiver ≢ none
unfolding process_new_view broadcast validate validate_type
process_new_view_rejected new p q receiver m h e =
    elim (Option-cases (get_elem? p.nodes (new % length p.nodes))) [
      | inl n ↦ absurd (cc (rw (n, process_new_view) at e))
      | inr (l, n) ↦ ground arith
    ]
