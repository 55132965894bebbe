-- ===== src/Pbft/Engine.antt =====
-- The engine as a state machine: the events that drive the code of
-- project/oracle/pkg/consensus/pbft.go (run, ProcessMessage, ProposeValue, the view timer), one
-- after another. Each event is one critical section of the code.
use lab.Base.{◌≡◌, refl, arith, ℕ, true, List, [], ◌∷◌, ◌++◌, Option, none, some, add64}
use lab.Pbft.Types.{
  Bytes, Pbft, PbftState, ConsensusMessage, Action, Library, Error, Timer, unset, armed, fired,
}
use lab.Pbft.Handlers.{propose_value, start_view_change, handle_message}
use lab.Pbft.Validate.{process_message}

-- SetNetworkManager, RegisterResultCallback and SetResultCallback
unfoldable pub set_network_manager : Pbft → Pbft
set_network_manager p = record p { has_network = true }

unfoldable pub set_result_callback : Pbft → Pbft
set_result_callback p = record p { has_callback = true }

-- RestoreState
unfoldable pub restore_state : ℕ → ℕ → PbftState → Pbft → Pbft
restore_state sequence view state p = record p { sequence = sequence; view = view; state = state }

pub data Event : Type 0 where
  -- ProcessMessage is called.
  receive : Option ConsensusMessage → Event
  -- The goroutine of `run` takes a message off the channel.
  take : Event
  -- ProposeValue is called; the function is what the network answers.
  propose : (ConsensusMessage → Option Error) → Bytes → Event
  -- The view timer runs out.
  time_out : Event
  restore : ℕ → ℕ → PbftState → Event

module _ (lib : Library) where
  -- One round of `run`.
  unfoldable pub take_next : List ConsensusMessage → Pbft → Option (Pbft × List Action)
  take_next [] p = some (p, [])
  take_next (msg ∷ rest) p = handle_message lib msg (record p { msg_chan = rest })

  -- The function that resetViewTimer arms.
  unfoldable pub on_timer : Timer → Pbft → Pbft × List Action
  on_timer unset p = (p, [])
  on_timer fired p = (p, [])
  on_timer armed p = start_view_change lib (add64 p.view 1) (record p { view_timer = fired })

  unfoldable pub step : Event → Pbft → Option (Pbft × List Action)
  unfolding take_next on_timer restore_state
  step (receive msg) p = some ((process_message msg p).0, [])
  step take p = take_next p.msg_chan p
  step (propose net value) p =
      some ((propose_value lib net value p).1, (propose_value lib net value p).2)
  step time_out p = some (on_timer p.view_timer p)
  step (restore sequence view state) p = some (restore_state sequence view state p, [])

  -- A run, with all that it did to the outside; `none` is a panic.
  unfoldable pub run : List Event → Pbft → Option (Pbft × List Action)
  run [] p = some (p, [])
  run (e ∷ es) p = elim (step e p) [
    | none ↦ none
    | some (q, out) ↦ elim (run es q) [ none ↦ none | some (r, later) ↦ some (r, out ++ later) ]
  ]

  pub run-cons :
      (e : Event) (es : List Event) (p r : Pbft) (out : List Action)
      → run (e ∷ es) p ≡ some (r, out)
      → (q : Pbft) × (now : List Action) × (later : List Action) × (step e p ≡ some (q, now))
        × (run es q ≡ some (r, later))
        × (out ≡ now ++ later)
  unfolding run
  run-cons e es p r out h = by_step (step e p) refl
    where
      Split : Type 0
      Split =
          (q : Pbft) × (now : List Action) × (later : List Action) × (step e p ≡ some (q, now))
          × (run es q ≡ some (r, later))
          × (out ≡ now ++ later)

      by_rest :
          (q : Pbft) (now : List Action)
          → step e p ≡ some (q, now)
          → (o : Option (Pbft × List Action)) → run es q ≡ o
          → Split
      by_rest q now k none l = absurd (cc (rw (k, run, l) at h))
      by_rest q now k (some (r', later)) l = (q, now, later, k, ground arith, ground arith)

      by_step : (o : Option (Pbft × List Action)) → step e p ≡ o → Split
      by_step none k = absurd (cc (rw (k, run) at h))
      by_step (some (q, now)) k = by_rest q now k (run es q) refl
