-- ===== src/Oracle/Machine.antt =====
-- The node of project/oracle/pkg/node/oracle_node.go as a state machine: its calls, the messages that
-- reach it, and the steps of its engine with what they send and deliver.
use lab.Oracle.Manager.{manager_broadcast}
use lab.Network.Transport.{World}
use lab.Oracle.Requests.{
  process_prompt, accepted, rejected, crashed, handle_network_message, Parts, register_node_peer,
  start, stop,
}
use lab.Oracle.Types.{OracleNode}
use lab.Base.{ℕ, List, Option, some, ◌∷◌, none, String, []}
use lab.Oracle.Results.{Services, handle_consensus_result}
use lab.Pbft.Engine.{Event, take, time_out, step}
use lab.Pbft.Types.{Bytes, Action, broadcast_message, deliver_result}

pub data NodeEvent : Type 0 where
  prompt : ℕ → World → String → String → NodeEvent
  message : ℕ → Bytes → NodeEvent
  -- The engine's goroutine takes a message; or its view timer runs out.
  engine_takes : ℕ → World → NodeEvent
  engine_times_out : ℕ → World → NodeEvent
  peer : String → String → NodeEvent
  started stopped : Parts → NodeEvent

module _ {F : Type 0} (sv : Services F) where
  -- What the engine does to its node, one action after another.
  unfoldable pub perform : ℕ → World → List Action → OracleNode F → OracleNode F
  perform now world [] n = n
  perform now world (broadcast_message m ∷ out) n =
      perform now world out
        (record n { transport = (manager_broadcast sv.codec world m n.transport).0 })
  perform now world (deliver_result r ∷ out) n =
      perform now world out (handle_consensus_result sv now r n).0

  -- A step of the engine inside its node; `none` is a panic.
  unfoldable pub engine_step : ℕ → World → Event → OracleNode F → Option (OracleNode F)
  unfolding perform
  engine_step now world e n = elim (step sv.lib e n.engine) [
    | none ↦ none
    | some (p, out) ↦ some (perform now world out (record n { engine = p }))
  ]

  unfoldable pub node_step : NodeEvent → OracleNode F → Option (OracleNode F)
  unfolding engine_step
  node_step (prompt now world request_id text) n =
      let done = process_prompt sv now world request_id text n in
      elim done.2 [ accepted ↦ some done.0 | rejected err ↦ some done.0 | crashed ↦ none ]
  node_step (message now payload) n = some (handle_network_message sv now payload n).0
  node_step (engine_takes now world) n = engine_step now world take n
  node_step (engine_times_out now world) n = engine_step now world time_out n
  node_step (peer id address) n = some (register_node_peer id address n)
  node_step (started parts) n = some (start parts n).0
  node_step (stopped parts) n = some (stop parts n).0

  unfoldable pub node_run : List NodeEvent → OracleNode F → Option (OracleNode F)
  node_run [] n = some n
  node_run (e ∷ es) n = elim (node_step e n) [ none ↦ none | some m ↦ node_run es m ]
