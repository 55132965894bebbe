-- ===== src/Launch/RunNode.antt =====
-- A node as main of project/scripts/run_node.go wires it, and its steps.
use lab.Base.{
  ℕ, ◌+◌, String, List, [], ◌∷◌, Option, none, some, get_elem?, nat_beq, if◌then◌else◌, true, ◌*◌,
}
use lab.Pbft.Types.{Action, broadcast_message, deliver_result}
use lab.Pbft.Engine.{Event, step, take, time_out}
use lab.Network.Transport.{Transport, World}
use lab.Oracle.Types.{OracleNode, new_oracle_node}
use lab.Oracle.Llm.{LlmConfig}
use lab.Oracle.Results.{Services}
use lab.Oracle.Manager.{manager_broadcast}
use lab.Oracle.Requests.{
  PromptOutcome, accepted, rejected, crashed, process_prompt, handle_network_message,
  register_node_peer, set_transport, start, stop,
}
use lab.Oracle.Machine.{
  NodeEvent, prompt, message, engine_takes, engine_times_out, peer, started, stopped,
}

-- A node whose network manager keeps a transport of its own.
pub record Launched (F : Type 0) : Type 0 where
  pub node : OracleNode F
  pub manager_transport : Transport

abbrev pub node_names : List String
node_names = "node0" ∷ "node1" ∷ "node2" ∷ "node3" ∷ []

-- time.Second, in nanoseconds
abbrev second : ℕ
second = 1000000000

-- The loop that lists the peers, from an index on.
unfoldable pub peers_from : ℕ → ℕ → List String → List String
peers_from i node_id [] = []
peers_from i node_id (name ∷ names) =
    let rest = peers_from (i + 1) node_id names in if nat_beq i node_id then rest else name ∷ rest

-- The same loop, for the names with their addresses; the addresses are those of the ports.
unfoldable pub addresses_from : (ℕ → String) → ℕ → ℕ → ℕ → List String → List (String × String)
addresses_from address_of port i node_id [] = []
addresses_from address_of port i node_id (name ∷ names) =
    let rest = addresses_from address_of port (i + 1) node_id names in
    if nat_beq i node_id then rest else (name, address_of (port + i)) ∷ rest

abbrev pub new_transport : String → Transport
new_transport node_id = record { node_id = node_id; peers = []; connections = [] }

-- The loop that registers the peers, in one of its orders.
unfoldable pub register_all : {F : Type 0} → List (String × String) → OracleNode F → OracleNode F
unfolding register_node_peer
register_all [] n = n
register_all ((id, address) ∷ peers) n = register_all peers (register_node_peer id address n)

-- main from the creation of the node to the HTTP server, with its clients made. The node gets its
-- transport when the network manager has another; the result callback is replaced by one that only logs.
-- `none` stands for an identity that is not accepted.
unfoldable pub launch : {F : Type 0} → (ℕ → String) → ℕ → ℕ → Option LlmConfig → Option (Launched F)
unfolding new_oracle_node peers_from addresses_from register_all set_transport
launch {F = F} address_of port node_id client = elim (get_elem? node_names node_id) [
  | none ↦ none
  | some name ↦
      elim (new_oracle_node {F = F} name (address_of (port + node_id)) client true true
        (peers_from 0 node_id node_names) (5 * second)) [
          | none ↦ none
          | some n ↦ some (record {
            node =
                register_all (addresses_from address_of port 0 node_id node_names)
                  (set_transport (new_transport name) n);
            manager_transport = n.transport;
          })
        ]
]

module _ {F : Type 0} (sv : Services F) where
  -- ProcessPrompt: what it sends goes through the transport of the network manager.
  unfoldable pub launched_prompt :
      ℕ → World → String → String → Launched F → Launched F × PromptOutcome
  unfolding process_prompt
  launched_prompt now world request_id text l =
      let done =
        process_prompt sv now world request_id text
          (record l.node { transport = l.manager_transport }) in
      (
        record {
          node = record done.0 { transport = l.node.transport };
          manager_transport = done.0.transport;
        },
        done.2,
      )

  -- What the engine does to its node: a result is only logged.
  unfoldable pub launched_perform : World → List Action → Launched F → Launched F
  unfolding manager_broadcast
  launched_perform world [] l = l
  launched_perform world (broadcast_message m ∷ out) l =
      launched_perform world out (record l {
        manager_transport = (manager_broadcast sv.codec world m l.manager_transport).0;
      })
  launched_perform world (deliver_result r ∷ out) l = launched_perform world out l

  unfoldable pub launched_engine : World → Event → Launched F → Option (Launched F)
  unfolding launched_perform step
  launched_engine world e l = elim (step sv.lib e l.node.engine) [
    | none ↦ none
    | some (p, out) ↦
        some (launched_perform world out (record l { node = record l.node { engine = p } }))
  ]

  unfoldable pub launched_step : NodeEvent → Launched F → Option (Launched F)
  unfolding launched_engine launched_prompt handle_network_message register_node_peer start stop
  launched_step (prompt now world request_id text) l =
      let done = launched_prompt now world request_id text l in
      elim done.1 [ accepted ↦ some done.0 | rejected err ↦ some done.0 | crashed ↦ none ]
  launched_step (message now payload) l =
      some (record l { node = (handle_network_message sv now payload l.node).0 })
  launched_step (engine_takes now world) l = launched_engine world take l
  launched_step (engine_times_out now world) l = launched_engine world time_out l
  launched_step (peer id address) l =
      some (record l { node = register_node_peer id address l.node })
  launched_step (started parts) l = some (record l { node = (start parts l.node).0 })
  launched_step (stopped parts) l = some (record l { node = (stop parts l.node).0 })

  unfoldable pub launched_run : List NodeEvent → Launched F → Option (Launched F)
  launched_run [] l = some l
  launched_run (e ∷ es) l = elim (launched_step e l) [ none ↦ none | some m ↦ launched_run es m ]
