-- ===== src/Launch/GroupTests.antt =====
-- The group of project/oracle/cmd/server/main.go, and a schedule in which its leader decides.
use lab.Base.{
  ℕ, String, List, [], ◌∷◌, Bool, true, false, Option, none, some, ◌≡◌, refl, All, map, lookup,
  insert, inl,
}
use lab.Pbft.Types.{Library, Bytes, Pbft, new_pbft, normal, unset}
use lab.Pbft.System.Network.{World, WorldReach}
use lab.Pbft.System.Ledger.{Decision}
use lab.Pbft.System.Agreement.{IsDecided}
use lab.Pbft.System.Schedule.{Move, proposes, gets, takes, drive, drive-WorldReach}
use lab.Oracle.Llm.{LlmConfig}
use lab.Oracle.Types.{OracleNode, new_oracle_node}
use lab.Oracle.Requests.{Parts}
use lab.Launch.Group.{node_ids, start_group}
use lab.Launch.Ready.{IsReady, start_group-IsReady, Hosts, IsEngine, node_at, start_group-agreement}

abbrev lib : Library
lib = record {
  sha256 = λ d. [];
  marshal_view_change = λ d. none;
  unmarshal_view_change = λ b. none;
  marshal_checkpoint = λ seq state. [];
}

abbrev config : LlmConfig
config = record { model = "m"; max_tokens = 100 }

abbrev address_of : ℕ → String
address_of n = "localhost"

works : String → Parts
works id = record { engine_works = true; transport_works = true }

group : (ns : List (OracleNode ℕ)) × (start_group address_of config works ≡ some ns)
unfolding start_group works new_oracle_node new_pbft
group = (_, refl)

start_group-IsReady_example :
    All (IsReady address_of) group.0 × (map (λ n. n.node_id) group.0 ≡ node_ids)
start_group-IsReady_example = start_group-IsReady address_of config works group.0 group.1

-- The engines of the group, and idle ones for all other names.
engine_at : Option (OracleNode ℕ) → Pbft
engine_at none = record {
  node_id = "";
  nodes = [];
  has_network = false;
  timeout = 0;
  view_change_timeout = 0;
  checkpoint_interval = 100;
  view = 0;
  sequence = 0;
  state = normal;
  is_leader = false;
  last_checkpoint = [];
  last_checkpoint_seq = 0;
  prepare_messages = [];
  commit_messages = [];
  view_change_msgs = [];
  checkpoints = [];
  consensus_reached = [];
  msg_chan = [];
  has_callback = false;
  f = 0;
  view_timer = unset;
}
engine_at (some n) = n.engine

abbrev world : World
world = record { engines = λ id. engine_at (node_at id group.0); pool = []; results = [] }

world-Hosts : Hosts group.0 world
unfolding engine_at
world-Hosts = record { engines = λ id. is (node_at id group.0); pool = refl; results = refl }
  where
    is : (o : Option (OracleNode ℕ)) → IsEngine o (engine_at o)
    is none = (refl, refl, refl)
    is (some n) = refl

-- Moves of some nodes, one after another.
abbrev each : (String → Move) → List String → List Move → List Move
each f [] rest = rest
each f (id ∷ ids) rest = f id ∷ each f ids rest

abbrev peers : List String
peers = "peer1" ∷ "peer2" ∷ "peer3" ∷ "peer4" ∷ "peer5" ∷ "peer6" ∷ []

abbrev voters : List String
voters = "leader" ∷ "peer1" ∷ "peer2" ∷ "peer3" ∷ []

-- The leader proposes; all peers vote for it; five nodes get enough votes and commit; and the leader gets
-- the other commit votes.
schedule : List Move
schedule =
    proposes "leader" (7 ∷ [])
    ∷ each (λ id. gets id 0) peers
        (each takes peers (
          each (λ id. gets id 0) voters
            (each (λ id. gets id 1) voters
              (each (λ id. gets id 2) voters
                (gets "peer4" 0
                  ∷ gets "peer4" 1
                  ∷ gets "peer4" 3
                  ∷ each takes voters (
                      each takes voters (
                        each takes voters (
                          each takes ("peer4" ∷ "peer4" ∷ "peer4" ∷ []) (
                            gets "leader" 0
                            ∷ gets "leader" 1
                            ∷ gets "leader" 2
                            ∷ gets "leader" 3
                            ∷ each takes ("leader" ∷ "leader" ∷ "leader" ∷ "leader" ∷ [])
                                [])))))))))

abbrev decision : Decision
decision = record { node_id = "leader"; sequence = 0; payload = 7 ∷ [] }

decided : (v : World) × (drive lib schedule world ≡ some v) × IsDecided decision v.results
unfolding schedule engine_at group drive lab.Pbft.Engine.set_result_callback
    lab.Pbft.Engine.set_network_manager lab.Pbft.Validate.process_message
    lab.Pbft.Handlers.propose_value lab.Pbft.Validate.validate lab.Pbft.Validate.accept
    lab.Pbft.Handlers.handle_message lab.Pbft.Handlers.handle_pre_prepare lab.Pbft.Types.bytes_equal
    lab.Pbft.Handlers.handle_prepare lab.Pbft.Types.entries lookup lab.Pbft.Maintenance.store insert
    lab.Pbft.Handlers.commit_own lab.Pbft.Handlers.handle_commit lab.Pbft.Handlers.is_reached
    lab.Base.delete_where lab.Pbft.Handlers.broadcast lab.Pbft.Maintenance.cleanup
    lab.Pbft.Maintenance.execute_consensus lab.Pbft.Maintenance.make_checkpoint
    lab.Pbft.System.Network.put_action lab.Pbft.Validate.advance lab.Pbft.Validate.validate_type
    new_pbft new_oracle_node start_group works lab.Pbft.Handlers.dispatch
decided = (_, refl, inl refl)

start_group-agreement_example : ◌≡◌ {A = Bytes} (7 ∷ []) (7 ∷ [])
start_group-agreement_example =
    start_group-agreement address_of config works group.0 lib world decided.0 decision decision
      group.1 world-Hosts (drive-WorldReach lib schedule world decided.0 decided.1) decided.2
      decided.2 refl
