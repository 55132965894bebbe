-- ===== src/Oracle/Requests.antt =====
-- Prompts and messages at a node of project/oracle/pkg/node/oracle_node.go: ProcessPrompt,
-- handleMessages, and the operations that start, stop and wire it.
use lab.Base.{
  ℕ, Bool, true, false, not, String, List, [], Option, none, some, lookup, insert, if◌then◌else◌,
  string_eq,
}
use lab.Pbft.Types.{Bytes, Action}
use lab.Pbft.Handlers.{propose_value}
use lab.Pbft.Validate.{process_message, Outcome}
use lab.Network.Transport.{Transport, World, register_peer}
use lab.Oracle.Llm.{LlmResponse, LlmResult, get_response, answered, panicked, LlmRequest}
use lab.Oracle.Types.{
  ConsensusData, RequestState, OracleNode, Status, pending, marshal_failed, RequestError,
  no_response, proposal_failed, consensus,
}
use lab.Oracle.Manager.{answer, send_actions}
use lab.Oracle.Results.{Services}

-- What ProcessPrompt ends with.
pub data PromptOutcome : Type 0 where
  accepted : PromptOutcome
  rejected : RequestError → PromptOutcome
  crashed : PromptOutcome

-- What one round of handleMessages ends with.
pub data MessageOutcome : Type 0 where
  message_not_decoded : MessageOutcome
  data_not_decoded : MessageOutcome
  handed_over : Outcome → MessageOutcome

unfoldable pub new_request : {F : Type 0} → ℕ → String → String → String → RequestState F
new_request now node_id request_id prompt = record {
  request_id = request_id;
  node_id = node_id;
  status = pending;
  prompt = prompt;
  start_time = now;
  llm_response = none;
  responses = [];
  clusters = none;
  consensus_data = none;
  ipfs_cid = "";
  error = none;
}

module _ {F : Type 0} (sv : Services F) where
  unfoldable pub put_request : RequestState F → OracleNode F → OracleNode F
  put_request state n = record n { requests = insert state.request_id state n.requests }

  unfoldable pub fail_request : RequestError → RequestState F → RequestState F
  fail_request err state = record state { status = Status.failed; error = some err }

  -- The state of a request behind the answer of the language model.
  unfoldable pub answer_request : LlmResponse → String → RequestState F → RequestState F
  answer_request resp node_id state = record state {
    llm_response = some resp;
    responses = insert node_id resp state.responses;
  }

  unfoldable pub data_of : ℕ → OracleNode F → RequestState F → ConsensusData
  data_of now n state = record {
    request_id = state.request_id;
    node_id = n.node_id;
    response = state.llm_response;
    timestamp = now;
  }

  -- ProcessPrompt behind the language model: only a leader proposes. What the engine sends goes through
  -- the transport.
  unfoldable pub propose_request :
      ℕ → World → RequestState F → OracleNode F → OracleNode F × List Action × PromptOutcome
  unfolding put_request fail_request data_of
  propose_request now world state n = elim (sv.codec.marshal_data (data_of now n state)) [
    | none ↦ (put_request (fail_request marshal_failed state) n, [], rejected marshal_failed)
    | some value ↦
        let proposed = propose_value sv.lib (answer sv.codec world n.transport) value n.engine in
        let sent = record n {
          engine = proposed.1;
          transport = send_actions sv.codec world proposed.2 n.transport;
        } in
        elim proposed.0 [
          | some err ↦ (
            put_request (fail_request proposal_failed state) sent,
            proposed.2,
            rejected proposal_failed,
          )
          | none ↦ (put_request (record state { status = consensus }) sent, proposed.2, accepted)
        ]
  ]

  unfoldable pub wait_or_propose :
      ℕ → World → RequestState F → OracleNode F → OracleNode F × List Action × PromptOutcome
  unfolding propose_request
  wait_or_propose now world state n =
      if n.engine.is_leader
      then propose_request now world state n
      else (put_request state n, [], accepted)

  -- ProcessPrompt behind the call of the language model.
  unfoldable pub go_on :
      ℕ
      → World
      → LlmResult
      → RequestState F
      → OracleNode F
      → OracleNode F × List Action × PromptOutcome
  unfolding wait_or_propose answer_request
  go_on now world (answered resp) state n =
      wait_or_propose now world (answer_request resp n.node_id state) n
  go_on now world LlmResult.failed state n =
      (put_request (fail_request no_response state) n, [], rejected no_response)
  go_on now world panicked state n = (put_request state n, [], crashed)

  -- ProcessPrompt. The new state of the request replaces one that is there.
  unfoldable pub process_prompt :
      ℕ → World → String → String → OracleNode F → OracleNode F × List Action × PromptOutcome
  unfolding wait_or_propose new_request go_on
  process_prompt now world request_id prompt n =
      let state : RequestState F = new_request now n.node_id request_id prompt in
      let asked : LlmRequest = record {
        prompt = prompt;
        request_id = request_id;
        node_id = n.node_id;
      } in
      elim n.llm_client [
        | none ↦ wait_or_propose now world state n
        | some cfg ↦ go_on now world (get_response sv.service now cfg asked) state n
      ]

  -- The request that a message of another node opens.
  unfoldable pub opened_request : ℕ → String → String → RequestState F
  opened_request now node_id request_id = record {
    request_id = request_id;
    node_id = node_id;
    status = consensus;
    prompt = "";
    start_time = now;
    llm_response = none;
    responses = [];
    clusters = none;
    consensus_data = none;
    ipfs_cid = "";
    error = none;
  }

  unfoldable pub open_request : ℕ → ConsensusData → OracleNode F → OracleNode F
  unfolding put_request opened_request
  open_request now agreed n = elim (lookup agreed.request_id n.requests) [
    | none ↦ put_request (opened_request now n.node_id agreed.request_id) n
    | some state ↦ n
  ]

  -- One round of the loop of handleMessages, on the payload of a message.
  unfoldable pub handle_network_message : ℕ → Bytes → OracleNode F → OracleNode F × MessageOutcome
  unfolding open_request
  handle_network_message now payload n = elim (sv.codec.unmarshal_message payload) [
    | none ↦ (n, message_not_decoded)
    | some msg ↦ elim (sv.codec.unmarshal_data msg.payload) [
      | none ↦ (n, data_not_decoded)
      | some agreed ↦
          let opened = open_request now agreed n in
          let done = process_message (some msg) opened.engine in
          (record opened { engine = done.0 }, handed_over done.1)
    ]
  ]

-- GetRequestState
unfoldable pub get_request_state : {F : Type 0} → String → OracleNode F → Option (RequestState F)
get_request_state request_id n = lookup request_id n.requests

-- RegisterPeer
unfoldable pub register_node_peer : {F : Type 0} → String → String → OracleNode F → OracleNode F
register_node_peer peer_id address n = record n {
  peers = insert peer_id address n.peers;
  transport = register_peer peer_id address n.transport;
}

-- SetTransport
unfoldable pub set_transport : {F : Type 0} → Transport → OracleNode F → OracleNode F
set_transport transport n = record n { transport = transport }

-- What Start and Stop of the parts answer.
pub record Parts : Type 0 where
  pub engine_works : Bool
  pub transport_works : Bool

pub data RunError : Type 0 where
  already_running engine_failed transport_failed : RunError

-- Start: a part that fails leaves the node marked as running.
unfoldable pub start : {F : Type 0} → Parts → OracleNode F → OracleNode F × Option RunError
start parts n =
    if n.is_running
    then (n, some already_running)
    else let running = record n { is_running = true } in
      if not parts.engine_works
      then (running, some engine_failed)
      else if not parts.transport_works
      then (running, some transport_failed)
      else (running, none)

-- Stop
unfoldable pub stop : {F : Type 0} → Parts → OracleNode F → OracleNode F × Option RunError
stop parts n =
    if not n.is_running
    then (n, none)
    else let halted = record n { is_running = false } in
      if not parts.engine_works
      then (halted, some engine_failed)
      else if not parts.transport_works
      then (halted, some transport_failed)
      else (halted, none)
