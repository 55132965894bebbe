-- ===== src/Oracle/Results.antt =====
-- The result callback of project/oracle/pkg/node/oracle_node.go, handleConsensusResult.
use lab.Base.{
  ℕ, Bool, String, List, [], ◌∷◌, Option, none, some, Map, lookup, insert, size, ltb, if◌then◌else◌,
  ◌==◌, ◌&&◌, not, string_eq,
}
use lab.Pbft.Types.{ConsensusResult, Library}
use lab.Similarity.Floats.{Float32}
use lab.Similarity.Scorer.{Response, Cluster, cluster_responses, clustered, not_clustered}
use lab.Oracle.Llm.{LlmResponse, ChatRequest, ChatResponse}
use lab.Oracle.Types.{
  ConsensusData, RequestState, OracleNode, OracleResponse, ExecutionRecord, Codec, complete,
}

-- What a node reaches outside: the language model, the embeddings, the storage, the network, and code
-- that is not the repository's. The threshold stands for the constant 0.85.
pub record Services (F : Type 0) : Type 0 where
  pub lib : Library
  pub codec : Codec
  pub floats : Float32 F
  pub threshold : F
  pub service : ChatRequest → Option ChatResponse
  pub embed : String → Option (List F)
  pub sort : List (Cluster F) → List (Cluster F)
  pub store_record : ExecutionRecord → Option String

-- The answers handed to the scorer.
unfoldable pub answers_of : Map String LlmResponse → List Response
answers_of [] = []
answers_of ((id, r) ∷ responses) =
    record { text = r.text; node_id = r.node_id } ∷ answers_of responses

unfoldable pub oracle_responses_of : Map String LlmResponse → List OracleResponse
oracle_responses_of [] = []
oracle_responses_of ((id, r) ∷ responses) =
    record { node_id = id; llm_response = r.text; timestamp = r.timestamp }
    ∷ oracle_responses_of responses

-- The text that is stored as the final response: the node's own, else the agreed one, else the first.
unfoldable pub final_response :
    Option LlmResponse → Option LlmResponse → Map String LlmResponse → String
final_response (some own) agreed responses = own.text
final_response none (some r) responses = r.text
final_response none none [] = ""
final_response none none ((id, r) ∷ responses) = r.text

module _ {F : Type 0} (sv : Services F) where
  -- The request with the result in it.
  unfoldable pub take_result : ConsensusData → RequestState F → RequestState F
  take_result agreed state = record state {
    status = complete;
    consensus_data = some agreed;
    responses = elim agreed.response [
      | none ↦ state.responses
      | some r ↦ elim (lookup agreed.node_id state.responses) [
        | none ↦ insert agreed.node_id r state.responses
        | some old ↦ state.responses
      ]
    ];
  }

  -- The semantic clustering; an error leaves the clusters as they were.
  unfoldable pub score_request : Bool → RequestState F → RequestState F
  unfolding answers_of
  score_request has_scorer state =
      if has_scorer && ltb 0 (size state.responses)
      then (elim (cluster_responses sv.floats sv.embed sv.sort (answers_of state.responses)
          sv.threshold) [
            | clustered cs ↦ record state { clusters = some cs }
            | not_clustered err ↦ state
          ])
      else state

  unfoldable pub record_of : ℕ → String → RequestState F → ExecutionRecord
  unfolding oracle_responses_of
  record_of now text state = record {
    request_id = state.request_id;
    request_input = state.prompt;
    timestamp = now;
    final_response = text;
    oracle_responses = oracle_responses_of state.responses;
    participant_count = size state.responses;
  }

  -- The storage of the result, and the record that it is asked to keep.
  unfoldable pub store_request :
      ℕ → Bool → ConsensusData → RequestState F → RequestState F × Option ExecutionRecord
  unfolding record_of final_response
  store_request now has_storage agreed state =
      let text = final_response state.llm_response agreed.response state.responses in
      let kept = record_of now text state in
      if not has_storage
      then (state, none)
      else if text == ""
      then (state, none)
      else (elim (sv.store_record kept) [
        | none ↦ (state, some kept)
        | some cid ↦ (record state { ipfs_cid = cid }, some kept)
      ])

  -- handleConsensusResult, with the record that it stores.
  unfoldable pub handle_consensus_result :
      ℕ → ConsensusResult → OracleNode F → OracleNode F × Option ExecutionRecord
  unfolding take_result score_request store_request
  handle_consensus_result now result n = elim (sv.codec.unmarshal_data result.payload) [
    | none ↦ (n, none)
    | some agreed ↦ elim (lookup agreed.request_id n.requests) [
      | none ↦ (n, none)
      | some state ↦
          let scored = score_request n.has_scorer (take_result agreed state) in
          let stored = store_request now n.has_storage agreed scored in
          (record n { requests = insert agreed.request_id stored.0 n.requests }, stored.1)
    ]
  ]
