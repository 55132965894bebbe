-- ===== src/Oracle/Callbacks.antt =====
-- What the result callback of project/oracle/pkg/node/oracle_node.go does to the requests and the storage.
use lab.Pbft.Types.{ConsensusResult}
use lab.Oracle.Llm.{LlmResponse}
use lab.Base.{
  ℕ, Bool, ◌≡◌, Option, some, size, String, lookup, ◌==◌, string_eq, false, none, insert, ◌⊎◌, true,
}
use lab.Oracle.Types.{ConsensusData, RequestState, complete, ExecutionRecord, OracleNode}
use lab.Oracle.Results.{Services, handle_consensus_result, oracle_responses_of, final_response}

-- A request behind a result: it is complete, with the result in it, and keeps what it had.
pub record IsCompletion {F : Type 0} (agreed : ConsensusData) (old state : RequestState F)
    : Type 0 where
  pub ended : state.status ≡ complete
  pub result : state.consensus_data ≡ some agreed
  pub name : state.request_id ≡ old.request_id
  pub own : state.llm_response ≡ old.llm_response
  pub kept :
      (id : String) (r : LlmResponse)
      → lookup id old.responses ≡ some r
      → lookup id state.responses ≡ some r
  pub taken :
      (r : LlmResponse)
      → agreed.response ≡ some r
      → (s : LlmResponse) × (lookup agreed.node_id state.responses ≡ some s)

-- What is stored of a completed request: a record of all its answers, unless the node has no storage or the
-- final text is empty.
abbrev pub IsStored :
    {F : Type 0} → Bool → ConsensusData → RequestState F → Option ExecutionRecord → Type 0
IsStored has_storage agreed state none =
    (has_storage ≡ false)
    ⊎ ((final_response state.llm_response agreed.response state.responses == "") ≡ true)
IsStored has_storage agreed state (some kept) =
    (has_storage ≡ true)
    × (kept.request_id ≡ state.request_id)
    × (kept.participant_count ≡ size state.responses)
    × (kept.oracle_responses ≡ oracle_responses_of state.responses)
    × (kept.final_response ≡ final_response state.llm_response agreed.response state.responses)
    × ((kept.final_response == "") ≡ false)

-- A result that decodes and names a request completes that request, and stores it.
abbrev pub Completes : {F : Type 0} → Services F → ℕ → ConsensusResult → OracleNode F → Type 0
Completes {F = F} sv now result n =
    (agreed : ConsensusData) × (old : RequestState F) × (state : RequestState F)
    × (sv.codec.unmarshal_data result.payload ≡ some agreed)
    × (lookup agreed.request_id n.requests ≡ some old)
    × ((handle_consensus_result sv now result n).0
        ≡ record n { requests = insert agreed.request_id state n.requests })
    × IsCompletion agreed old state
    × IsStored n.has_storage agreed state (handle_consensus_result sv now result n).1

-- A result that does not decode, or names no request of the node.
abbrev pub IsUnnamed : {F : Type 0} → Services F → ConsensusResult → OracleNode F → Type 0
IsUnnamed sv result n =
    (sv.codec.unmarshal_data result.payload ≡ none)
    ⊎ ((agreed : ConsensusData) × (sv.codec.unmarshal_data result.payload ≡ some agreed)
        × (lookup agreed.request_id n.requests ≡ none))
