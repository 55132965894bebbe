-- ===== src/Oracle/Invariant.antt =====
-- The invariant of a node of project/oracle/pkg/node/oracle_node.go: its requests are consistent, and its
-- engine is in the invariant of the engine.
use lab.Oracle.Requests.{answer_request, new_request}
use lab.Pbft.Types.{ConsensusResult}
use lab.Pbft.Invariant.Defs.{Inv}
use lab.Oracle.Llm.{LlmResponse}
use lab.Oracle.Types.{
  OracleNode, RequestState, Status, ConsensusData, RequestError, pending, consensus, failed,
  complete,
}
use lab.Oracle.Results.{
  Services, score_request, take_result, store_request, handle_consensus_result,
}
use lab.Base.{
  ◌≡◌, refl, insert-lookup, String, Map, ℕ, Bool, Option, lookup, arith, some, none, string_eq,
  beq_cases, lookup-insert, inl, inr, Option-cases, insert, lookup-insert_self, [],
}

-- What the status of a request says of its error and of its result.
abbrev pub IsConsistent : String → Status → Option RequestError → Option ConsensusData → Type 0
IsConsistent id pending error agreed = (error ≡ none) × (agreed ≡ none)
IsConsistent id failed error agreed = ((e : RequestError) × (error ≡ some e)) × (agreed ≡ none)
IsConsistent id consensus error agreed = (error ≡ none) × (agreed ≡ none)
IsConsistent id complete error agreed =
    (d : ConsensusData) × (agreed ≡ some d) × (d.request_id ≡ id)

-- A request as the node files it under a name: the node's own answer is among its answers.
pub record IsRequest {F : Type 0} (node_id id : String) (state : RequestState F) : Type 0 where
  pub name : state.request_id ≡ id
  pub owner : state.node_id ≡ node_id
  pub consistent : IsConsistent id state.status state.error state.consensus_data
  pub own :
      (r : LlmResponse) → state.llm_response ≡ some r → lookup node_id state.responses ≡ some r

abbrev pub AreRequests : {F : Type 0} → String → Map String (RequestState F) → Type 0
AreRequests node_id requests =
    (id : String) (state : RequestState _)
    → lookup id requests ≡ some state
    → IsRequest node_id id state

pub record NodeInv {F : Type 0} (n : OracleNode F) : Type 0 where
  pub engine : Inv n.engine
  pub requests : AreRequests n.node_id n.requests

module _ {F : Type 0} (sv : Services F) where
  take_result-IsRequest :
      (node_id id : String) (agreed : ConsensusData) (state : RequestState F)
      → agreed.request_id ≡ id
      → IsRequest node_id id state
      → IsRequest node_id id (take_result sv agreed state)
  unfolding take_result
  take_result-IsRequest node_id id agreed state e i = record {
    name = i.name;
    owner = i.owner;
    consistent = (agreed, refl, e);
    own = λ r h. elim (Option-cases agreed.response) [
      | inl q ↦ rw q (i.own r h)
      | inr (answer, q) ↦ elim (Option-cases (lookup agreed.node_id state.responses)) [
        | inl none_there ↦
            rw (q, none_there)
              (elim (beq_cases agreed.node_id node_id) [
                | inl same ↦ absurd (cc (i.own r h))
                | inr apart ↦
                    rw (lookup-insert agreed.node_id node_id answer state.responses, apart.0)
                      (i.own r h)
              ])
        | inr (old, there) ↦ rw (q, there) (i.own r h)
      ]
    ];
  }

  score_request-IsRequest :
      (node_id id : String) (b : Bool) (state : RequestState F)
      → IsRequest node_id id state
      → IsRequest node_id id (score_request sv b state)
  unfolding score_request
  score_request-IsRequest node_id id b state i = ground arith

  store_request-IsRequest :
      (node_id id : String) (now : ℕ) (b : Bool) (agreed : ConsensusData) (state : RequestState F)
      → IsRequest node_id id state
      → IsRequest node_id id (store_request sv now b agreed state).0
  unfolding store_request
  store_request-IsRequest node_id id now b agreed state i = ground arith

  pub put-AreRequests :
      (node_id id : String) (state : RequestState F) (requests : Map String (RequestState F))
      → AreRequests node_id requests
      → IsRequest node_id id state
      → AreRequests node_id (insert id state requests)
  put-AreRequests node_id id state requests h i =
      insert-lookup (IsRequest node_id) id state requests h i

  pub handle_consensus_result-NodeInv :
      (now : ℕ) (result : ConsensusResult) (n : OracleNode F)
      → NodeInv n
      → NodeInv (handle_consensus_result sv now result n).0
  unfolding handle_consensus_result
  handle_consensus_result-NodeInv now result n v =
      elim (Option-cases (sv.codec.unmarshal_data result.payload)) [
        | inl e ↦ rw (e, handle_consensus_result) v
        | inr (agreed, e) ↦
            rw (e, handle_consensus_result)
              (elim (Option-cases (lookup agreed.request_id n.requests)) [
                | inl q ↦ rw q v
                | inr (state, q) ↦
                    let scored = score_request sv n.has_scorer (take_result sv agreed state) in
                    rw q (record {
                      engine = v.engine;
                      requests =
                          put-AreRequests n.node_id agreed.request_id _ n.requests v.requests (
                            store_request-IsRequest n.node_id agreed.request_id now n.has_storage
                              agreed scored
                              (score_request-IsRequest n.node_id agreed.request_id n.has_scorer
                                (take_result sv agreed state)
                                (take_result-IsRequest n.node_id agreed.request_id agreed state refl
                                  (v.requests _ state q))));
                    })
              ])
      ]

  pub new_request-IsRequest :
      (now : ℕ) (node_id id text : String)
      → IsRequest node_id id (new_request {F = F} now node_id id text)
  unfolding new_request
  new_request-IsRequest now node_id id text = record {
    name = refl;
    owner = refl;
    consistent = (refl, refl);
    own = λ r h. absurd (cc);
  }

  pub answer_request-IsRequest :
      (resp : LlmResponse) (now : ℕ) (node_id id text : String)
      → IsRequest node_id id (answer_request sv resp node_id (new_request now node_id id text))
  unfolding answer_request new_request
  answer_request-IsRequest resp now node_id id text = record {
    name = refl;
    owner = refl;
    consistent = (refl, refl);
    own = λ r h. rw (lookup-insert_self node_id resp []) h;
  }
