-- ===== src/Oracle/Upkeep.antt =====
-- ProcessPrompt and the message loop of project/oracle/pkg/node/oracle_node.go keep the invariant of the
-- node.
use lab.Pbft.Handlers.{propose_value}
use lab.Oracle.Manager.{answer, send_actions}
use lab.Oracle.Llm.{LlmResult, answered, panicked}
use lab.Network.Transport.{World, marshal_failed}
use lab.Oracle.Types.{
  RequestState, OracleNode, RequestError, marshal_failed, proposal_failed, ConsensusData,
  no_response,
}
use lab.Oracle.Requests.{
  handle_network_message, put_request, process_prompt, wait_or_propose, propose_request,
  fail_request, open_request, data_of, go_on, new_request, opened_request, answer_request,
}
use lab.Oracle.Results.{Services}
use lab.Base.{inl, inr, ℕ, ◌≡◌, some, arith, Option-cases, String, none, refl, lookup, string_eq}
use lab.Pbft.Types.{Bytes}
use lab.Pbft.Invariant.Run.{process_message-Inv}
use lab.Pbft.Invariant.Handlers.{propose_value-Inv}
use lab.Oracle.Invariant.{
  NodeInv, IsRequest, put-AreRequests, new_request-IsRequest, answer_request-IsRequest,
}

module _ {F : Type 0} (sv : Services F) where
  put_request-NodeInv :
      (state : RequestState F) (n : OracleNode F)
      → NodeInv n
      → IsRequest n.node_id state.request_id state
      → NodeInv (put_request sv state n)
  unfolding put_request
  put_request-NodeInv state n v i = record {
    engine = v.engine;
    requests = put-AreRequests sv n.node_id state.request_id state n.requests v.requests i;
  }

  fail_request-IsRequest :
      (err : RequestError) (node_id id : String) (state : RequestState F)
      → IsRequest node_id id state
      → state.consensus_data ≡ none
      → IsRequest node_id id (fail_request sv err state)
  unfolding fail_request
  fail_request-IsRequest err node_id id state i fresh = record {
    name = i.name;
    owner = i.owner;
    consistent = ((err, refl), fresh);
    own = i.own;
  }

  propose_request-NodeInv :
      (now : ℕ) (world : World) (state : RequestState F) (n : OracleNode F)
      → NodeInv n
      → IsRequest n.node_id state.request_id state
      → state.consensus_data ≡ none
      → state.error ≡ none
      → NodeInv (propose_request sv now world state n).0
  unfolding propose_request fail_request
  propose_request-NodeInv now world state n v i fresh fine =
      elim (Option-cases (sv.codec.marshal_data (data_of sv now n state))) [
        | inl e ↦
            rw (e, propose_request)
              (put_request-NodeInv _ n v
                (fail_request-IsRequest marshal_failed n.node_id _ state i fresh))
        | inr (value, e) ↦
            let net = answer sv.codec world n.transport in
            let proposed = propose_value sv.lib net value n.engine in
            let sent = record n {
              engine = proposed.1;
              transport = send_actions sv.codec world proposed.2 n.transport;
            } in
            let v' : NodeInv sent = record {
              engine = propose_value-Inv sv.lib net value n.engine v.engine;
              requests = v.requests;
            } in
            rw (e, propose_request)
              (elim (Option-cases proposed.0) [
                | inl q ↦ rw q (
                    put_request-NodeInv _ sent v' (record {
                      name = i.name;
                      owner = i.owner;
                      consistent = (fine, fresh);
                      own = i.own;
                    }))
                | inr (err, q) ↦ rw q (
                    put_request-NodeInv _ sent v'
                      (fail_request-IsRequest proposal_failed n.node_id _ state i fresh))
              ])
      ]

  wait_or_propose-NodeInv :
      (now : ℕ) (world : World) (state : RequestState F) (n : OracleNode F)
      → NodeInv n
      → IsRequest n.node_id state.request_id state
      → state.consensus_data ≡ none
      → state.error ≡ none
      → NodeInv (wait_or_propose sv now world state n).0
  unfolding wait_or_propose
  wait_or_propose-NodeInv now world state n v i fresh fine = ground (
    arith,
    propose_request-NodeInv now world state n v i fresh fine,
    put_request-NodeInv state n v i,
  )

  go_on-NodeInv :
      (now : ℕ) (world : World) (a : LlmResult) (id text : String) (n : OracleNode F)
      → NodeInv n
      → NodeInv (go_on sv now world a (new_request now n.node_id id text) n).0
  unfolding go_on new_request
  go_on-NodeInv now world (answered resp) id text n v =
      wait_or_propose-NodeInv now world
        (answer_request sv resp n.node_id (new_request now n.node_id id text)) n v
        (answer_request-IsRequest sv resp now n.node_id id text) refl refl
  go_on-NodeInv now world LlmResult.failed id text n v = put_request-NodeInv _ n v (
      fail_request-IsRequest no_response n.node_id id (new_request now n.node_id id text)
        (new_request-IsRequest sv now n.node_id id text) refl)
  go_on-NodeInv now world panicked id text n v =
      put_request-NodeInv _ n v (new_request-IsRequest sv now n.node_id id text)

  pub process_prompt-NodeInv :
      (now : ℕ) (world : World) (id text : String) (n : OracleNode F)
      → NodeInv n
      → NodeInv (process_prompt sv now world id text n).0
  unfolding process_prompt
  process_prompt-NodeInv now world id text n v = elim (Option-cases n.llm_client) [
    | inl e ↦
        rw (e, process_prompt)
          (wait_or_propose-NodeInv now world (new_request now n.node_id id text) n v
            (new_request-IsRequest sv now n.node_id id text) refl refl)
    | inr (cfg, e) ↦ rw (e, process_prompt) (go_on-NodeInv now world _ id text n v)
  ]

  open_request-NodeInv :
      (now : ℕ) (agreed : ConsensusData) (n : OracleNode F)
      → NodeInv n
      → NodeInv (open_request sv now agreed n)
  unfolding open_request opened_request
  open_request-NodeInv now agreed n v = elim (Option-cases (lookup agreed.request_id n.requests)) [
    | inl e ↦
        rw (e, open_request)
          (put_request-NodeInv _ n v (record {
            name = refl;
            owner = refl;
            consistent = (refl, refl);
            own = λ r h. absurd (cc);
          }))
    | inr (state, e) ↦ rw (e, open_request) v
  ]

  pub handle_network_message-NodeInv :
      (now : ℕ) (payload : Bytes) (n : OracleNode F)
      → NodeInv n
      → NodeInv (handle_network_message sv now payload n).0
  unfolding handle_network_message
  handle_network_message-NodeInv now payload n v =
      elim (Option-cases (sv.codec.unmarshal_message payload)) [
        | inl e ↦ rw (e, handle_network_message) v
        | inr (msg, e) ↦
            rw (e, handle_network_message)
              (elim (Option-cases (sv.codec.unmarshal_data msg.payload)) [
                | inl q ↦ rw q v
                | inr (agreed, q) ↦
                    let opened = open_request-NodeInv now agreed n v in
                    rw q (record {
                      engine = process_message-Inv (some msg) _ opened.engine;
                      requests = opened.requests;
                    })
              ])
      ]
