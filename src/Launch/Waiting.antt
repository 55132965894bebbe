-- ===== src/Launch/Waiting.antt =====
-- Prompts and messages at a node of project/oracle/pkg/node/oracle_node.go that does not lead complete no
-- request.
use lab.Oracle.Requests.{
  put_request, wait_or_propose, go_on, answer_request, fail_request, process_prompt, new_request,
  open_request, opened_request, accepted,
}
use lab.Base.{
  ℕ, String, [], some, ◌≡◌, string_eq, refl, Option-cases, inl, inr, lookup, ◌≢◌, insert-lookup,
}
use lab.Pbft.Outsiders.{IsOutsider}
use lab.Network.Transport.{World}
use lab.Oracle.Types.{OracleNode, RequestState, complete, no_response, ConsensusData}
use lab.Oracle.Results.{Services}
use lab.Oracle.Llm.{LlmResult, answered, panicked, get_response}

-- No request is complete.
abbrev pub AreOpen : {F : Type 0} → OracleNode F → Type 0
AreOpen {F = F} n =
    (id : String) (state : RequestState F)
    → lookup id n.requests ≡ some state
    → state.status ≢ complete

module _ {F : Type 0} (sv : Services F) where
  put_open :
      (state : RequestState F) (n : OracleNode F)
      → state.status ≢ complete
      → AreOpen n
      → AreOpen (put_request sv state n)
  unfolding put_request
  put_open state n h v =
      insert-lookup (λ id s. s.status ≢ complete) state.request_id state n.requests v h

  -- A prompt at a node that does not lead only opens its request.
  wait_IsSilent :
      (now : ℕ) (world : World) (state : RequestState F) (n : OracleNode F)
      → IsOutsider n.engine
      → wait_or_propose sv now world state n ≡ (put_request sv state n, [], accepted)
  unfolding wait_or_propose
  wait_IsSilent now world state n v = rw (v.follows, wait_or_propose) refl

  go_on-IsSilent :
      (now : ℕ) (world : World) (r : LlmResult) (state : RequestState F) (n : OracleNode F)
      → IsOutsider n.engine
      → AreOpen n
      → state.status ≢ complete
      → ((go_on sv now world r state n).0.engine ≡ n.engine)
        × ((go_on sv now world r state n).0.transport ≡ n.transport)
        × AreOpen (go_on sv now world r state n).0
  unfolding go_on answer_request fail_request put_request
  go_on-IsSilent now world (answered resp) state n v r h =
      let asked = answer_request sv resp n.node_id state in
      rw (wait_IsSilent now world asked n v, go_on) (refl, refl, put_open asked n h r)
  go_on-IsSilent now world LlmResult.failed state n v r h =
      (refl, refl, put_open (fail_request sv no_response state) n (λ e. cc) r)
  go_on-IsSilent now world panicked state n v r h = (refl, refl, put_open state n h r)

  pub process_prompt-IsSilent :
      (now : ℕ) (world : World) (id text : String) (n : OracleNode F)
      → IsOutsider n.engine
      → AreOpen n
      → ((process_prompt sv now world id text n).0.engine ≡ n.engine)
        × ((process_prompt sv now world id text n).0.transport ≡ n.transport)
        × AreOpen (process_prompt sv now world id text n).0
  unfolding process_prompt new_request put_request
  process_prompt-IsSilent now world id text n v r =
      let state : RequestState F = new_request now n.node_id id text in
      elim (Option-cases n.llm_client) [
        | inl q ↦
            rw (q, process_prompt)
              (rw (wait_IsSilent now world state n v) (refl, refl, put_open state n (λ e. cc) r))
        | inr (cfg, q) ↦
            rw (q, process_prompt)
              (go_on-IsSilent now world
                (get_response sv.service now cfg
                  (record { prompt = text; request_id = id; node_id = n.node_id }))
                state n v r (λ e. cc))
      ]

  pub open_request-IsSilent :
      (now : ℕ) (agreed : ConsensusData) (n : OracleNode F)
      → AreOpen n
      → AreOpen (open_request sv now agreed n) × ((open_request sv now agreed n).engine ≡ n.engine)
  unfolding open_request opened_request put_request
  open_request-IsSilent now agreed n v = elim (Option-cases (lookup agreed.request_id n.requests)) [
    | inl q ↦
        rw (q, open_request)
          (put_open (opened_request sv now n.node_id agreed.request_id) n (λ e. cc) v, refl)
    | inr (state, q) ↦ rw (q, open_request) (v, refl)
  ]
