-- ===== src/Oracle/Prompts.antt =====
-- What ProcessPrompt of project/oracle/pkg/node/oracle_node.go does on each of its paths.
use lab.Oracle.Llm.{answered, panicked, LlmResult}
use lab.Oracle.Manager.{answer}
use lab.Oracle.Results.{Services}
use lab.Pbft.Handlers.{propose_value, broadcast}
use lab.Network.Transport.{World}
use lab.Base.{
  inl, inr, Bool-cases, none, String, List, ◌≡◌, [], Option, some, ◌⊎◌, false, lookup-insert_self,
  true, ◌∷◌, ℕ, add64, string_eq, Option-cases, subst, arith, refl, ap, if◌then◌else◌, Bool, sym,
}
use lab.Oracle.Requests.{
  accepted, rejected, crashed, get_request_state, put_request, propose_request, PromptOutcome,
  fail_request, data_of, wait_or_propose, process_prompt, go_on, new_request, answer_request,
}
use lab.Oracle.Types.{
  failed, pending, consensus, ConsensusData, RequestState, OracleNode, marshal_failed,
  proposal_failed, no_response,
}
use lab.Pbft.Types.{broadcast_message, Bytes, Action, Pbft, Error, ConsensusMessage}
use lab.Pbft.System.Flow.{proposal}

-- The request under a name, and what holds of it.
abbrev pub HasRequest : {F : Type 0} → String → OracleNode F → (RequestState F → Type 0) → Type 0
HasRequest id n P = (state : RequestState _) × (get_request_state id n ≡ some state) × P state

-- Of the actions of a proposal: nothing, or the proposal of a value in the engine's view and number.
abbrev pub SendsOnly : {F : Type 0} → Services F → Bytes → OracleNode F → List Action → Type 0
SendsOnly sv value n out =
    (out ≡ []) ⊎ (out ≡ broadcast_message (proposal sv.lib value n.engine) ∷ [])

-- The proposal of the answer that a request has got.
abbrev pub IsProposal :
    {F : Type 0} → Services F → String → OracleNode F → RequestState F → Bytes → Type 0
IsProposal sv id n state value =
    (d : ConsensusData) × (sv.codec.marshal_data d ≡ some value)
    × (d.request_id ≡ id)
    × (d.node_id ≡ n.node_id)
    × (d.response ≡ state.llm_response)

abbrev pub Tells :
    {F : Type 0}
    → Services F
    → String
    → OracleNode F
    → OracleNode F
    → List Action
    → PromptOutcome
    → Type 0
Tells sv id n m out accepted = HasRequest id m (λ state.
    ((n.engine.is_leader ≡ false)
      × (state.status ≡ pending)
      × (m.engine ≡ n.engine)
      × (m.transport ≡ n.transport)
      × (out ≡ []))
    ⊎ ((n.engine.is_leader ≡ true)
        × (state.status ≡ consensus)
        × (m.engine.sequence ≡ add64 n.engine.sequence 1)
        × ((value : Bytes) × IsProposal sv id n state value
            × (out ≡ broadcast_message (proposal sv.lib value n.engine) ∷ []))))
Tells sv id n m out (rejected err) = HasRequest id m (λ state.
    (state.status ≡ failed)
    × (state.error ≡ some err)
    × (m.engine.sequence ≡ n.engine.sequence)
    × (m.engine.view ≡ n.engine.view)
    × ((value : Bytes) × SendsOnly sv value n out))
Tells sv id n m out crashed = HasRequest id m (λ state. (state.status ≡ pending) × (out ≡ []))

module _ {F : Type 0} (sv : Services F) (id : String) where
  put_request_lem :
      (state : RequestState F) (n : OracleNode F)
      → get_request_state state.request_id (put_request sv state n) ≡ some state
  unfolding put_request get_request_state
  put_request_lem state n = lookup-insert_self state.request_id state n.requests

  -- A leader's ProposeValue, whatever the network answers.
  propose_value-ends :
      (net : ConsensusMessage → Option Error) (value : Bytes) (p : Pbft)
      → p.is_leader ≡ true
      → (((propose_value sv.lib net value p).0 ≡ none)
          × ((propose_value sv.lib net value p).1.sequence ≡ add64 p.sequence 1)
          × ((propose_value sv.lib net value p).2
              ≡ broadcast_message (proposal sv.lib value p) ∷ []))
        ⊎ ((err : Error) × ((propose_value sv.lib net value p).0 ≡ some err)
            × ((propose_value sv.lib net value p).1.sequence ≡ p.sequence)
            × ((propose_value sv.lib net value p).1.view ≡ p.view)
            × (((propose_value sv.lib net value p).2 ≡ [])
                ⊎ ((propose_value sv.lib net value p).2
                    ≡ broadcast_message (proposal sv.lib value p) ∷ [])))
  unfolding propose_value broadcast
  propose_value-ends net value p leads = elim (Bool-cases p.has_network) [
    | inl n ↦ elim (Option-cases (net (proposal sv.lib value p))) [
      | inl e ↦ ground arith
      | inr (err, e) ↦ ground arith
    ]
    | inr n ↦ ground arith
  ]

  propose_request-Tells :
      (now : ℕ) (world : World) (state : RequestState F) (n : OracleNode F)
      → state.request_id ≡ id
      → n.engine.is_leader ≡ true
      → Tells sv id n
          (propose_request sv now world state n).0
          (propose_request sv now world state n).1
          (propose_request sv now world state n).2
  unfolding propose_request fail_request data_of
  propose_request-Tells now world state n named leads =
      subst
        (λ k.
          Tells sv k n (propose_request sv now world state n).0
            (propose_request sv now world state n).1 (propose_request sv now world state n).2)
        named
        (elim (Option-cases (sv.codec.marshal_data (data_of sv now n state))) [
          | inl e ↦
              rw (e, propose_request)
                (
                  fail_request sv marshal_failed state,
                  put_request_lem _ n,
                  (refl, refl, refl, refl, ([], inl refl)),
                )
          | inr (value, e) ↦
              let net = answer sv.codec world n.transport in
              elim (propose_value-ends net value n.engine leads) [
                | inl (works, grows, out) ↦
                    rw (e, propose_request, works)
                      (
                        record state { status = consensus },
                        put_request_lem _ _,
                        inr (
                          leads,
                          refl,
                          grows,
                          (value, (data_of sv now n state, e, refl, refl, refl), out),
                        ),
                      )
                | inr (err, fails, same, alike, out) ↦
                    rw (e, propose_request, fails)
                      (
                        fail_request sv proposal_failed state,
                        put_request_lem _ _,
                        (refl, refl, same, alike, (value, out)),
                      )
              ]
        ])

  wait_or_propose-Tells :
      (now : ℕ) (world : World) (state : RequestState F) (n : OracleNode F)
      → state.request_id ≡ id
      → state.status ≡ pending
      → Tells sv id n
          (wait_or_propose sv now world state n).0
          (wait_or_propose sv now world state n).1
          (wait_or_propose sv now world state n).2
  unfolding wait_or_propose
  wait_or_propose-Tells now world state n named waits =
      let by : Bool → OracleNode F × List Action × PromptOutcome = λ b.
        if b
        then propose_request sv now world state n
        else (put_request sv state n, [], accepted) in
      elim (Bool-cases n.engine.is_leader) [
        | inl leads ↦
            subst (λ r. Tells sv id n r.0 r.1 r.2) (ap by (sym leads))
              (propose_request-Tells now world state n named leads)
        | inr follows ↦
            subst (λ r. Tells sv id n r.0 r.1 r.2) (ap by (sym follows))
              (
                state,
                subst (λ k. get_request_state k (put_request sv state n) ≡ some state) named
                    (put_request_lem state n),
                inl (follows, waits, refl, refl, refl),
              )
      ]

  go_on-Tells :
      (now : ℕ) (world : World) (a : LlmResult) (state : RequestState F) (n : OracleNode F)
      → state.request_id ≡ id
      → state.status ≡ pending
      → Tells sv id n
          (go_on sv now world a state n).0
          (go_on sv now world a state n).1
          (go_on sv now world a state n).2
  unfolding go_on answer_request fail_request
  go_on-Tells now world (answered resp) state n named waits =
      wait_or_propose-Tells now world (answer_request sv resp n.node_id state) n named waits
  go_on-Tells now world LlmResult.failed state n named waits = (
    fail_request sv no_response state,
    subst
        (λ k.
          get_request_state k (put_request sv (fail_request sv no_response state) n)
          ≡ some (fail_request sv no_response state))
        named (put_request_lem _ n),
    (refl, refl, refl, refl, ([], inl refl)),
  )
  go_on-Tells now world panicked state n named waits = (
    state,
    subst (λ k. get_request_state k (put_request sv state n) ≡ some state) named
        (put_request_lem state n),
    (waits, refl),
  )

  -- ProcessPrompt answers an error exactly when it leaves the request failed, with that error in it, and
  -- then the engine keeps its number and its view. Without one, a node that does not lead leaves the request pending
  -- and neither its engine nor its transport changes; and a leader leaves it to the consensus, sends
  -- one pre-prepare with the answer that the request has got, and takes the next number. A panic of the
  -- language model's client leaves the request pending.
  pub process_prompt-Tells :
      (now : ℕ) (world : World) (text : String) (n : OracleNode F)
      → Tells sv id n
          (process_prompt sv now world id text n).0
          (process_prompt sv now world id text n).1
          (process_prompt sv now world id text n).2
  unfolding process_prompt new_request
  process_prompt-Tells now world text n = elim (Option-cases n.llm_client) [
    | inl e ↦
        rw (e, process_prompt)
          (wait_or_propose-Tells now world (new_request now n.node_id id text) n refl refl)
    | inr (cfg, e) ↦
        rw (e, process_prompt)
          (go_on-Tells now world _ (new_request now n.node_id id text) n refl refl)
  ]
