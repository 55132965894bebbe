-- ===== src/Storage/Results.antt =====
-- Results of the node that project/oracle/pkg/storage/pinata.go keeps.
use mathlib.Core.Option.{some-injective}
use lab.Base.{
  ℕ, String, Bool, ◌≡◌, Option, none, some, ◌⊎◌, inl, inr, lookup, string_eq, Option-cases,
  Bool-cases, refl, ◌==◌, lookup-insert_self, sym,
}
use lab.Base.Results.{ok, err, Result-cases}
use lab.Pbft.Types.{Bytes, ConsensusResult}
use lab.Oracle.Types.{OracleNode, RequestState, ConsensusData, ExecutionRecord}
use lab.Oracle.Results.{
  Services, handle_consensus_result, store_request, record_of, score_request, take_result,
  final_response,
}
use lab.Storage.Pinata.{
  PinataClient, Gateway, StorageError, store_execution_record, get_execution_record,
}
use lab.Storage.Retrieval.{IsPinning, store-get}

-- The storage of a node: the client of the service.
unfoldable pub store_with :
    {Form : Type 0} → Gateway Form → PinataClient → ExecutionRecord → Option String
unfolding store_execution_record
store_with g p kept = elim (store_execution_record g p kept) [ ok cid ↦ some cid | err e ↦ none ]

module _ {F Form : Type 0} (sv : Services F) (g : Gateway Form) (p : PinataClient)
    (file_of : Bytes → Bytes)
    (stores : (kept : ExecutionRecord) → sv.store_record kept ≡ store_with g p kept)
    (pins : IsPinning g file_of) where
  -- The record was not stored; or the request knows where it is.
  abbrev IsKept : RequestState F → ExecutionRecord → Type 0
  IsKept state kept =
      ((e : StorageError) × (store_execution_record g p kept ≡ err e))
      ⊎ (get_execution_record g state.ipfs_cid ≡ ok kept)

  stored_or_not :
      (kept : ExecutionRecord)
      → ((e : StorageError) × (store_execution_record g p kept ≡ err e)
          × (sv.store_record kept ≡ none))
        ⊎ ((cid : String) × (get_execution_record g cid ≡ ok kept)
            × (sv.store_record kept ≡ some cid))
  unfolding store_with
  stored_or_not kept = elim (Result-cases (store_execution_record g p kept)) [
    | inl (cid, q) ↦
        inr (cid, store-get g file_of p kept cid pins q, rw (stores kept, store_with, q) refl)
    | inr (e, q) ↦ inl (e, q, rw (stores kept, store_with, q) refl)
  ]

  store_request-IsKept :
      (now : ℕ) (b : Bool) (agreed : ConsensusData) (state : RequestState F)
      (kept : ExecutionRecord)
      → (store_request sv now b agreed state).1 ≡ some kept
      → IsKept (store_request sv now b agreed state).0 kept
  unfolding store_request
  store_request-IsKept now b agreed state kept h =
      let text = final_response state.llm_response agreed.response state.responses in
      elim (Bool-cases b) [
        | inr q ↦ absurd (cc (rw (q, store_request) at h))
        | inl q ↦ elim (Bool-cases (text == "")) [
          | inl r ↦ absurd (cc (rw (q, r, store_request) at h))
          | inr r ↦ elim (stored_or_not (record_of sv now text state)) [
            | inl (e, failed, none_kept) ↦
                let same = some-injective _ _ (rw (q, r, none_kept, store_request) at h) in
                inl (e, rw (sym same) failed)
            | inr (cid, got, kept_there) ↦
                let same = some-injective _ _ (rw (q, r, kept_there, store_request) at h) in
                inr (rw (q, r, kept_there, store_request, sym same) got)
          ]
        ]
      ]

  -- When a node whose storage is this client hands a record of a result to it, either the client gives an
  -- error, or the node has a request under the agreed name whose content identifier the record is read back
  -- from, as long as the service keeps what is pinned.
  pub handle_consensus_result-IsKept :
      (now : ℕ) (result : ConsensusResult) (n : OracleNode F) (kept : ExecutionRecord)
      → (handle_consensus_result sv now result n).1 ≡ some kept
      → ((e : StorageError) × (store_execution_record g p kept ≡ err e))
        ⊎ ((agreed : ConsensusData) × (state : RequestState F) × (sv.codec.unmarshal_data
                result.payload
              ≡ some agreed)
            × (lookup agreed.request_id (handle_consensus_result sv now result n).0.requests
                ≡ some state)
            × (get_execution_record g state.ipfs_cid ≡ ok kept))
  unfolding handle_consensus_result
  handle_consensus_result-IsKept now result n kept h =
      elim (Option-cases (sv.codec.unmarshal_data result.payload)) [
        | inl q ↦ absurd (cc (rw (q, handle_consensus_result) at h))
        | inr (agreed, q) ↦ elim (Option-cases (lookup agreed.request_id n.requests)) [
          | inl r ↦ absurd (cc (rw (q, r, handle_consensus_result) at h))
          | inr (state, r) ↦
              let scored = score_request sv n.has_scorer (take_result sv agreed state) in
              let last = store_request sv now n.has_storage agreed scored in
              elim (store_request-IsKept now n.has_storage agreed scored kept
                (rw (q, r, handle_consensus_result) at h)) [
                  | inl failed ↦ inl failed
                  | inr got ↦ inr (
                    agreed,
                    last.0,
                    q,
                    rw (q, r, handle_consensus_result)
                        (lookup-insert_self agreed.request_id last.0 n.requests),
                    got,
                  )
                ]
        ]
      ]
