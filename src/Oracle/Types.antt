-- ===== src/Oracle/Types.antt =====
-- The data of project/oracle/pkg/node and of the records that it stores
-- (project/oracle/pkg/storage/types.go, and ConsensusData of project/oracle/pkg/consensus/types.go).
use lab.Pbft.Engine.{set_network_manager, set_result_callback}
use lab.Base.{ℕ, Bool, false, String, List, [], Option, none, some, Map}
use lab.Pbft.Types.{Bytes, Pbft, ConsensusMessage, new_pbft}
use lab.Network.Transport.{Transport}
use lab.Similarity.Scorer.{Cluster}
use lab.Oracle.Llm.{LlmResponse, LlmConfig}

-- The value that the nodes agree on.
pub record ConsensusData : Type 0 where
  pub request_id : String
  pub node_id : String
  pub response : Option LlmResponse
  pub timestamp : ℕ

-- The texts of RequestState.Status.
pub data Status : Type 0 where
  pending failed consensus complete : Status

-- The errors that a request keeps.
pub data RequestError : Type 0 where
  no_response marshal_failed proposal_failed : RequestError

pub record RequestState (F : Type 0) : Type 0 where
  pub request_id : String
  pub node_id : String
  pub status : Status
  pub prompt : String
  pub start_time : ℕ
  pub llm_response : Option LlmResponse
  pub responses : Map String LlmResponse
  pub clusters : Option (List (Cluster F))  -- none is nil
  pub consensus_data : Option ConsensusData
  pub ipfs_cid : String
  pub error : Option RequestError

-- What is stored of a request. The agreement score, the constant 1.0, is left out, and so is Metadata,
-- the extra parameters of an answer (two token counts and the temperature), whose integers encoding/json
-- reads back as float64.
pub record OracleResponse : Type 0 where
  pub node_id : String
  pub llm_response : String
  pub timestamp : ℕ

pub record ExecutionRecord : Type 0 where
  pub request_id : String
  pub request_input : String
  pub timestamp : ℕ
  pub final_response : String
  pub oracle_responses : List OracleResponse
  pub participant_count : ℕ

pub record OracleNode (F : Type 0) : Type 0 where
  pub node_id : String
  pub address : String
  pub llm_client : Option LlmConfig  -- none is nil
  pub has_storage : Bool
  pub has_scorer : Bool
  pub engine : Pbft
  pub transport : Transport
  pub requests : Map String (RequestState F)
  pub is_running : Bool
  pub peers : Map String String

-- encoding/json at the records that travel.
pub record Codec : Type 0 where
  pub marshal_message : ConsensusMessage → Option Bytes
  pub unmarshal_message : Bytes → Option ConsensusMessage
  pub marshal_data : ConsensusData → Option Bytes
  pub unmarshal_data : Bytes → Option ConsensusData

-- NewOracleNode with InitConsensus: an engine that is wired to the network and to the node.
unfoldable pub new_oracle_node :
    {F : Type 0}
    → String
    → String
    → Option LlmConfig
    → Bool
    → Bool
    → List String
    → ℕ
    → Option (OracleNode F)
new_oracle_node node_id address llm_client has_storage has_scorer nodes timeout =
    elim (new_pbft node_id nodes timeout) [
      | none ↦ none
      | some p ↦ some (record {
        node_id = node_id;
        address = address;
        llm_client = llm_client;
        has_storage = has_storage;
        has_scorer = has_scorer;
        engine = set_result_callback (set_network_manager p);
        transport = record { node_id = node_id; peers = []; connections = [] };
        requests = [];
        is_running = false;
        peers = [];
      })
    ]
