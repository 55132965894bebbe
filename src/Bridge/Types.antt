-- ===== src/Bridge/Types.antt =====
-- What the programs of project/scripts exchange with the oracle and the blockchain. The client of the
-- chain, its ABI codec, the HTTP client and encoding/json are parameters.
use lab.Base.{ℕ, String, List, Option, Bool}

-- types.Log
pub record LogEntry : Type 0 where
  pub topics : List String
  pub payload : List ℕ
  pub block_number : ℕ

-- OracleRequest
pub record OracleRequest : Type 0 where
  pub request_id : String
  pub prompt : String

-- OracleResponse
pub record OracleResponse : Type 0 where
  pub ipfs_cid : String
  pub error : String

-- An answer to an HTTP request.
pub record HttpReply : Type 0 where
  pub status : ℕ
  pub body : List ℕ

-- The options of a transaction, after createTransactionAuth.
pub record TransactOpts : Type 0 where
  pub sender : String
  pub nonce : ℕ
  pub amount : ℕ
  pub gas_limit : ℕ
  pub gas_price : ℕ

-- The chain and the oracle during one tick, as their clients show them; none is an error. All transactions
-- of a tick see one nonce and one gas price.
pub record World : Type 0 where
  pub block_number : Option ℕ
  pub filter_logs : ℕ → ℕ → Option (List LogEntry)
  pub marshal_request : OracleRequest → Option (List ℕ)
  pub new_request : List ℕ → Option (List ℕ)
  pub post : List ℕ → Option HttpReply
  pub decode_response : List ℕ → Option OracleResponse
  pub unpack_prompt : List ℕ → Option String
  pub hex_to_key : String → Option ℕ
  pub chain_id : Option ℕ
  pub keyed_transactor : ℕ → ℕ → Option String  -- the address of the key
  pub pending_nonce : String → Option ℕ
  pub gas_price : Option ℕ
  pub transact : TransactOpts → String → String → String → Bool
