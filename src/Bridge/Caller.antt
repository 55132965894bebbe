-- ===== src/Bridge/Caller.antt =====
-- The caller of project/scripts/caller.go: it sends a prompt to the contract and waits for the response
-- event. The client of the chain, its ABI codec, crypto, the HTTP client and encoding/json are parameters.
use lab.Bridge.Types.{LogEntry}
use lab.Base.{
  ℕ, String, List, [], ◌∷◌, Option, none, some, Bool, if◌then◌else◌, ◌==◌, string_eq, nat_beq,
  nat_eq, sub64, get_elem?, not, true, false,
}
use lab.Base.Results.{Result, ok, err, ◌>>=◌, ◌>>◌, guard, or_err}

-- InvokerConfig, what the code uses of it. An int stands as its bits.
pub record InvokerConfig : Type 0 where
  pub rpc_url : String
  pub chain_id : ℕ
  pub contract_address : String
  pub private_key : String
  pub gas_limit : ℕ

pub data CallerError : Type 0 where
  no_prompt not_read not_parsed no_connection bad_private_key no_nonce no_gas_price : CallerError
  not_packed not_signed not_sent not_mined : CallerError

-- types.Transaction, what the code sets of it.
pub record Transaction : Type 0 where
  pub nonce : ℕ
  pub to : String
  pub amount : ℕ
  pub gas : ℕ
  pub gas_price : ℕ
  pub payload : List ℕ

-- What the code meets outside until the transaction is mined; none is an error.
pub record Gateway : Type 0 where
  pub read_config : Option (List ℕ)
  pub parse_config : List ℕ → Option InvokerConfig
  pub dial : String → Bool
  pub hex_to_key : String → Option ℕ  -- without the prefix 0x
  pub address_of : ℕ → String
  pub pending_nonce : String → Option ℕ
  pub suggest_gas_price : Option ℕ
  pub pack_request : String → Option (List ℕ)
  pub hex_to_address : String → String
  pub sign : Transaction → ℕ → ℕ → Option (List ℕ)
  pub send : List ℕ → Bool
  pub mined : List ℕ → Option (List LogEntry)  -- the logs of the receipt

-- loadConfig
unfoldable pub load_config : Gateway → Result CallerError InvokerConfig
load_config g = do bytes ← or_err g.read_config not_read; or_err (g.parse_config bytes) not_parsed

-- The part of main that sends the prompt; it ends with the logs of the receipt.
unfoldable pub send_request : Gateway → String → Result CallerError (List LogEntry)
unfolding load_config
send_request g prompt = do
  guard (not (prompt == "")) no_prompt
  cfg ← load_config g
  guard (g.dial cfg.rpc_url) no_connection
  key ← or_err (g.hex_to_key cfg.private_key) bad_private_key
  nonce ← or_err (g.pending_nonce (g.address_of key)) no_nonce
  price ← or_err g.suggest_gas_price no_gas_price
  payload ← or_err (g.pack_request prompt) not_packed
  let tx : Transaction = record {
    nonce = nonce;
    to = g.hex_to_address cfg.contract_address;
    amount = 0;
    gas = cfg.gas_limit;
    gas_price = price;
    payload = payload;
  }
  signed ← or_err (g.sign tx cfg.chain_id key) not_signed
  guard (g.send signed) not_sent
  or_err (g.mined signed) not_mined

-- The loop over the logs of the receipt: the last request that was created. `none` is a panic, of an index
-- out of range.
unfoldable pub created_request : String → List LogEntry → String → Option String
created_request event_id [] request_id = some request_id
created_request event_id (entry ∷ entries) request_id = elim (get_elem? entry.topics 0) [
  | none ↦ none
  | some topic ↦ elim (topic == event_id) [
    | true ↦ elim (get_elem? entry.topics 1) [
      | none ↦ none
      | some id ↦ created_request event_id entries id
    ]
    | false ↦ created_request event_id entries request_id
  ]
]

pub data FetchError : Type 0 where
  not_fetched no_body not_json not_formatted : FetchError

-- An event ResponseReceived, without its request.
pub record Response : Type 0 where
  pub response : String
  pub ipfs_cid : String

-- What a wait meets outside at a tick; none is an error.
pub record View : Type 0 where
  pub block_number : Option ℕ
  pub filter_logs : String → ℕ → ℕ → Option (List LogEntry)  -- of one request
  pub unpack_response : List ℕ → Option Response
  pub http_get : String → Option (Option (List ℕ))  -- the body, or none where it cannot be read
  pub parse_json : List ℕ → Option (List ℕ)
  pub format_json : List ℕ → Option String

-- fetchIPFSData
unfoldable pub fetch_ipfs_data : View → String → Result FetchError String
fetch_ipfs_data v ipfs_cid = do
  resp ← or_err (v.http_get ipfs_cid) not_fetched
  body ← or_err resp no_body
  parsed ← or_err (v.parse_json body) not_json
  or_err (v.format_json parsed) not_formatted

-- What the caller prints.
pub record Found : Type 0 where
  pub block_number : ℕ
  pub event : Response
  pub document : Result FetchError String

-- The loop over the logs: the first that decodes.
unfoldable pub first_response : View → List LogEntry → Option Found
unfolding fetch_ipfs_data
first_response v [] = none
first_response v (entry ∷ entries) = elim (v.unpack_response entry.payload) [
  | none ↦ first_response v entries
  | some event ↦ some (record {
    block_number = entry.block_number;
    event = event;
    document = fetch_ipfs_data v event.ipfs_cid;
  })
]

-- What a tick comes to: the wait goes on behind a block that was checked, or it ends.
pub data Progress : Type 0 where
  again : ℕ → Progress
  found : Found → Progress

-- The body of the case of the ticker.
unfoldable pub check_blocks : View → String → ℕ → Progress
unfolding first_response
check_blocks v request_id last_checked = elim v.block_number [
  | none ↦ again last_checked
  | some current ↦
      if nat_beq current last_checked
      then again last_checked
      else elim (v.filter_logs request_id last_checked current) [
        | none ↦ again last_checked
        | some entries ↦ elim (first_response v entries) [ none ↦ again current | some f ↦ found f ]
      ]
]

pub data WaitEvent : Type 0 where
  tick : View → WaitEvent
  timeout : WaitEvent

-- How a wait stands after some events.
pub data WaitOutcome : Type 0 where
  waiting : ℕ → WaitOutcome
  answered : Found → WaitOutcome
  timed_out : ℕ → WaitOutcome  -- the blocks that the message names

unfoldable pub wait_from : String → ℕ → List WaitEvent → ℕ → WaitOutcome
unfolding check_blocks
wait_from request_id start [] last_checked = waiting last_checked
wait_from request_id start (timeout ∷ es) last_checked = timed_out (sub64 last_checked start)
wait_from request_id start (tick v ∷ es) last_checked =
    elim (check_blocks v request_id last_checked) [
      | again checked ↦ wait_from request_id start es checked
      | found f ↦ answered f
    ]

-- waitForResponse; none is the error of its first call.
unfoldable pub wait_for_response : Option ℕ → String → List WaitEvent → Option WaitOutcome
unfolding wait_from
wait_for_response none request_id es = none
wait_for_response (some start) request_id es = some (wait_from request_id start es start)

-- What main ends with.
pub data CallerOutcome : Type 0 where
  failed : CallerError → CallerOutcome
  panicked : CallerOutcome
  no_start_block : CallerOutcome
  waited : WaitOutcome → CallerOutcome

-- main, for a prompt. A request that is not in the receipt stands as 32 zero bytes.
unfoldable pub call_oracle :
    Gateway → String → String → String → Option ℕ → List WaitEvent → CallerOutcome
unfolding send_request created_request wait_for_response
call_oracle g event_id zeros prompt start es = elim (send_request g prompt) [
  | err e ↦ failed e
  | ok entries ↦ elim (created_request event_id entries zeros) [
    | none ↦ panicked
    | some request_id ↦ elim (wait_for_response start request_id es) [
      | none ↦ no_start_block
      | some outcome ↦ waited outcome
    ]
  ]
]
