-- ===== src/Bridge/Listener.antt =====
-- The listener of project/scripts/main.go: it scans the chain for requests, asks the oracle, and submits
-- what it answers.
use lab.Base.{
  ℕ, String, List, [], ◌∷◌, ◌++◌, none, some, length, get_elem?, ltb, nat_beq, if◌then◌else◌, ◌==◌,
  string_eq, add64, sub64, Map, lookup, Option,
}
use lab.Base.Results.{Result, ok, err, ◌>>=◌, ◌>>◌, guard, or_err}
use lab.Bridge.Types.{LogEntry, OracleRequest, TransactOpts, World}

pub data ListenerError : Type 0 where
  not_marshalled no_request not_sent : ListenerError
  bad_status : ℕ → ListenerError
  not_decoded : ListenerError
  oracle_error : String → ListenerError
  bad_key no_chain_id no_transactor no_nonce no_gas_price : ListenerError
  few_topics bad_event not_submitted : ListenerError

pub data AbiError : Type 0 where
  not_read not_parsed no_source no_interface bad_abi : AbiError

-- What loadContractABI meets outside: the file, the contracts of the metadata by source and by name, and
-- the parser of an ABI.
pub record ContractFile (Abi : Type 0) : Type 0 where
  pub read : Option (List ℕ)
  pub parse : List ℕ → Option (Map String (Map String (List ℕ)))
  pub parse_abi : List ℕ → Option Abi

-- loadContractABI
unfoldable pub load_contract_abi : {Abi : Type 0} → ContractFile Abi → Result AbiError Abi
load_contract_abi file = do
  bytes ← or_err file.read not_read
  contracts ← or_err (file.parse bytes) not_parsed
  source ← or_err (lookup "contracts/IOracle.sol" contracts) no_source
  abi ← or_err (lookup "IOracle" source) no_interface
  or_err (file.parse_abi abi) bad_abi

-- sendToOracle
unfoldable pub send_to_oracle : World → String → String → Result ListenerError String
send_to_oracle w request_id prompt = do
  let req : OracleRequest = record { request_id = request_id; prompt = prompt }
  bytes ← or_err (w.marshal_request req) not_marshalled
  http_req ← or_err (w.new_request bytes) no_request
  reply ← or_err (w.post http_req) not_sent
  guard (nat_beq reply.status 200) (bad_status reply.status)
  resp ← or_err (w.decode_response reply.body) not_decoded
  guard (resp.error == "") (oracle_error resp.error)
  ok resp.ipfs_cid

-- createTransactionAuth
unfoldable pub create_transaction_auth : World → String → Result ListenerError TransactOpts
create_transaction_auth w private_key = do
  key ← or_err (w.hex_to_key private_key) bad_key
  chain ← or_err w.chain_id no_chain_id
  sender ← or_err (w.keyed_transactor key chain) no_transactor
  nonce ← or_err (w.pending_nonce sender) no_nonce
  price ← or_err w.gas_price no_gas_price
  ok (record { sender = sender; nonce = nonce; amount = 0; gas_limit = 300000; gas_price = price })

-- What the listener does to the outside.
pub data Step : Type 0 where
  asked : String → String → Step
  submitted : String → String → Step  -- submitResponse; its last two arguments are the same

-- The body of the loop over the logs behind the answer of the oracle: the answer is both the response and
-- the content identifier of the transaction.
unfoldable pub submit : World → String → String → String → Result ListenerError Step
unfolding create_transaction_auth
submit w private_key request_id response = do
  auth ← create_transaction_auth w private_key
  guard (w.transact auth request_id response response) not_submitted
  ok (submitted request_id response)

-- The body of the loop over the logs: what it did, and how it ended. Every error only skips the log.
unfoldable pub process_log : World → String → LogEntry → List Step × Result ListenerError (Unit {0})
unfolding submit send_to_oracle
process_log w private_key entry = elim (get_elem? entry.topics 1) [
  | none ↦ ([], err few_topics)
  | some request_id ↦
      if ltb (length entry.topics) 3
      then ([], err few_topics)
      else elim (w.unpack_prompt entry.payload) [
        | none ↦ ([], err bad_event)
        | some prompt ↦ elim (send_to_oracle w request_id prompt) [
          | err e ↦ (asked request_id prompt ∷ [], err e)
          | ok response ↦ elim (submit w private_key request_id response) [
            | err e ↦ (asked request_id prompt ∷ [], err e)
            | ok done ↦ (asked request_id prompt ∷ done ∷ [], ok tt)
          ]
        ]
      ]
]

unfoldable pub process_logs : World → String → List LogEntry → List Step
unfolding process_log
process_logs w private_key [] = []
process_logs w private_key (entry ∷ entries) =
    (process_log w private_key entry).0 ++ process_logs w private_key entries

-- A range of blocks that a tick has scanned.
pub record Range : Type 0 where
  pub first : ℕ
  pub last : ℕ

-- What one tick of the monitor leaves: the last block that counts as checked, the range that it has
-- scanned, and what it has done.
pub record Tick : Type 0 where
  pub last_block : ℕ
  pub scanned : List Range
  pub steps : List Step

-- The start of the scan; 0 stands for no start yet.
unfoldable pub scan_start : ℕ → ℕ → ℕ
scan_start last_block current = if nat_beq last_block 0 then sub64 current 100 else last_block

-- One tick of monitorBlockchain.
unfoldable pub poll : World → String → ℕ → Tick
unfolding process_logs scan_start
poll w private_key last_block = elim w.block_number [
  | none ↦ record { last_block = last_block; scanned = []; steps = [] }
  | some current ↦
      let start = scan_start last_block current in
      elim (w.filter_logs (add64 start 1) current) [
        | none ↦ record { last_block = start; scanned = []; steps = [] }
        | some entries ↦ record {
          last_block = current;
          scanned = record { first = add64 start 1; last = current } ∷ [];
          steps = process_logs w private_key entries;
        }
      ]
]

-- monitorBlockchain, through some ticks.
unfoldable pub monitor : List World → String → ℕ → Tick
unfolding poll
monitor [] private_key last_block = record { last_block = last_block; scanned = []; steps = [] }
monitor (w ∷ ws) private_key last_block =
    let now = poll w private_key last_block in
    let later = monitor ws private_key now.last_block in
    record {
      last_block = later.last_block;
      scanned = now.scanned ++ later.scanned;
      steps = now.steps ++ later.steps;
    }
