-- ===== src/Storage/Tests.antt =====
-- The client of project/oracle/pkg/storage/pinata.go at a small service.
use lab.Storage.Results.{store_with, handle_consensus_result-IsKept}
use lab.Oracle.Results.{Services, handle_consensus_result}
use lab.Base.{
  List, [], ◌∷◌, true, Option, none, some, ◌≡◌, refl, ◌⊎◌, beq_cases, inl, inr, subst, ◌==◌,
  string_eq, if◌then◌else◌, ◌&&◌, Bool-cases, false, and_eq_true, eq_of_beq, nat_beq, nat_eq,
  lookup, insert, ℕ,
}
use lab.Base.Results.{ok, err}
use lab.Pbft.Types.{Bytes, bytes_equal, normal, unset, ConsensusResult}
use lab.Oracle.Types.{
  ExecutionRecord, OracleResponse, RequestState, OracleNode, ConsensusData, consensus,
}
use lab.Storage.Pinata.{
  PinataClient, new_pinata_client, Gateway, Method, post, get, store_execution_record,
  get_execution_record, HttpReply, StorageError,
}
use lab.Storage.Retrieval.{IsPinning}
use mathlib.Core.Option.{some-injective}

abbrev kept : ExecutionRecord
kept = record {
  request_id = "r";
  request_input = "hi";
  timestamp = 5;
  final_response = "ho";
  oracle_responses = [];
  participant_count = 0;
}

-- A toy encoding, of the records of one request without the answers of nodes.
write_record : List OracleResponse → ExecutionRecord → Option Bytes
write_record [] r =
    if r.request_id == "r" && (r.request_input == "hi" && r.final_response == "ho")
    then some (r.timestamp ∷ r.participant_count ∷ [])
    else none
write_record (x ∷ xs) r = none

read_record : Bytes → Option ExecutionRecord
read_record (t ∷ c ∷ []) = some (record {
  request_id = "r";
  request_input = "hi";
  timestamp = t;
  final_response = "ho";
  oracle_responses = [];
  participant_count = c;
})
read_record _ = none

write-read :
    (r : ExecutionRecord) (bytes : Bytes)
    → write_record r.oracle_responses r ≡ some bytes
    → read_record bytes ≡ some r
unfolding write_record read_record
write-read r bytes h = by_answers r.oracle_responses refl
  where
    by_answers : (xs : List OracleResponse) → r.oracle_responses ≡ xs → read_record bytes ≡ some r
    by_answers (x ∷ xs) e = absurd (cc (rw (e, write_record) at h))
    by_answers [] e = elim (beq_cases r.request_id "r") [
      | inr (q, _) ↦ absurd (cc (rw (e, q, write_record) at h))
      | inl (q, id) ↦ elim (beq_cases r.request_input "hi") [
        | inr (k, _) ↦ absurd (cc (rw (e, q, k, write_record) at h))
        | inl (k, input) ↦ elim (beq_cases r.final_response "ho") [
          | inr (l, _) ↦ absurd (cc (rw (e, q, k, l, write_record) at h))
          | inl (l, final) ↦
              let back : read_record (r.timestamp ∷ r.participant_count ∷ []) ≡ some r =
                cc (id, input, final, e) in
              subst (λ b. read_record b ≡ some r)
                (some-injective _ _ (rw (e, q, k, l, write_record) at h)) back
        ]
      ]
    ]

-- A form is the bytes that were written, and the only hash stands for the bytes 5 and 0.
answer : Method → Bytes → Option HttpReply
answer post body =
    if bytes_equal body (5 ∷ 0 ∷ []) then some (record { status = 200; body = [] }) else none
answer get body = some (record { status = 200; body = 5 ∷ 0 ∷ [] })

abbrev service : Gateway Bytes
service = record {
  marshal_record = λ r. write_record r.oracle_responses r;
  new_form = [];
  create_file = λ name f. some f;
  write = λ b f. some b;
  create_field = λ name f. some f;
  encode_metadata = λ m f. some f;
  close = λ f. some f;
  content_type = λ f. "form";
  format_time = λ t. "now";
  accepts_url = λ url. true;
  send = λ req. answer req.method req.body;
  decode_hash = λ b. some "cid";
  decode_record = read_record;
}

bytes_equal-eq : (xs ys : Bytes) → bytes_equal xs ys ≡ true → xs ≡ ys
unfolding bytes_equal
bytes_equal-eq [] [] h = refl
bytes_equal-eq [] (y ∷ ys) h = cc
bytes_equal-eq (x ∷ xs) [] h = cc
bytes_equal-eq (x ∷ xs) (y ∷ ys) h =
    let (first, rest) = and_eq_true (nat_beq x y) (bytes_equal xs ys) h in
    cc (eq_of_beq x y first, bytes_equal-eq xs ys rest)

by_body :
    (body : Bytes) {reply : HttpReply}
    → (bytes_equal body (5 ∷ 0 ∷ []) ≡ true) ⊎ (bytes_equal body (5 ∷ 0 ∷ []) ≡ false)
    → answer post body ≡ some reply
    → (true ≡ true) × (answer get body ≡ some (record { status = 200; body = body }))
unfolding answer
by_body body (inr q) s = cc (rw (q, answer) at s)
by_body body (inl q) s = (refl, rw (bytes_equal-eq body (5 ∷ 0 ∷ []) q) refl)

service-IsPinning : IsPinning service (λ body. body)
unfolding answer bytes_equal
service-IsPinning = record {
  holds = λ bytes body f1 f2 f3 f4 m a b c d e. cc;
  serves =
      λ headers body reply cid s k d. by_body body (Bool-cases (bytes_equal body (5 ∷ 0 ∷ []))) s;
  json = write-read;
}

abbrev client : PinataClient
client = record { api_key = "k"; api_secret = "s"; jwt = "" }

stored : store_execution_record service client kept ≡ ok "cid"
unfolding store_execution_record write_record answer bytes_equal
stored = refl

made : new_pinata_client "k" "s" "" ≡ some client
unfolding new_pinata_client
made = refl

abbrev services : Services ℕ
services = record {
  lib = record {
    sha256 = λ d. [];
    marshal_view_change = λ d. none;
    unmarshal_view_change = λ b. none;
    marshal_checkpoint = λ seq state. [];
  };
  codec = record {
    marshal_message = λ m. none;
    unmarshal_message = λ b. none;
    marshal_data = λ d. none;
    unmarshal_data =
        λ b. some (record { request_id = "r"; node_id = "b"; response = none; timestamp = 0 });
  };
  floats = record {
    zero = 0;
    one = 100;
    plus = λ a b. a;
    times = λ a b. a;
    over = λ a b. a;
    sqrt = λ a. a;
    of_count = λ n. n;
    is_zero = λ a. true;
    at_least = λ a b. true;
    above = λ a b. true;
  };
  threshold = 85;
  service = λ q. none;
  embed = λ text. none;
  sort = λ cs. cs;
  store_record = store_with service client;
}

abbrev asked : RequestState ℕ
asked = record {
  request_id = "r";
  node_id = "a";
  status = consensus;
  prompt = "hi";
  start_time = 1;
  llm_response = some (record {
    text = "ho";
    tokens_used = 1;
    model = "m";
    timestamp = 2;
    request_id = "r";
    node_id = "a";
  });
  responses = [];
  clusters = none;
  consensus_data = none;
  ipfs_cid = "";
  error = none;
}

abbrev node : OracleNode ℕ
node = record {
  node_id = "a";
  address = "a:1";
  llm_client = none;
  has_storage = true;
  has_scorer = false;
  engine = record {
    node_id = "a";
    nodes = "a" ∷ [];
    has_network = true;
    timeout = 5;
    view_change_timeout = 0;
    checkpoint_interval = 100;
    view = 0;
    sequence = 1;
    state = normal;
    is_leader = true;
    last_checkpoint = [];
    last_checkpoint_seq = 0;
    prepare_messages = [];
    commit_messages = [];
    view_change_msgs = [];
    checkpoints = [];
    consensus_reached = [];
    msg_chan = [];
    has_callback = true;
    f = 0;
    view_timer = unset;
  };
  transport = record { node_id = "a"; peers = []; connections = [] };
  requests = ("r", asked) ∷ [];
  is_running = true;
  peers = [];
}

abbrev agreed_result : ConsensusResult
agreed_result = record { sequence = 0; payload = []; digest = [] }

handed : (handle_consensus_result services 5 agreed_result node).1 ≡ some kept
unfolding handle_consensus_result store_with store_execution_record write_record answer bytes_equal
    lookup insert
handed = refl

handle_consensus_result-IsKept_example :
    ((e : StorageError) × (store_execution_record service client kept ≡ err e))
    ⊎ ((agreed : ConsensusData) × (state : RequestState ℕ) × (services.codec.unmarshal_data
            agreed_result.payload
          ≡ some agreed)
        × (lookup agreed.request_id
              (handle_consensus_result services 5 agreed_result node).0.requests
            ≡ some state)
        × (get_execution_record service state.ipfs_cid ≡ ok kept))
handle_consensus_result-IsKept_example =
    handle_consensus_result-IsKept services service client (λ body. body) (λ r. refl)
      service-IsPinning 5 agreed_result node kept handed
