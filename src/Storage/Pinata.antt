-- ===== src/Storage/Pinata.antt =====
-- The client of project/oracle/pkg/storage/pinata.go. The HTTP client, encoding/json, mime/multipart and the
-- format of times are parameters.
use lab.Base.{
  ℕ, String, List, [], ◌∷◌, Bool, Option, none, some, if◌then◌else◌, ◌==◌, string_eq, nat_beq, not,
  ◌&&◌, ◌||◌,
}
use Prim.Native.String.{◌++◌ as append}
use lab.Base.Results.{Result, ◌>>=◌, ◌>>◌, guard, or_err}
use lab.Pbft.Types.{Bytes}
use lab.Oracle.Types.{ExecutionRecord}

pub record PinataClient : Type 0 where
  pub api_key : String
  pub api_secret : String
  pub jwt : String

-- NewPinataClient; none is its error.
unfoldable pub new_pinata_client : String → String → String → Option PinataClient
new_pinata_client api_key api_secret jwt =
    if jwt == "" && (api_key == "" || api_secret == "")
    then none
    else some (record { api_key = api_key; api_secret = api_secret; jwt = jwt })

-- The metadata of a file.
pub record Metadata : Type 0 where
  pub name : String
  pub request_id : String
  pub timestamp : String
  pub record_type : String

pub data Method : Type 0 where
  post get : Method

pub record HttpRequest : Type 0 where
  pub method : Method
  pub url : String
  pub headers : List (String × String)
  pub body : Bytes

pub record HttpReply : Type 0 where
  pub status : ℕ
  pub body : Bytes

-- What the code meets outside; none is an error. A form is what its writer has written.
pub record Gateway (Form : Type 0) : Type 0 where
  pub marshal_record : ExecutionRecord → Option Bytes
  pub new_form : Form
  pub create_file : String → Form → Option Form
  pub write : Bytes → Form → Option Form
  pub create_field : String → Form → Option Form
  pub encode_metadata : Metadata → Form → Option Form
  pub close : Form → Option Bytes
  pub content_type : Form → String
  pub format_time : ℕ → String
  pub accepts_url : String → Bool
  pub send : HttpRequest → Option HttpReply
  pub decode_hash : Bytes → Option String
  pub decode_record : Bytes → Option ExecutionRecord

pub data StorageError : Type 0 where
  not_marshalled no_file not_written no_field not_encoded not_closed : StorageError
  no_request not_sent : StorageError
  api_error : ℕ → Bytes → StorageError
  not_decoded : StorageError

unfoldable pub metadata_of : {Form : Type 0} → Gateway Form → ExecutionRecord → Metadata
metadata_of g kept = record {
  name = append "execution_record_" kept.request_id;
  request_id = kept.request_id;
  timestamp = g.format_time kept.timestamp;
  record_type = "oracle_execution";
}

-- The headers of a call that needs an account.
unfoldable pub credentials : PinataClient → List (String × String)
credentials p =
    if not (p.jwt == "")
    then ("Authorization", append "Bearer " p.jwt) ∷ []
    else ("pinata_api_key", p.api_key) ∷ ("pinata_secret_api_key", p.api_secret) ∷ []

-- The form of a record.
unfoldable pub form_of : {Form : Type 0} → Gateway Form → ExecutionRecord → Result StorageError Form
unfolding metadata_of
form_of g kept = do
  bytes ← or_err (g.marshal_record kept) not_marshalled
  file ← or_err (g.create_file "execution_record.json" g.new_form) no_file
  written ← or_err (g.write bytes file) not_written
  field ← or_err (g.create_field "pinataMetadata" written) no_field
  or_err (g.encode_metadata (metadata_of g kept) field) not_encoded

abbrev pub pin_url : String
pin_url = "https://api.pinata.cloud/pinning/pinFileToIPFS"

-- StoreExecutionRecord
unfoldable pub store_execution_record :
    {Form : Type 0} → Gateway Form → PinataClient → ExecutionRecord → Result StorageError String
unfolding form_of credentials
store_execution_record g p kept = do
  form ← form_of g kept
  body ← or_err (g.close form) not_closed
  guard (g.accepts_url pin_url) no_request
  let req : HttpRequest = record {
    method = post;
    url = pin_url;
    headers = ("Content-Type", g.content_type form) ∷ credentials p;
    body = body;
  }
  reply ← or_err (g.send req) not_sent
  guard (nat_beq reply.status 200) (api_error reply.status reply.body)
  or_err (g.decode_hash reply.body) not_decoded

unfoldable pub gateway_url : String → String
gateway_url cid = append "https://gateway.pinata.cloud/ipfs/" cid

-- GetExecutionRecord
unfoldable pub get_execution_record :
    {Form : Type 0} → Gateway Form → String → Result StorageError ExecutionRecord
unfolding gateway_url
get_execution_record g cid = do
  guard (g.accepts_url (gateway_url cid)) no_request
  reply ←
      or_err (g.send (record { method = get; url = gateway_url cid; headers = []; body = [] }))
        not_sent
  guard (nat_beq reply.status 200) (api_error reply.status reply.body)
  or_err (g.decode_record reply.body) not_decoded
