-- ===== src/Oracle/Llm.antt =====
-- The language model client of project/agent/llm/openai_client.go. The service is a parameter. What
-- the code only hands on (temperatures, extra parameters) is left out.
use lab.Base.{ℕ, String, List, [], ◌∷◌, Option, none, some, nat_beq, if◌then◌else◌, ◌==◌, string_eq}

pub record LlmRequest : Type 0 where
  pub prompt : String
  pub request_id : String
  pub node_id : String

pub record LlmResponse : Type 0 where
  pub text : String
  pub tokens_used : ℕ
  pub model : String
  pub timestamp : ℕ
  pub request_id : String
  pub node_id : String

pub record LlmConfig : Type 0 where
  pub model : String
  pub max_tokens : ℕ

-- A request to the service, and what comes back: the texts of the choices.
pub record ChatRequest : Type 0 where
  pub model : String
  pub max_tokens : ℕ
  pub content : String

pub record ChatResponse : Type 0 where
  pub choices : List String
  pub total_tokens : ℕ
  pub model : String

-- What GetResponse ends with; `Choices[0]` panics where there is none.
pub data LlmResult : Type 0 where
  answered : LlmResponse → LlmResult
  failed : LlmResult
  panicked : LlmResult

unfoldable pub first_choice : ℕ → LlmRequest → ChatResponse → List String → LlmResult
first_choice now request resp [] = panicked
first_choice now request resp (text ∷ rest) = answered (record {
  text = text;
  tokens_used = resp.total_tokens;
  model = resp.model;
  timestamp = now;
  request_id = request.request_id;
  node_id = request.node_id;
})

-- GetResponse
unfoldable pub get_response :
    (ChatRequest → Option ChatResponse) → ℕ → LlmConfig → LlmRequest → LlmResult
unfolding first_choice
get_response service now cfg request =
    let req : ChatRequest = record {
      model = cfg.model;
      max_tokens = cfg.max_tokens;
      content = request.prompt;
    } in
    elim (service req) [ none ↦ failed | some resp ↦ first_choice now request resp resp.choices ]

pub data ResponseError : Type 0 where
  empty_text no_tokens missing_request_id missing_node_id : ResponseError

-- ValidateResponse
unfoldable pub validate_response : LlmResponse → Option ResponseError
validate_response response =
    if response.text == ""
    then some empty_text
    else if nat_beq response.tokens_used 0
    then some no_tokens
    else if response.request_id == ""
    then some missing_request_id
    else if response.node_id == ""
    then some missing_node_id
    else none
