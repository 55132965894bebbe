-- ===== src/Launch/Tests.antt =====
-- Nodes of project/scripts/run_node.go and of the server at small inputs.
use lab.Base.{
  ℕ, ◌+◌, ◌*◌, ◌/◌, String, List, [], ◌∷◌, Bool, true, false, Option, none, some, ◌≡◌, ◌≢◌, refl,
  nat_beq, leb, ltb, All, map, lookup, insert, ◌⊎◌,
}
use lab.Pbft.Types.{Library, Bytes, ConsensusMessage, prepare, Pbft, new_pbft}
use lab.Similarity.Floats.{Float32}
use lab.Network.Transport.{World, written, broadcast}
use lab.Oracle.Llm.{LlmConfig}
use lab.Oracle.Types.{new_oracle_node}
use lab.Oracle.Results.{Services}
use lab.Oracle.Requests.{Parts}
use lab.Oracle.Machine.{NodeEvent, prompt, message, engine_takes}
use lab.Launch.RunNode.{Launched, launch, launched_run}
use lab.Launch.Silence.{IsSilent, launch-IsSilent}
use lab.Launch.Handler.{
  HttpRequest, gateway_timeout, unsent, Moment, happens, ticks, runs_out, handle_request,
  IsUnanswered, ends, handle_request-IsUnanswered,
}

abbrev whole : Float32 ℕ
whole = record {
  zero = 0;
  one = 100;
  plus = λ a b. a + b;
  times = λ a b. a * b;
  over = λ a b. a * 100 / b;
  sqrt = λ a. a;
  of_count = λ n. n;
  is_zero = λ a. nat_beq a 0;
  at_least = λ a b. leb b a;
  above = λ a b. ltb b a;
}

abbrev lib : Library
lib = record {
  sha256 = λ d. [];
  marshal_view_change = λ d. none;
  unmarshal_view_change = λ b. none;
  marshal_checkpoint = λ seq state. [];
}

-- Every message is a vote of node1.
abbrev services : Services ℕ
services = record {
  lib = lib;
  codec = record {
    marshal_message = λ m. some [];
    unmarshal_message = λ b. some (record {
      type = prepare;
      node_id = "node1";
      view = 0;
      sequence = 0;
      digest = [];
      payload = [];
    });
    marshal_data = λ d. some [];
    unmarshal_data =
        λ b. some (record { request_id = "r"; node_id = "node1"; response = none; timestamp = 0 });
  };
  floats = whole;
  threshold = 85;
  service = λ q. some (record { choices = q.content ∷ []; total_tokens = 1; model = q.model });
  embed = λ text. none;
  sort = λ cs. cs;
  store_record = λ kept. some "cid";
}

abbrev config : LlmConfig
config = record { model = "m"; max_tokens = 100 }

abbrev net : World
net = record { dial = λ address. some 7; marshals = true; outcome = λ id. written }

abbrev day : List NodeEvent
day = prompt 1 net "q" "hi" ∷ message 2 [] ∷ engine_takes 3 net ∷ []

abbrev address_of : ℕ → String
address_of n = "localhost"

made : (l : Launched ℕ) × (launch address_of 3000 0 (some config) ≡ some l)
unfolding launch new_oracle_node new_pbft
made = (_, refl)

ran : (m : Launched ℕ) × (launched_run services day made.0 ≡ some m)
unfolding made launch launched_run new_oracle_node new_pbft lab.Launch.RunNode.launched_step
    lab.Launch.RunNode.launched_prompt lab.Oracle.Requests.process_prompt
    lab.Oracle.Llm.get_response lab.Oracle.Requests.handle_network_message lab.Pbft.Engine.step
    lab.Pbft.Validate.process_message lab.Pbft.Validate.validate lab.Pbft.Validate.accept
    lab.Pbft.Handlers.handle_message lookup insert lab.Pbft.Engine.set_result_callback
    lab.Pbft.Engine.set_network_manager lab.Pbft.Handlers.handle_prepare
ran = (_, refl)

launch-IsSilent_example :
    IsSilent ran.0
    × ((world : World)
        → broadcast world ran.0.manager_transport ≡ (ran.0.manager_transport, ([], none)))
launch-IsSilent_example =
    launch-IsSilent services address_of 3000 0 (some config) made.0 ran.0 day made.1 ran.1

asked : HttpRequest
asked = record { is_post = true; decoded = some ("r", "hi") }

moments : List Moment
moments = ticks ∷ happens (message 4 []) ∷ happens (engine_takes 5 net) ∷ ticks ∷ runs_out ∷ []

unanswered :
    (n : Launched ℕ) × (handle_request services 3 net asked moments ran.0
      ≡ some (n, gateway_timeout))
unfolding made ran asked moments launch launched_run handle_request new_oracle_node new_pbft
    lab.Launch.RunNode.launched_step lab.Launch.RunNode.launched_prompt
    lab.Oracle.Requests.process_prompt lab.Oracle.Llm.get_response
    lab.Oracle.Requests.handle_network_message lab.Pbft.Engine.step
    lab.Pbft.Validate.process_message lab.Pbft.Validate.validate lab.Pbft.Validate.accept
    lab.Pbft.Handlers.handle_message lookup insert lab.Pbft.Engine.set_result_callback
    lab.Pbft.Engine.set_network_manager lab.Pbft.Handlers.handle_prepare lab.Pbft.Types.entries
    lab.Pbft.Maintenance.store lab.Pbft.Handlers.commit_own lab.Pbft.Maintenance.execute_consensus
    lab.Pbft.Maintenance.cleanup lab.Pbft.Maintenance.make_checkpoint lab.Base.delete_where
unanswered = (_, refl)

handle_request-IsUnanswered_example :
    IsUnanswered gateway_timeout × ((ends moments ≡ false) ⊎ (gateway_timeout ≢ unsent))
handle_request-IsUnanswered_example =
    handle_request-IsUnanswered services address_of 3000 0 (some config) made.0 ran.0 unanswered.0
      day 3 net asked moments gateway_timeout made.1 ran.1 unanswered.1
