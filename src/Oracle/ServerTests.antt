-- ===== src/Oracle/ServerTests.antt =====
-- The verdict of the server at small nodes.
use lab.Oracle.Llm.{LlmResponse}
use lab.Pbft.Types.{normal, unset, Pbft}
use lab.Base.{none, some, [], ◌∷◌, true, false, ◌==◌, Map, String, ℕ, string_eq, List, ◌≡◌}
use lab.Oracle.Types.{RequestState, complete, OracleNode}
use lab.Oracle.Verdicts.{verdict_lem, AllSame, AreAll, texts_of}
use lab.Oracle.Server.{verdict, states_of}

abbrev said : LlmResponse
said = record {
  text = "yes";
  tokens_used = 1;
  model = "m";
  timestamp = 2;
  request_id = "r";
  node_id = "a";
}

abbrev done : RequestState ℕ
done = record {
  request_id = "r";
  node_id = "a";
  status = complete;
  prompt = "hi";
  start_time = 1;
  llm_response = none;
  responses = [];
  clusters = none;
  consensus_data =
      some (record { request_id = "r"; node_id = "a"; response = some said; timestamp = 3 });
  ipfs_cid = "";
  error = none;
}

abbrev engine : Pbft
engine = record {
  node_id = "a";
  nodes = "a" ∷ "b" ∷ [];
  has_network = true;
  timeout = 5;
  view_change_timeout = 0;
  checkpoint_interval = 100;
  view = 0;
  sequence = 0;
  state = normal;
  is_leader = true;
  last_checkpoint = [];
  last_checkpoint_seq = 0;
  prepare_messages = [];
  commit_messages = [];
  view_change_msgs = [];
  checkpoints = [];
  consensus_reached = [];
  msg_chan = [];
  has_callback = true;
  f = 0;
  view_timer = unset;
}

abbrev with_requests : Map String (RequestState ℕ) → OracleNode ℕ
with_requests requests = record {
  node_id = "a";
  address = "a:1";
  llm_client = none;
  has_storage = true;
  has_scorer = false;
  engine = engine;
  transport = record { node_id = "a"; peers = []; connections = [] };
  requests = requests;
  is_running = true;
  peers = [];
}

-- One node has completed the request, one does not know it.
abbrev group : List (OracleNode ℕ)
group = with_requests (("r", done) ∷ []) ∷ with_requests [] ∷ []

verdict_lem_example :
    ((verdict "r" group).1 ≡ true → AllSame (verdict "r" group).0 (texts_of (states_of "r" group)))
    × (texts_of (states_of "r" group) ≡ "yes" ∷ []
        → AreAll "yes" []
        → (◌==◌ {K = String} "yes" "") ≡ false
        → verdict "r" group ≡ ("yes", true))
verdict_lem_example = verdict_lem "r" "yes" [] group
