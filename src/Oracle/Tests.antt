-- ===== src/Oracle/Tests.antt =====
-- The theorems about the node of project/oracle/pkg/node at small nodes.
use lab.Oracle.Restarts.{IsFaithful, recover-save_state}
use lab.Oracle.Recovery.{
  Position, Value, number, Files, ReadResult, not_there, contents, recovered, save_state,
  state_code, recover,
}
use lab.Oracle.Running.{node_run-NodeInv}
use lab.Oracle.Machine.{node_run, NodeEvent, prompt, message, engine_takes, peer, stopped}
use lab.Pbft.Votes.{nil-IsVoteLog}
use lab.Pbft.Invariant.Defs.{Inv}
use lab.Oracle.Manager.{answer}
use lab.Pbft.Handlers.{propose_value, process_new_view}
use lab.Oracle.Prompts.{Tells, process_prompt-Tells}
use lab.Oracle.Invariant.{NodeInv}
use lab.Oracle.Requests.{process_prompt}
use lab.Oracle.Results.{Services}
use lab.Network.Transport.{World, written, broadcast}
use lab.Oracle.Llm.{LlmConfig, get_response}
use lab.Similarity.Floats.{Float32}
use mathlib.Core.Option.{some-injective}
use lab.Oracle.Types.{Codec, ConsensusData, OracleNode, RequestState, consensus}
use lab.Oracle.Messages.{IsJson}
use lab.Base.{
  get_elem?, none, some, [], ◌∷◌, List, ◌≡◌, ℕ, Option, refl, if◌then◌else◌, ◌==◌, string_eq,
  beq_cases, inl, inr, subst, ◌+◌, ◌*◌, ◌/◌, leb, ltb, nat_beq, true, false, lookup, insert, Map,
  arith, String,
}
use lab.Pbft.Types.{
  Library, ConsensusMessage, MessageType, pre_prepare, prepare, commit, view_change, new_view,
  state_transfer, unknown, Bytes, normal, unset, ViewChangeData, Pbft, ConsensusResult, Action,
  changing_view,
}

code : MessageType → ℕ
code pre_prepare = 0
code prepare = 1
code commit = 2
code view_change = 3
code new_view = 4
code state_transfer = 5
code unknown = 6

kinds : List MessageType
kinds = pre_prepare ∷ prepare ∷ commit ∷ view_change ∷ new_view ∷ state_transfer ∷ unknown ∷ []

decode : ℕ → MessageType
unfolding kinds
decode k = elim (get_elem? kinds k) [ none ↦ unknown | some t ↦ t ]

decode-code : (t : MessageType) → decode (code t) ≡ t
unfolding decode code kinds
decode-code pre_prepare = refl
decode-code prepare = refl
decode-code commit = refl
decode-code view_change = refl
decode-code new_view = refl
decode-code state_transfer = refl
decode-code unknown = refl

-- A toy encoding, of the messages of "a" without a digest.
write : Bytes → ConsensusMessage → Option Bytes
unfolding code
write [] m = if m.node_id == "a" then some (code m.type ∷ m.view ∷ m.sequence ∷ m.payload) else none
write (b ∷ bs) m = none

read : Bytes → Option ConsensusMessage
unfolding decode
read (t ∷ v ∷ s ∷ payload) = some (record {
  type = decode t;
  node_id = "a";
  view = v;
  sequence = s;
  digest = [];
  payload = payload;
})
read _ = none

-- Every answer to the request "r" is one byte.
read_answer : Bytes → Option ConsensusData
read_answer [] = none
read_answer (b ∷ bs) =
    some (record { request_id = "r"; node_id = "b"; response = none; timestamp = b })

abbrev toy : Codec
toy = record {
  marshal_message = λ m. write m.digest m;
  unmarshal_message = read;
  marshal_data = λ d. some (d.timestamp ∷ []);
  unmarshal_data = read_answer;
}

write-read :
    (m : ConsensusMessage) (bytes : Bytes)
    → toy.marshal_message m ≡ some bytes
    → toy.unmarshal_message bytes ≡ some m
unfolding write read
write-read m bytes h = by_digest m.digest refl
  where
    by_digest : (d : Bytes) → m.digest ≡ d → toy.unmarshal_message bytes ≡ some m
    by_digest [] e = elim (beq_cases m.node_id "a") [
      | inl same ↦
          let back : read (code m.type ∷ m.view ∷ m.sequence ∷ m.payload) ≡ some m =
            cc (decode-code m.type, same.1, e) in
          subst (λ b. read b ≡ some m) (some-injective _ _ (rw (e, same.0, write) at h)) back
      | inr apart ↦ absurd (cc (rw (e, apart.0, write) at h))
    ]
    by_digest (b ∷ bs) e = absurd (cc (rw e at h))

toy-IsJson : IsJson toy
unfolding read_answer
toy-IsJson = record { messages = write-read; empty = refl }

-- A library whose digests are empty.
no_change : Bytes → Option ViewChangeData
no_change _ = none

abbrev lib : Library
lib = record {
  sha256 = λ d. [];
  marshal_view_change = λ d. none;
  unmarshal_view_change = no_change;
  marshal_checkpoint = λ seq state. [];
}

abbrev whole : Float32 ℕ
whole = record {
  zero = 0;
  one = 100;
  plus = λ a b. a + b;
  times = λ a b. a * b;
  over = λ a b. a * 100 / b;
  sqrt = λ a. a;
  of_count = λ n. n;
  is_zero = λ a. nat_beq a 0;
  at_least = λ a b. leb b a;
  above = λ a b. ltb b a;
}

-- A model that answers with the prompt, and a storage that keeps everything.
abbrev services : Services ℕ
services = record {
  lib = lib;
  codec = toy;
  floats = whole;
  threshold = 85;
  service = λ q. some (record { choices = q.content ∷ []; total_tokens = 1; model = q.model });
  embed = λ text. none;
  sort = λ cs. cs;
  store_record = λ kept. some "cid";
}

abbrev config : LlmConfig
config = record { model = "m"; max_tokens = 100 }

abbrev engine : Pbft
engine = record {
  node_id = "a";
  nodes = "a" ∷ "b" ∷ [];
  has_network = true;
  timeout = 5;
  view_change_timeout = 0;
  checkpoint_interval = 100;
  view = 0;
  sequence = 0;
  state = normal;
  is_leader = true;
  last_checkpoint = [];
  last_checkpoint_seq = 0;
  prepare_messages = [];
  commit_messages = [];
  view_change_msgs = [];
  checkpoints = [];
  consensus_reached = [];
  msg_chan = [];
  has_callback = true;
  f = 0;
  view_timer = unset;
}

abbrev leader : OracleNode ℕ
leader = record {
  node_id = "a";
  address = "a:1";
  llm_client = some config;
  has_storage = true;
  has_scorer = false;
  engine = engine;
  transport = record { node_id = "a"; peers = ("b", "b:1") ∷ ("c", "c:1") ∷ []; connections = [] };
  requests = [];
  is_running = true;
  peers = [];
}

abbrev full : World
full = record { dial = λ address. some 7; marshals = true; outcome = λ _. written }

process_prompt-Tells_example :
    Tells services "r" leader
      (process_prompt services 5 full "r" "hi" leader).0
      (process_prompt services 5 full "r" "hi" leader).1
      (process_prompt services 5 full "r" "hi" leader).2
process_prompt-Tells_example = process_prompt-Tells services "r" 5 full "hi" leader

abbrev asked : RequestState ℕ
asked = record {
  request_id = "r";
  node_id = "a";
  status = consensus;
  prompt = "hi";
  start_time = 1;
  llm_response = none;
  responses = [];
  clusters = none;
  consensus_data = none;
  ipfs_cid = "";
  error = none;
}

abbrev waiting : OracleNode ℕ
waiting = record leader { requests = ("r", asked) ∷ [] }

abbrev outcome : ConsensusResult
outcome = record { sequence = 0; payload = 5 ∷ []; digest = [] }

taken_over : Pbft × List Action
unfolding process_new_view
taken_over = elim (process_new_view 2 engine) [ none ↦ (engine, []) | some r ↦ r ]

engine-Inv : Inv engine
engine-Inv = record {
  self = refl;
  tolerance = refl;
  queue = tt;
  prepares = nil-IsVoteLog _ _;
  commits = nil-IsVoteLog _ _;
}

leader-NodeInv : NodeInv leader
unfolding lookup
leader-NodeInv = record { engine = engine-Inv; requests = λ id state found. absurd (cc) }

-- A prompt, a vote that decodes, the engine's round, a new peer, and the end.
abbrev day : List NodeEvent
day =
    prompt 5 full "r" "hi"
    ∷ message 6 (1 ∷ 0 ∷ 0 ∷ 9 ∷ [])
    ∷ engine_takes 7 full
    ∷ peer "d" "d:1"
    ∷ stopped (record { engine_works = true; transport_works = true })
    ∷ []

ran : OracleNode ℕ
ran = elim (node_run services day leader) [ none ↦ leader | some n ↦ n ]

node_run-NodeInv_example : NodeInv ran
unfolding ran node_run lab.Oracle.Machine.node_step process_prompt get_response propose_value answer
    write broadcast lookup insert lab.Pbft.Engine.step lab.Oracle.Requests.handle_network_message
    read read_answer lab.Pbft.Validate.process_message lab.Pbft.Validate.validate
    lab.Pbft.Validate.accept lab.Pbft.Handlers.handle_message lab.Pbft.Handlers.commit_own
    lab.Pbft.Maintenance.execute_consensus
node_run-NodeInv_example = node_run-NodeInv services day leader ran leader-NodeInv refl

-- Files that hold their numbers as they are.
write_position : Position → Option Bytes
write_position s = some (s.sequence ∷ s.state ∷ s.view ∷ [])

read_position : Bytes → Option (Map String (Value ℕ))
read_position (sequence ∷ state ∷ view ∷ rest) =
    some (("sequence", number sequence) ∷ ("state", number state) ∷ ("view", number view) ∷ [])
read_position _ = none

read_disk : Option Bytes → ReadResult
read_disk none = not_there
read_disk (some bytes) = contents bytes

abbrev plain_files : Files ℕ (Option Bytes)
plain_files = record {
  marshal = write_position;
  unmarshal = read_position;
  write_file = λ bytes disk. some (some bytes);
  read_file = read_disk;
  to_uint64 = λ n. n;
  to_int = λ n. n;
}

plain_files-IsFaithful : IsFaithful plain_files
unfolding write_position read_position read_disk
plain_files-IsFaithful = record {
  float_of = λ n. n;
  exact = λ n h. (refl, refl);
  kept = λ bytes disk after h. ground arith;
  fields = λ s bytes h. ground arith;
}

abbrev moved : Pbft
moved = record engine { sequence = 9; view = 3; state = changing_view }

recover-save_state_example :
    (recover plain_files (some (9 ∷ 1 ∷ 3 ∷ [])) engine
      ≡ (record engine { sequence = 9; view = 3; state = changing_view }, recovered))
    × ((recover plain_files (some (9 ∷ 1 ∷ 3 ∷ [])) engine).0.is_leader ≡ engine.is_leader)
unfolding save_state write_position state_code
recover-save_state_example =
    recover-save_state plain_files 7 moved engine none (some (9 ∷ 1 ∷ 3 ∷ []))
      plain_files-IsFaithful (omega arith) (omega arith) (omega arith) (omega arith) refl
