-- ===== src/Pbft/Tests.antt =====
-- The theorems about the consensus engine at concrete groups and messages.
use lab.Pbft.Votes.{nil-IsVoteLog}
use lab.Pbft.Invariant.Run.{run-Inv}
use lab.Pbft.Leadership.{IsQuiet, IsOrdinary, run-IsQuiet}
use lab.Pbft.Once.{handle_commit_once}
use lab.Pbft.Progress.{run_total, process_new_view_rejected}
use lab.Pbft.Checkpoints.{checkpoints_lost}
use lab.Pbft.Invariant.Defs.{Inv}
use lab.Pbft.Maintenance.{execute_consensus, cleanup, make_checkpoint, store}
use lab.Pbft.Handlers.{
  handle_message, dispatch, handle_pre_prepare, handle_prepare, commit_own, handle_commit,
  is_reached, broadcast, start_view_change, handle_view_change, process_new_view, reset_view_timer,
  propose_value,
}
use lab.Pbft.Commits.{delivered, HasQuorum, voters}
use lab.Pbft.Quorum.{step-HasQuorum, step-Overlap}
use lab.Pbft.Validate.{process_message, validate, validate_type, accept, advance}
use lab.Pbft.Engine.{run, step, Event, receive, take, take_next, on_timer, restore_state}
use lab.Base.{
  inl, ◌≡◌, true, List, Option, String, some, false, ◌∷◌, none, [], lookup, insert, delete_where,
  refl, ◌*◌, ◌≢◌, ◌+◌, nat_eq, arith, All, ◌≤◌, length, common, string_eq,
}
use lab.Pbft.Types.{
  Pbft, Bytes, Library, MessageType, normal, ViewChangeData, Action, ConsensusMessage,
  ConsensusResult, pre_prepare, unset, prepare, commit, entries, bytes_equal, deliver_result,
  broadcast_message, new_view,
}

-- A library whose digest is the data itself, and whose records are encoded as lists.
decode : Bytes → Option ViewChangeData
decode (a ∷ b ∷ c) = some (record { new_view = a; last_seq = b; checkpoint = c })
decode _ = none

abbrev plain : Library
plain = record {
  sha256 = λ d. d;
  marshal_view_change = λ d. some (d.new_view ∷ d.last_seq ∷ d.checkpoint);
  unmarshal_view_change = decode;
  marshal_checkpoint = λ seq state. seq ∷ state;
}

abbrev four : List String
four = "n0" ∷ "n1" ∷ "n2" ∷ "n3" ∷ []

abbrev engine : Pbft
engine = record {
  node_id = "n1";
  nodes = four;
  has_network = true;
  timeout = 5;
  view_change_timeout = 0;
  checkpoint_interval = 100;
  view = 0;
  sequence = 0;
  state = normal;
  is_leader = false;
  last_checkpoint = [];
  last_checkpoint_seq = 0;
  prepare_messages = [];
  commit_messages = [];
  view_change_msgs = [];
  checkpoints = [];
  consensus_reached = [];
  msg_chan = [];
  has_callback = true;
  f = 1;
  view_timer = unset;
}

abbrev message : MessageType → String → ConsensusMessage
message t id = record {
  type = t;
  node_id = id;
  view = 0;
  sequence = 0;
  digest = 7 ∷ [];
  payload = 7 ∷ [];
}

-- A round of consensus: the proposal, two prepares, three commits.
abbrev round : List Event
round =
    receive (some (message pre_prepare "n0"))
    ∷ take
    ∷ receive (some (message prepare "n0"))
    ∷ take
    ∷ receive (some (message prepare "n2"))
    ∷ take
    ∷ receive (some (message commit "n0"))
    ∷ take
    ∷ receive (some (message commit "n2"))
    ∷ take
    ∷ receive (some (message commit "n3"))
    ∷ take
    ∷ []

delivered_of : Option (Pbft × List Action) → List ConsensusResult
delivered_of none = []
delivered_of (some (p, out)) = delivered out

round_delivers :
    delivered_of (run plain round engine)
    ≡ record { sequence = 0; payload = 7 ∷ []; digest = 7 ∷ [] } ∷ []
unfolding delivered_of run step process_message validate validate_type accept advance take_next
    handle_message dispatch handle_pre_prepare handle_prepare commit_own handle_commit
    execute_consensus cleanup make_checkpoint store entries lookup insert delete_where is_reached
    broadcast bytes_equal
round_delivers = refl

abbrev state_of : Option (Pbft × List Action) → Pbft
state_of none = engine
state_of (some (p, out)) = p

-- Everything that a run of the engine computes with.
computing : Library → Event → Pbft → Option (Pbft × List Action)
unfolding step process_message validate validate_type accept advance take_next handle_message
    dispatch handle_pre_prepare handle_prepare commit_own handle_commit execute_consensus cleanup
    make_checkpoint store entries lookup insert delete_where is_reached broadcast bytes_equal run
    on_timer start_view_change handle_view_change process_new_view reset_view_timer propose_value
    decode restore_state
computing = step

engine-Inv : Inv engine
engine-Inv = record {
  self = refl;
  tolerance = refl;
  queue = tt;
  prepares = nil-IsVoteLog _ _;
  commits = nil-IsVoteLog _ _;
}

-- The first three messages, and the commit votes of n0 and n2; n2's is still in the channel.
abbrev votes_of : List String → List Event
votes_of [] = []
votes_of (id ∷ ids) = receive (some (message commit id)) ∷ take ∷ votes_of ids

abbrev until_quorum : List Event
until_quorum =
    receive (some (message pre_prepare "n0"))
    ∷ take
    ∷ receive (some (message prepare "n0"))
    ∷ take
    ∷ receive (some (message commit "n0"))
    ∷ take
    ∷ receive (some (message commit "n2"))
    ∷ []

abbrev waiting : Pbft
waiting = record engine {
  sequence = 0;
  prepare_messages = (0, ("n1", message prepare "n1") ∷ ("n0", message prepare "n0") ∷ []) ∷ [];
  commit_messages = (0, ("n1", message commit "n1") ∷ ("n0", message commit "n0") ∷ []) ∷ [];
  msg_chan = message commit "n2" ∷ [];
}

abbrev waiting_out : List Action
waiting_out =
    broadcast_message (message prepare "n1") ∷ broadcast_message (message commit "n1") ∷ []

run-until_quorum : run plain until_quorum engine ≡ some (waiting, waiting_out)
unfolding computing
run-until_quorum = refl

run-Inv_example : Inv waiting
run-Inv_example = run-Inv plain until_quorum engine waiting waiting_out engine-Inv run-until_quorum

abbrev result : ConsensusResult
result = record { sequence = 0; payload = 7 ∷ []; digest = 7 ∷ [] }

abbrev executed : Pbft
executed = record waiting {
  commit_messages =
      (
        0,
        ("n1", message commit "n1")
            ∷ ("n0", message commit "n0")
            ∷ ("n2", message commit "n2")
            ∷ [],
      )
      ∷ [];
  msg_chan = [];
  consensus_reached = (0, true) ∷ [];
}

step-waiting : step plain take waiting ≡ some (executed, deliver_result result ∷ [])
unfolding computing
step-waiting = refl

step-HasQuorum_example : HasQuorum executed 0 × Unit {0}
step-HasQuorum_example = step-HasQuorum plain take waiting executed _ run-Inv_example step-waiting

step-Overlap_example : 4 * 1 + 2 ≤ 4 + length (common (voters 0 executed) (voters 0 executed))
step-Overlap_example =
    step-Overlap plain plain take take waiting waiting executed executed
      (deliver_result result ∷ []) (deliver_result result ∷ []) result result run-Inv_example
      run-Inv_example step-waiting step-waiting (inl refl) (inl refl) refl refl

handle_commit-waiting :
    handle_commit plain (message commit "n2") waiting
    ≡ (record executed { msg_chan = message commit "n2" ∷ [] }, deliver_result result ∷ [])
unfolding computing
handle_commit-waiting = refl

-- What comes behind the vote that executes: the vote of n3, while that of n2 waits once more.
abbrev behind : List Event
behind = receive (some (message commit "n3")) ∷ take ∷ take ∷ []

run-behind :
    run plain behind (handle_commit plain (message commit "n2") waiting).0
    ≡ some (record executed { msg_chan = [] }, [])
unfolding computing
run-behind = refl

handle_commit_once_example : handle_commit plain (message commit "n3") executed ≡ (executed, [])
handle_commit_once_example =
    handle_commit_once plain (message commit "n2") (message commit "n3") behind waiting executed []
      (λ e. cc (rw handle_commit-waiting at e)) run-behind tt refl

run_total_example : (q : Pbft) × (out : List Action) × (run plain round engine ≡ some (q, out))
run_total_example = run_total plain round engine engine-Inv

engine-IsQuiet : IsQuiet engine
engine-IsQuiet = record { timer = refl; queue = tt }

run-IsQuiet_example : IsQuiet waiting × (waiting.is_leader ≡ false) × All IsOrdinary waiting_out
run-IsQuiet_example =
    run-IsQuiet plain until_quorum engine waiting waiting_out
      (refl, (tt, (refl, (tt, (refl, (tt, (refl, tt))))))) engine-IsQuiet run-until_quorum

abbrev past_zero : Pbft
past_zero = record engine { view = 1 }

process_new_view_rejected_example :
    validate
      (record {
        type = new_view;
        node_id = "n1";
        view = 0;
        sequence = 0;
        digest = [];
        payload = [];
      })
      past_zero
    ≢ none
unfolding computing
process_new_view_rejected_example =
    process_new_view_rejected 1 engine _ past_zero _ (omega arith) refl

checkpoints_lost_example : lookup 0 (execute_consensus plain 0 (7 ∷ []) engine).0.checkpoints ≡ none
checkpoints_lost_example =
    checkpoints_lost plain 0 0 (7 ∷ []) engine (omega arith) (omega arith) (omega arith)
