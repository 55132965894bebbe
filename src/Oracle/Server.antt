-- ===== src/Oracle/Server.antt =====
-- handlePrompt of project/oracle/cmd/server/main.go: a prompt goes to every node, the messages that the
-- nodes receive are counted, and the answers of the nodes are compared. What is printed is left out.
use lab.Base.{
  ℕ, ◌+◌, Bool, true, false, not, String, List, [], ◌∷◌, ◌++◌, Option, none, some, Map, lookup,
  insert, if◌then◌else◌, ◌&&◌, ◌==◌, string_eq, nat_eq,
}
use lab.Pbft.Types.{
  MessageType, pre_prepare, prepare, commit, view_change, new_view, state_transfer, unknown,
}
use lab.Network.Transport.{World}
use lab.Oracle.Types.{RequestState, OracleNode, Status, RequestError, pending, consensus, complete}
use lab.Oracle.Results.{Services}
use lab.Oracle.Requests.{process_prompt, get_request_state, accepted, rejected, crashed}

-- pbftMessage
pub record SeenMessage : Type 0 where
  pub node_id : String
  pub type : MessageType
  pub sequence : ℕ

-- The maps of the verification goroutine. A sequence number is its own key; the code prints it.
pub record Tracker : Type 0 where
  pub pre_prepare_received : Map String Bool
  pub prepare_messages : Map ℕ (Map String Bool)
  pub commit_messages : Map ℕ (Map String Bool)
  pub messages_by_node : Map String (List MessageType)

abbrev pub new_tracker : Tracker
new_tracker = record {
  pre_prepare_received = [];
  prepare_messages = [];
  commit_messages = [];
  messages_by_node = [];
}

-- `m[seq][id] = true`, with a new inner map where there is none.
unfoldable pub mark : ℕ → String → Map ℕ (Map String Bool) → Map ℕ (Map String Bool)
mark seq id m = insert seq (insert id true (elim (lookup seq m) [ none ↦ [] | some row ↦ row ])) m

unfoldable pub note : SeenMessage → Tracker → Tracker
note msg t = record t {
  messages_by_node =
      insert msg.node_id
        ((elim (lookup msg.node_id t.messages_by_node) [ none ↦ [] | some types ↦ types ])
          ++ (msg.type ∷ []))
        t.messages_by_node;
}

-- The `switch` on the message type.
unfoldable pub track_type : String → MessageType → SeenMessage → Tracker → Tracker
unfolding mark
track_type leader pre_prepare msg t =
    if msg.node_id == leader
    then t
    else record t { pre_prepare_received = insert msg.node_id true t.pre_prepare_received }
track_type leader prepare msg t = record t {
  prepare_messages = mark msg.sequence msg.node_id t.prepare_messages;
}
track_type leader commit msg t = record t {
  commit_messages = mark msg.sequence msg.node_id t.commit_messages;
}
track_type leader view_change msg t = t
track_type leader new_view msg t = t
track_type leader state_transfer msg t = t
track_type leader unknown msg t = t

-- One message of the channel.
unfoldable pub track : String → SeenMessage → Tracker → Tracker
unfolding note track_type
track leader msg t = track_type leader msg.type msg (note msg t)

unfoldable pub track_all : String → List SeenMessage → Tracker → Tracker
track_all leader [] t = t
track_all leader (msg ∷ msgs) t = track_all leader msgs (track leader msg t)

-- The count of the nodes that have received a pre-prepare.
unfoldable pub received_count : String → Map String Bool → ℕ
received_count leader [] = 0
received_count leader ((id, received) ∷ m) =
    let rest = received_count leader m in if not (id == leader) && received then rest + 1 else rest

-- The agreed text of a completed request.
unfoldable pub agreed_text : {F : Type 0} → RequestState F → Option String
agreed_text state = elim state.status [
  | pending ↦ none
  | Status.failed ↦ none
  | consensus ↦ none
  | complete ↦ elim state.consensus_data [
    | none ↦ none
    | some d ↦ elim d.response [ none ↦ none | some r ↦ some r.text ]
  ]
]

-- The loop that compares the agreed texts: the text and whether the consensus is reached. A node
-- without the request is passed over, and a text that differs ends the loop.
unfoldable pub compare_states :
    {F : Type 0} → List (Option (RequestState F)) → String → Bool → String × Bool
unfolding agreed_text
compare_states [] final reached = (final, reached)
compare_states (none ∷ states) final reached = compare_states states final reached
compare_states (some state ∷ states) final reached = elim (agreed_text state) [
  | none ↦ compare_states states final reached
  | some text ↦
      if final == ""
      then compare_states states text true
      else if text == final
      then compare_states states final reached
      else (final, false)
]

unfoldable pub states_of :
    {F : Type 0} → String → List (OracleNode F) → List (Option (RequestState F))
unfolding get_request_state
states_of request_id [] = []
states_of request_id (n ∷ nodes) = get_request_state request_id n ∷ states_of request_id nodes

-- The final text and whether the consensus is reached.
unfoldable pub verdict : {F : Type 0} → String → List (OracleNode F) → String × Bool
unfolding compare_states states_of
verdict request_id nodes = compare_states (states_of request_id nodes) "" false

-- The content identifier that the client gets: the leader's, or "".
unfoldable pub ipfs_cid_of : {F : Type 0} → String → OracleNode F → String
unfolding get_request_state
ipfs_cid_of request_id leader = elim (get_request_state request_id leader) [
  | none ↦ ""
  | some state ↦ state.ipfs_cid
]

-- What the submission of a prompt to the nodes ends with.
pub data Submission : Type 0 where
  submitted : Submission
  refused : RequestError → Submission
  panicked : Submission

module _ {F : Type 0} (sv : Services F) where
  -- The loop that submits a prompt to the nodes; the first error ends it. The nodes run on their own;
  -- here nothing happens between two submissions.
  unfoldable pub submit_all :
      ℕ → World → String → String → List (OracleNode F) → List (OracleNode F) × Submission
  submit_all now world request_id prompt [] = ([], submitted)
  submit_all now world request_id prompt (n ∷ nodes) =
      let done = process_prompt sv now world request_id prompt n in
      let rest = submit_all now world request_id prompt nodes in
      elim done.2 [
        | accepted ↦ (done.0 ∷ rest.0, rest.1)
        | rejected err ↦ (done.0 ∷ nodes, refused err)
        | crashed ↦ (done.0 ∷ nodes, panicked)
      ]
