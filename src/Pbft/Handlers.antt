-- ===== src/Pbft/Handlers.antt =====
-- The message handlers of project/oracle/pkg/consensus/pbft.go. A handler returns the new state and
-- what it did to the outside, in order; one that can panic returns `none` for a panic.
use lab.Base.{
  ℕ, ◌+◌, ◌*◌, ◌%◌, Bool, true, false, not, List, [], ◌∷◌, ◌++◌, Option, none, some, lookup, insert,
  size, length, get_elem?, ltb, leb, nat_eq, string_eq, if◌then◌else◌, add64, ◌==◌,
}
use lab.Pbft.Types.{
  Bytes, bytes_equal, Pbft, ConsensusMessage, Action, broadcast_message, Library, Error, no_network,
  not_leader, entries, armed, normal, changing_view, PbftState, MessageType, pre_prepare, prepare,
  commit, view_change, new_view, state_transfer, unknown,
}
use lab.Pbft.Maintenance.{store, execute_consensus}

-- broadcast; `net` is what Broadcast of the network manager returns.
unfoldable pub broadcast :
    (ConsensusMessage → Option Error) → ConsensusMessage → Pbft → Option Error × List Action
broadcast net msg p =
    if p.has_network then (net msg, broadcast_message msg ∷ []) else (some no_network, [])

-- A call of broadcast whose error is dropped.
abbrev pub send : ConsensusMessage → Pbft → List Action
send msg p = (broadcast (λ _. none) msg p).1

-- resetViewTimer
unfoldable pub reset_view_timer : Pbft → Pbft
reset_view_timer p = record p { view_timer = armed }

-- `consensusReached[seq]`: false for a missing key.
unfoldable pub is_reached : ℕ → Pbft → Bool
is_reached seq p = elim (lookup seq p.consensus_reached) [ none ↦ false | some b ↦ b ]

-- processNewView; an empty node list panics (division by zero).
unfoldable pub process_new_view : ℕ → Pbft → Option (Pbft × List Action)
unfolding broadcast reset_view_timer
process_new_view new p = elim (get_elem? p.nodes (new % length p.nodes)) [
  | none ↦ none
  | some leader ↦
      let elected = p.node_id == leader in
      let msg : ConsensusMessage = record {
        type = new_view;
        node_id = p.node_id;
        view = 0;
        sequence = p.sequence;
        digest = [];
        payload = [];
      } in
      some (
        reset_view_timer (record p {
          is_leader = if elected then true else p.is_leader;
          view = new;
          state = normal;
          view_change_msgs = [];
        }),
        if elected then send msg p else [],
      )
]

abbrev pub is_changing : PbftState → Bool
is_changing changing_view = true
is_changing _ = false

module _ (lib : Library) where
  -- ProposeValue. The entry for the proposal stays when the broadcast fails.
  unfoldable pub propose_value :
      (ConsensusMessage → Option Error) → Bytes → Pbft → Option Error × Pbft × List Action
  unfolding broadcast
  propose_value net value p =
      if not p.is_leader
      then (some not_leader, p, [])
      else let msg : ConsensusMessage = record {
        type = pre_prepare;
        node_id = p.node_id;
        view = p.view;
        sequence = p.sequence;
        digest = lib.sha256 value;
        payload = value;
      } in
        let stored = record p {
          prepare_messages = store p.sequence p.node_id msg p.prepare_messages;
        } in
        let sent = (broadcast net msg stored).1 in
        elim (broadcast net msg stored).0 [
          | some e ↦ (some e, stored, sent)
          | none ↦ (none, record stored { sequence = add64 p.sequence 1 }, sent)
        ]

  -- handlePrePrepare
  unfoldable pub handle_pre_prepare : ConsensusMessage → Pbft → Pbft × List Action
  unfolding broadcast
  handle_pre_prepare msg p =
      let computed = lib.sha256 msg.payload in
      let vote : ConsensusMessage = record {
        type = prepare;
        node_id = p.node_id;
        view = msg.view;
        sequence = msg.sequence;
        digest = computed;
        payload = msg.payload;
      } in
      if ltb msg.sequence p.sequence
      then (p, [])
      else if not (bytes_equal computed msg.digest)
      then (p, [])
      else (
        record p { prepare_messages = store msg.sequence p.node_id vote p.prepare_messages },
        send vote p,
      )

  -- The end of handlePrepare, behind the prepare quorum: the own commit vote.
  unfoldable pub commit_own : ConsensusMessage → Pbft → Pbft × List Action
  unfolding broadcast
  commit_own msg p =
      let vote : ConsensusMessage = record {
        type = commit;
        node_id = p.node_id;
        view = msg.view;
        sequence = msg.sequence;
        digest = msg.digest;
        payload = msg.payload;
      } in
      let voted = record p {
        commit_messages = store msg.sequence p.node_id vote p.commit_messages;
      } in
      let done = execute_consensus lib msg.sequence msg.payload voted in
      if leb (2 * p.f + 1) (size (entries msg.sequence voted.commit_messages))
      then (done.0, send vote p ++ done.1)
      else (voted, send vote p)

  -- handlePrepare
  unfoldable pub handle_prepare : ConsensusMessage → Pbft → Pbft × List Action
  handle_prepare msg p =
      let stored = record p {
        prepare_messages = store msg.sequence msg.node_id msg p.prepare_messages;
      } in
      if leb (2 * p.f) (size (entries msg.sequence stored.prepare_messages))
      then commit_own msg stored
      else (stored, [])

  -- handleCommit
  unfoldable pub handle_commit : ConsensusMessage → Pbft → Pbft × List Action
  handle_commit msg p =
      let stored = record p {
        commit_messages = store msg.sequence msg.node_id msg p.commit_messages;
      } in
      if is_reached msg.sequence p
      then (p, [])
      else if leb (2 * p.f + 1) (size (entries msg.sequence stored.commit_messages))
      then execute_consensus lib msg.sequence msg.payload
          (record stored { consensus_reached = insert msg.sequence true p.consensus_reached })
      else (stored, [])

  -- startViewChange. The own vote is not stored, and the message has no view number.
  unfoldable pub start_view_change : ℕ → Pbft → Pbft × List Action
  unfolding broadcast
  start_view_change new p =
      let changing = record p { state = changing_view } in
      if leb new p.view
      then (p, [])
      else elim (lib.marshal_view_change
          (record { new_view = new; last_seq = p.sequence; checkpoint = p.last_checkpoint })) [
            | none ↦ (changing, [])
            | some bytes ↦
                let msg : ConsensusMessage = record {
                  type = view_change;
                  node_id = p.node_id;
                  view = 0;
                  sequence = p.sequence;
                  digest = [];
                  payload = bytes;
                } in
                (
                  record changing {
                    view_change_msgs = elim (lookup new p.view_change_msgs) [
                      | none ↦ insert new [] p.view_change_msgs
                      | some _ ↦ p.view_change_msgs
                    ];
                  },
                  send msg p,
                )
          ]

  -- handleViewChange
  unfoldable pub handle_view_change : ConsensusMessage → Pbft → Option (Pbft × List Action)
  handle_view_change msg p = elim (lib.unmarshal_view_change msg.payload) [
    | none ↦ some (p, [])
    | some d ↦
        let stored = record p {
          view_change_msgs = store d.new_view msg.node_id msg p.view_change_msgs;
        } in
        if leb (2 * p.f + 1) (size (entries d.new_view stored.view_change_msgs))
        then process_new_view d.new_view stored
        else some (stored, [])
  ]

  unfoldable pub dispatch : MessageType → ConsensusMessage → Pbft → Option (Pbft × List Action)
  dispatch pre_prepare msg p = some (handle_pre_prepare msg p)
  dispatch prepare msg p = some (handle_prepare msg p)
  dispatch commit msg p = some (handle_commit msg p)
  dispatch view_change msg p = handle_view_change msg p
  dispatch new_view msg p = if is_changing p.state then process_new_view p.view p else some (p, [])
  dispatch state_transfer msg p = some (p, [])
  dispatch unknown msg p = some (p, [])

  -- handleMessage
  unfoldable pub handle_message : ConsensusMessage → Pbft → Option (Pbft × List Action)
  unfolding dispatch
  handle_message msg p = dispatch msg.type msg p
