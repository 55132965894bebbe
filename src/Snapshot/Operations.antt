-- ===== src/Snapshot/Operations.antt =====
-- Passing the token and taking snapshots, in lab2/src/main.go and lab2/src/snapshot.go.
use lab.Base.{
  ℕ, ◌+◌, Bool, true, false, String, List, [], ◌∷◌, ◌++◌, none, some, Map, ℤ, size, length, lookup,
  insert, delete, contains, nat_beq, nat_eq, int_eq, if◌then◌else◌, pos,
}
use lab.Snapshot.Types.{
  SnapshotState, Process, Action, write, token_passed, state_printed, pack_message, channel_closed,
  snapshot_started, snapshot_complete, go_send_markers, marker_msg, token_msg, marker_sent,
}

-- The loop of sendToken, for the outcomes of its writes in their order; each attempt that finds no
-- connection or fails is followed by another a second later. The flag says that the token is sent.
unfoldable pub send_attempts : Process → List Bool → List Action × Bool
send_attempts p [] = ([], false)
send_attempts p (is_written ∷ outcomes) =
    let rest = send_attempts p outcomes in
    if contains p.connections p.successor
    then (if is_written
        then (
          token_passed p.id p.successor ∷ write p.successor (pack_message token_msg (pos 0)) ∷ [],
          true,
        )
        else (token_passed p.id p.successor ∷ rest.0, rest.1))
    else rest

-- sendToken
unfoldable pub send_token : List Bool → Process → Process × (List Action × Bool)
send_token outcomes p =
    let sent = record p { has_token = false } in (sent, send_attempts sent outcomes)

-- processToken up to its sleep, behind which it calls sendToken.
unfoldable pub process_token : Process → Process × List Action
process_token p = (record p { state = p.state + 1 }, state_printed (p.state + 1) ∷ [])

-- initializeSnapshot
unfoldable pub initialize_snapshot : ℤ → Process → Process × List Action
initialize_snapshot snapshot_id p =
    let snapshot : SnapshotState = record {
      id = snapshot_id;
      state = p.state;
      has_token = p.has_token;
      closed_channels = [];
      recorded_messages = [];
    } in
    (
      record p { snapshots = insert snapshot_id snapshot p.snapshots },
      snapshot_started snapshot_id ∷ go_send_markers snapshot_id ∷ [],
    )

-- A missing entry of ClosedChannels reads as false, and one of RecordedMessages as nil.
unfoldable pub is_closed : ℕ → SnapshotState → Bool
is_closed sender_id snapshot = elim (lookup sender_id snapshot.closed_channels) [
  | none ↦ false
  | some b ↦ b
]

unfoldable pub recorded : ℕ → SnapshotState → List String
recorded sender_id snapshot = elim (lookup sender_id snapshot.recorded_messages) [
  | none ↦ []
  | some messages ↦ messages
]

-- handleMarker behind the look-up of the snapshot.
unfoldable pub close_channel : ℕ → ℤ → SnapshotState → Process → Process × List Action
unfolding is_closed recorded
close_channel sender_id snapshot_id snapshot p =
    let closed = record snapshot {
      closed_channels = insert sender_id true snapshot.closed_channels;
    } in
    let report = channel_closed snapshot_id sender_id (recorded sender_id snapshot) in
    if is_closed sender_id snapshot
    then (p, [])
    else if nat_beq (size closed.closed_channels) (length p.connections)
    then (
      record p { snapshots = delete snapshot_id p.snapshots },
      report ∷ snapshot_complete snapshot_id ∷ [],
    )
    else (record p { snapshots = insert snapshot_id closed p.snapshots }, report ∷ [])

-- handleMarker; the last case stands for a snapshot that is gone again, which the code would
-- dereference.
unfoldable pub handle_marker : ℕ → ℤ → Process → Process × List Action
unfolding initialize_snapshot close_channel
handle_marker sender_id snapshot_id p = elim (lookup snapshot_id p.snapshots) [
  | some snapshot ↦ close_channel sender_id snapshot_id snapshot p
  | none ↦
      let started = initialize_snapshot snapshot_id p in
      elim (lookup snapshot_id started.0.snapshots) [
        | none ↦ started
        | some snapshot ↦
            let closed = close_channel sender_id snapshot_id snapshot started.0 in
            (closed.0, started.1 ++ closed.1)
      ]
]

-- The loop of sendMarkers: a failed write is passed over.
unfoldable pub write_markers : (ℕ → Bool) → ℤ → Process → List ℕ → List Action
write_markers is_written snapshot_id p [] = []
write_markers is_written snapshot_id p (id ∷ ids) =
    if is_written id
    then write id (pack_message marker_msg snapshot_id)
      ∷ marker_sent snapshot_id id p.state p.has_token
      ∷ write_markers is_written snapshot_id p ids
    else write_markers is_written snapshot_id p ids

-- sendMarkers, behind its delay
unfoldable pub send_markers : (ℕ → Bool) → ℤ → Process → List Action
unfolding write_markers
send_markers is_written snapshot_id p = write_markers is_written snapshot_id p p.connections

unfoldable pub record_in : ℕ → String → SnapshotState → SnapshotState
unfolding is_closed recorded
record_in sender_id message snapshot =
    if is_closed sender_id snapshot then snapshot else record snapshot {
      recorded_messages =
          insert sender_id (recorded sender_id snapshot ++ (message ∷ []))
            snapshot.recorded_messages;
    }

unfoldable pub record_all : ℕ → String → Map ℤ SnapshotState → Map ℤ SnapshotState
unfolding record_in
record_all sender_id message [] = []
record_all sender_id message ((i, snapshot) ∷ snapshots) =
    (i, record_in sender_id message snapshot) ∷ record_all sender_id message snapshots

-- recordMessage
unfoldable pub record_message : ℕ → String → Process → Process
unfolding record_all
record_message sender_id message p = record p {
  snapshots = record_all sender_id message p.snapshots;
}
