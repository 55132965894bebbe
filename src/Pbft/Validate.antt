-- ===== src/Pbft/Validate.antt =====
-- validateMessage and ProcessMessage of project/oracle/pkg/consensus/pbft.go.
use lab.Base.{
  not, [], ◌∷◌, ◌++◌, Option, none, some, length, contains, ltb, leb, nat_eq, string_eq,
  if◌then◌else◌, sub64, ◌&&◌, ◌==◌,
}
use lab.Pbft.Types.{
  Pbft, ConsensusMessage, Error, invalid_message, invalid_sender, invalid_sequence, invalid_view,
  non_leader_pre_prepare, stale_view, unknown_message_type, MessageType, pre_prepare, prepare,
  commit, view_change, new_view, state_transfer, unknown, chan_capacity,
}

-- The `switch` on the message type.
unfoldable pub validate_type : MessageType → ConsensusMessage → Pbft → Option Error
validate_type pre_prepare msg p =
    if not p.is_leader && (msg.node_id == p.node_id) then some non_leader_pre_prepare else none
validate_type prepare msg p = none
validate_type commit msg p = none
validate_type view_change msg p =
    if leb msg.view p.view && ltb 0 p.view then some stale_view else none
validate_type new_view msg p = if leb msg.view p.view && ltb 0 p.view then some stale_view else none
validate_type state_transfer msg p = some unknown_message_type
validate_type unknown msg p = some unknown_message_type

-- validateMessage of a message that is not nil.
unfoldable pub validate : ConsensusMessage → Pbft → Option Error
unfolding validate_type
validate msg p =
    if not (contains p.nodes msg.node_id)
    then some invalid_sender
    else if ltb msg.sequence (sub64 p.sequence 1) && ltb 1 p.sequence
    then some invalid_sequence
    else if ltb msg.view (sub64 p.view 1) && ltb 1 p.view
    then some invalid_view
    else validate_type msg.type msg p

-- validateMessage
unfoldable pub validate_message : Option ConsensusMessage → Pbft → Option Error
validate_message none p = some invalid_message
validate_message (some msg) p = validate msg p

-- What ProcessMessage does to its caller. A full channel makes the send wait for the engine.
-- Its message stands in the list behind those in the channel then, in the order in which Go lets the
-- waiting senders in; the caller goes on once it is among the first chan_capacity.
pub data Outcome : Type 0 where
  rejected : Error → Outcome
  enqueued : Outcome
  blocked : Outcome

-- The two updates of ProcessMessage behind the validation.
unfoldable pub advance : ConsensusMessage → Pbft → Pbft
advance msg p = record p {
  sequence = if ltb p.sequence msg.sequence then msg.sequence else p.sequence;
  view = if ltb p.view msg.view then msg.view else p.view;
}

unfoldable pub accept : ConsensusMessage → Pbft → Pbft × Outcome
unfolding advance
accept msg p = (
  record (advance msg p) { msg_chan = p.msg_chan ++ (msg ∷ []) },
  if ltb (length p.msg_chan) chan_capacity then enqueued else blocked,
)

-- ProcessMessage
unfoldable pub process_message : Option ConsensusMessage → Pbft → Pbft × Outcome
process_message none p = (p, rejected invalid_message)
process_message (some msg) p = elim (validate msg p) [
  | some e ↦ (p, rejected e)
  | none ↦ accept msg p
]
