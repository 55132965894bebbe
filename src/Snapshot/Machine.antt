-- ===== src/Snapshot/Machine.antt =====
-- A process of lab2/src/main.go as a state machine. A goroutine runs from one sleep to the next
-- without an interleaving, and each of its wake-ups is an event.
use lab.Snapshot.Operations.{
  send_token, send_markers, process_token, initialize_snapshot, record_message, handle_marker,
}
use lab.Base.{ℕ, Bool, List, [], ◌∷◌, ◌++◌, ℤ, if◌then◌else◌, leb_ℤ, nat_beq, pos, ◌&&◌}
use lab.Snapshot.Types.{
  Process, Action, invalid, unpack_message, token_msg, token_passed, marker_msg,
}

pub data Event : Type 0 where
  -- A packed message from a process.
  receive : ℕ → ℤ → Event
  -- A sleep of processToken is over, or main starts with the token: the outcomes of sendToken.
  pass_token : List Bool → Event
  -- A turn of the loop that waits for the snapshot's trigger.
  poll_trigger : ℤ → Event
  -- The delay of sendMarkers is over: the processes whose write succeeds.
  markers : (ℕ → Bool) → ℤ → Event

-- What handleConnection does with one unpacked message.
unfoldable pub dispatch : ℕ → ℤ → ℕ → ℤ → Process → Process × List Action
dispatch sender_id packed msg_type snapshot_id p =
    if nat_beq msg_type token_msg
    then (let counted = process_token (record_message sender_id "TOKEN" p) in
        (counted.0, token_passed sender_id p.id ∷ counted.1))
    else if nat_beq msg_type marker_msg
    then handle_marker sender_id snapshot_id p
    else (p, invalid packed ∷ [])

-- The body of handleConnection's loop.
unfoldable pub handle_message : ℕ → ℤ → Process → Process × List Action
unfolding dispatch
handle_message sender_id packed p =
    let unpacked = unpack_message packed in dispatch sender_id packed unpacked.0 unpacked.1 p

-- A turn of main's loop around the trigger, which ends with the first snapshot.
unfoldable pub check_trigger : ℤ → Process → Process × List Action
check_trigger snapshot_id p =
    if leb_ℤ (pos 0) p.snapshot_trigger && leb_ℤ p.snapshot_trigger (pos p.state)
    then initialize_snapshot snapshot_id p
    else (p, [])

unfoldable pub step : Event → Process → Process × List Action
unfolding handle_message check_trigger
step (receive sender_id packed) p = handle_message sender_id packed p
step (pass_token outcomes) p = let sent = send_token outcomes p in (sent.0, sent.1.0)
step (poll_trigger snapshot_id) p = check_trigger snapshot_id p
step (markers is_written snapshot_id) p = (p, send_markers is_written snapshot_id p)

unfoldable pub run : List Event → Process → Process × List Action
run [] p = (p, [])
run (e ∷ es) p = let first = step e p in let rest = run es first.0 in (rest.0, first.1 ++ rest.1)
