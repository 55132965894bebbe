-- ===== src/Snapshot/Token.antt =====
-- The token flag through every run of a process of lab2/src/main.go.
use lab.Base.{List, ℕ, ◌≡◌, Bool, false, All, ℤ, ◌∷◌, arith, [], All-append, refl}
use lab.Snapshot.Types.{Process, Action, marker_sent, unpack_message}
use lab.Snapshot.Operations.{
  handle_marker, send_attempts, write_markers, initialize_snapshot, close_channel, send_markers,
  send_token, process_token, record_message,
}
use lab.Snapshot.Machine.{
  step, run, handle_message, dispatch, Event, check_trigger, receive, pass_token, poll_trigger,
  markers,
}

-- A printed marker line says that the process has no token.
abbrev pub SaysNo : Action → Type 0
SaysNo (marker_sent snapshot_id id state has_token) = has_token ≡ false
SaysNo _ = Unit

-- What every event keeps.
abbrev HasNone : Process → Process × List Action → Type 0
HasNone p r = (r.0.has_token ≡ false) × (r.0.connections ≡ p.connections) × All SaysNo r.1

write_markers-SaysNo :
    (is_written : ℕ → Bool) (snapshot_id : ℤ) (p : Process) (ids : List ℕ)
    → p.has_token ≡ false
    → All SaysNo (write_markers is_written snapshot_id p ids)
unfolding write_markers
write_markers-SaysNo is_written snapshot_id p [] h = tt
write_markers-SaysNo is_written snapshot_id p (id ∷ ids) h =
    ground (arith, write_markers-SaysNo is_written snapshot_id p ids h)

send_attempts-SaysNo :
    (p : Process) (outcomes : List Bool) → All SaysNo (send_attempts p outcomes).0
unfolding send_attempts
send_attempts-SaysNo p [] = tt
send_attempts-SaysNo p (o ∷ outcomes) = ground (arith, send_attempts-SaysNo p outcomes)

handle_marker-HasNone :
    (sender_id : ℕ) (snapshot_id : ℤ) (p : Process)
    → p.has_token ≡ false
    → HasNone p (handle_marker sender_id snapshot_id p)
unfolding handle_marker initialize_snapshot close_channel
handle_marker-HasNone sender_id snapshot_id p h = ground arith

step-HasNone : (e : Event) (p : Process) → p.has_token ≡ false → HasNone p (step e p)
unfolding step handle_message dispatch check_trigger initialize_snapshot send_markers send_token
    process_token record_message
step-HasNone (receive sender_id packed) p h =
    let unpacked = unpack_message packed in
    ground (arith, handle_marker-HasNone sender_id unpacked.1 p h)
step-HasNone (pass_token outcomes) p h =
    (refl, refl, send_attempts-SaysNo (record p { has_token = false }) outcomes)
step-HasNone (poll_trigger snapshot_id) p h = ground arith
step-HasNone (markers is_written snapshot_id) p h =
    (h, refl, write_markers-SaysNo is_written snapshot_id p p.connections h)

-- A process that does not start with the token never has its token flag set, however often the token
-- reaches it: every marker line that it prints says so, also while it holds the token.
pub run-SaysNo :
    (es : List Event) (p : Process)
    → p.has_token ≡ false
    → ((run es p).0.has_token ≡ false) × All SaysNo (run es p).1
unfolding run
run-SaysNo [] p h = (h, tt)
run-SaysNo (e ∷ es) p h =
    let first = step-HasNone e p h in
    let rest = run-SaysNo es (step e p).0 first.0 in
    (rest.0, All-append SaysNo (step e p).1 _ first.2 rest.1)
