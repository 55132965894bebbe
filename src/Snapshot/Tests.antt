-- ===== src/Snapshot/Tests.antt =====
-- The theorems about lab2's processes at one of a ring of three.
use lab.Snapshot.Packing.{unpack_message-pack_message}
use lab.Snapshot.Completion.{Closes, run_markers, run_markers_completes}
use lab.Snapshot.Operations.{initialize_snapshot, handle_marker}
use lab.Snapshot.Recording.{state_in, IsQuiet, first_action, tokens_from, run_reports}
use lab.Snapshot.Machine.{Event, receive, run, pass_token, markers}
use lab.Snapshot.Types.{
  new_process, unpack_message, Process, others, pack_message, low_bits, channel_closed,
}
use lab.Base.{
  ◌≡◌, List, [], ◌∷◌, pos, All, false, negsuc, lookup, true, inl, some, arith, refl, int_eq,
}

abbrev first : Process
unfolding new_process
first = new_process 3 1 false (pos 2)

unpack_message-pack_message_example :
    unpack_message (pack_message 2 (negsuc 0)) ≡ (2, pos (low_bits (negsuc 0)))
unpack_message-pack_message_example = unpack_message-pack_message 2 (negsuc 0) (omega arith)

abbrev traffic : List Event
traffic =
    receive 3 (pos 1073741824)
    ∷ pass_token (true ∷ [])
    ∷ markers (λ _. true) (pos 9)
    ∷ receive 3 (pos 1073741824)
    ∷ receive 2 (pos 1073741824)
    ∷ []

run_markers_completes_example : Closes (pos 9) 2 first (run_markers (pos 9) (3 ∷ 2 ∷ []) first)
unfolding new_process others lookup
run_markers_completes_example =
    run_markers_completes (pos 9) 3 (2 ∷ []) first refl (refl, (refl, tt)) (omega arith)

quiet : All (IsQuiet (pos 9)) traffic
unfolding unpack_message
quiet = (inl (λ e. omega arith), (tt, (tt, (inl (λ e. omega arith), (inl (λ e. omega arith), tt)))))

run_reports_example :
    (state_in (pos 9) (run traffic (initialize_snapshot (pos 9) first).0).0 ≡ some first.state)
    × (first_action
          (handle_marker 3 (pos 9) (run traffic (initialize_snapshot (pos 9) first).0).0).1
        ≡ some (channel_closed (pos 9) 3 (tokens_from 3 traffic [])))
run_reports_example = run_reports traffic (pos 9) 3 first quiet
