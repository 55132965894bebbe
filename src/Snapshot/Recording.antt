-- ===== src/Snapshot/Recording.antt =====
-- What a snapshot of lab2/src/snapshot.go records on a channel.
use lab.Snapshot.Completion.{fresh}
use lab.Snapshot.Types.{
  unpack_message, Process, SnapshotState, marker_msg, token_msg, channel_closed, Action,
}
use lab.Snapshot.Machine.{
  Event, receive, poll_trigger, run, handle_message, dispatch, check_trigger, step, pass_token,
  markers,
}
use lab.Snapshot.Operations.{
  record_message, record_all, record_in, recorded, is_closed, initialize_snapshot, handle_marker,
  close_channel, process_token, send_token,
}
use lab.Base.{
  lookup, ℕ, ℤ, List, String, if◌then◌else◌, Map, nat_beq, ◌≢◌, ◌&&◌, ◌≡◌, ◌++◌, ◌⊎◌, some, ◌∷◌,
  false, [], Bool-cases, int_eq, ◌==◌, inl, ap, arith, inr, lookup-insert, ◌∙◌, nat_eq, All, beq_ne,
  delete, refl, insert, Option, none, true, lookup-delete_where, sym, lookup-insert_self,
  Option-cases, beq_cases, subst,
}

-- An event that neither starts the snapshot nor closes one of its channels.
abbrev pub IsQuiet : ℤ → Event → Type 0
IsQuiet i (receive s packed) =
    ((unpack_message packed).0 ≢ marker_msg) ⊎ ((unpack_message packed).1 ≢ i)
IsQuiet i (poll_trigger j) = j ≢ i
IsQuiet i _ = Unit

-- A queue behind one more token for each token message from the process.
unfoldable pub tokens_from : ℕ → List Event → List String → List String
tokens_from s [] queue = queue
tokens_from s (receive t packed ∷ es) queue = tokens_from s es (
    if nat_beq t s && nat_beq (unpack_message packed).0 token_msg
    then queue ++ ("TOKEN" ∷ [])
    else queue)
tokens_from s (_ ∷ es) queue = tokens_from s es queue

-- The snapshot is there with this state, its channel from the process open, and what is recorded on it.
record Records (i : ℤ) (s : ℕ) (state : ℕ) (queue : List String) (p : Process) : Type 0 where
  snapshot : SnapshotState
  is_there : lookup i p.snapshots ≡ some snapshot
  is_open : is_closed s snapshot ≡ false
  its_state : snapshot.state ≡ state
  its_queue : recorded s snapshot ≡ queue

abbrev over : (SnapshotState → SnapshotState) → Option SnapshotState → Option SnapshotState
over f none = none
over f (some c) = some (f c)

lookup-record_all :
    (i : ℤ) (t : ℕ) (m : String) (snapshots : Map ℤ SnapshotState)
    → lookup i (record_all t m snapshots) ≡ over (record_in t m) (lookup i snapshots)
unfolding lookup record_all
lookup-record_all i t m [] = refl
lookup-record_all i t m ((j, c) ∷ snapshots) = elim (Bool-cases (j == i)) [
  | inl q ↦ rw q refl
  | inr q ↦ rw q (lookup-record_all i t m snapshots)
]

recorded-record_in :
    (s t : ℕ) (m : String) (snapshot : SnapshotState)
    → is_closed s snapshot ≡ false
    → (is_closed s (record_in t m snapshot) ≡ false)
      × ((record_in t m snapshot).state ≡ snapshot.state)
      × (recorded s (record_in t m snapshot)
          ≡ (if nat_beq t s then recorded s snapshot ++ (m ∷ []) else recorded s snapshot))
unfolding record_in recorded is_closed
recorded-record_in s t m snapshot h =
    ground (arith, lookup-insert t s (recorded t snapshot ++ (m ∷ [])) snapshot.recorded_messages)

record_message-Records :
    (i : ℤ) (s t : ℕ) (state : ℕ) (queue : List String) (p : Process)
    → Records i s state queue p
    → Records i s state
        (if nat_beq t s then queue ++ ("TOKEN" ∷ []) else queue)
        (record_message t "TOKEN" p)
unfolding record_message
record_message-Records i s t state queue p r =
    let kept = recorded-record_in s t "TOKEN" r.snapshot r.is_open in
    record {
      snapshot = record_in t "TOKEN" r.snapshot;
      is_there =
          lookup-record_all i t "TOKEN" p.snapshots ∙ ap (over (record_in t "TOKEN")) r.is_there;
      is_open = kept.0;
      its_state = kept.1 ∙ r.its_state;
      its_queue = kept.2 ∙ ap (λ q. if nat_beq t s then q ++ ("TOKEN" ∷ []) else q) r.its_queue;
    }

-- An event that leaves the look-up of the snapshot as it was.
Records-of :
    (i : ℤ) (s : ℕ) (state : ℕ) (queue : List String) (p q : Process)
    → lookup i q.snapshots ≡ lookup i p.snapshots
    → Records i s state queue p
    → Records i s state queue q
Records-of i s state queue p q e r = record {
  snapshot = r.snapshot;
  is_there = e ∙ r.is_there;
  is_open = r.is_open;
  its_state = r.its_state;
  its_queue = r.its_queue;
}

initialize_snapshot-others :
    (j i : ℤ) (p : Process)
    → j ≢ i
    → lookup i (initialize_snapshot j p).0.snapshots ≡ lookup i p.snapshots
unfolding initialize_snapshot
initialize_snapshot-others j i p ne =
    rw (lookup-insert j i (fresh j p) p.snapshots, beq_ne j i ne) refl

lookup-started :
    (j : ℤ) (p : Process) → lookup j (initialize_snapshot j p).0.snapshots ≡ some (fresh j p)
unfolding initialize_snapshot
lookup-started j p = lookup-insert_self j (fresh j p) p.snapshots

close_channel-others :
    (t : ℕ) (j i : ℤ) (c : SnapshotState) (p : Process)
    → j ≢ i
    → lookup i (close_channel t j c p).0.snapshots ≡ lookup i p.snapshots
unfolding close_channel delete
close_channel-others t j i c p ne =
    let closed = record c { closed_channels = insert t true c.closed_channels } in
    ground (
      arith,
      lookup-insert j i closed p.snapshots,
      lookup-delete_where (λ k. k == j) i p.snapshots,
      beq_ne j i ne,
      beq_ne i j (λ q. ne (sym q)),
    )

handle_marker-others :
    (t : ℕ) (j i : ℤ) (p : Process)
    → j ≢ i
    → lookup i (handle_marker t j p).0.snapshots ≡ lookup i p.snapshots
unfolding handle_marker
handle_marker-others t j i p ne =
    let started = (initialize_snapshot j p).0 in
    elim (Option-cases (lookup j p.snapshots)) [
      | inr (c, n) ↦ ground (arith, close_channel-others t j i c p ne)
      | inl n ↦ ground (
        arith,
        initialize_snapshot-others j i p ne,
        close_channel-others t j i (fresh j p) started ne,
        lookup-started j p,
      )
    ]

check_trigger-others :
    (j i : ℤ) (p : Process)
    → j ≢ i
    → lookup i (check_trigger j p).0.snapshots ≡ lookup i p.snapshots
unfolding check_trigger
check_trigger-others j i p ne = ground (arith, initialize_snapshot-others j i p ne)

-- A message that is no token and leaves the look-up as it was.
passes :
    (i : ℤ) (s t : ℕ) (packed : ℤ) (kind : ℕ) (j : ℤ) (state : ℕ) (queue : List String)
    (p : Process)
    → nat_beq kind token_msg ≡ false
    → lookup i (dispatch t packed kind j p).0.snapshots ≡ lookup i p.snapshots
    → Records i s state queue p
    → Records i s state
        (if nat_beq t s && nat_beq kind token_msg then queue ++ ("TOKEN" ∷ []) else queue)
        (dispatch t packed kind j p).0
passes i s t packed kind j state queue p k same r =
    let queue_same : queue
        ≡ (if nat_beq t s && nat_beq kind token_msg then queue ++ ("TOKEN" ∷ []) else queue) =
      ground arith in
    subst (λ q. Records i s state q (dispatch t packed kind j p).0) queue_same
      (Records-of i s state queue p (dispatch t packed kind j p).0 same r)

dispatch-Records :
    (i : ℤ) (s t : ℕ) (packed : ℤ) (kind : ℕ) (j : ℤ) (state : ℕ) (queue : List String)
    (p : Process)
    → (kind ≢ marker_msg) ⊎ (j ≢ i)
    → Records i s state queue p
    → Records i s state
        (if nat_beq t s && nat_beq kind token_msg then queue ++ ("TOKEN" ∷ []) else queue)
        (dispatch t packed kind j p).0
unfolding dispatch process_token
dispatch-Records i s t packed kind j state queue p h r =
    let here = record_message-Records i s t state queue p r in
    let q = record_message t "TOKEN" p in
    let counted = Records-of i s state _ q (process_token q).0 refl here in
    elim (beq_cases kind token_msg) [
      | inl k ↦ elim (Bool-cases (nat_beq t s)) [
        | inl l ↦ ground (arith, counted)
        | inr l ↦ ground (arith, counted)
      ]
      | inr k ↦ elim (beq_cases kind marker_msg) [
        | inl l ↦ elim h [
          | inl n ↦ absurd (n l.1)
          | inr n ↦
              passes i s t packed kind j state queue p k.0
                (ground (arith, handle_marker-others t j i p n)) r
        ]
        | inr l ↦ passes i s t packed kind j state queue p k.0 (ground arith) r
      ]
    ]

-- Through every run that neither starts the snapshot again nor closes the channel, the snapshot keeps
-- its state, and its queue grows by one entry for each token message from the process.
run-Records :
    (es : List Event) (i : ℤ) (s : ℕ) (state : ℕ) (queue : List String) (p : Process)
    → All (IsQuiet i) es
    → Records i s state queue p
    → Records i s state (tokens_from s es queue) (run es p).0
unfolding run step tokens_from send_token handle_message
run-Records [] i s state queue p h r = r
run-Records (receive t packed ∷ es) i s state queue p h r =
    let u = unpack_message packed in
    run-Records es i s state _ (handle_message t packed p).0 h.1
      (dispatch-Records i s t packed u.0 u.1 state queue p h.0 r)
run-Records (pass_token outcomes ∷ es) i s state queue p h r =
    run-Records es i s state queue (step (pass_token outcomes) p).0 h.1
      (Records-of i s state queue p _ refl r)
run-Records (poll_trigger j ∷ es) i s state queue p h r =
    run-Records es i s state queue (check_trigger j p).0 h.1
      (Records-of i s state queue p _ (check_trigger-others j i p h.0) r)
run-Records (markers w j ∷ es) i s state queue p h r = run-Records es i s state queue p h.1 r

abbrev pub first_action : List Action → Option Action
first_action [] = none
first_action (a ∷ rest) = some a

-- The process state that a snapshot has.
abbrev pub state_in : ℤ → Process → Option ℕ
state_in i p = elim (lookup i p.snapshots) [ none ↦ none | some snapshot ↦ some snapshot.state ]

closes_with :
    (i : ℤ) (s : ℕ) (state : ℕ) (queue : List String) (p : Process)
    → Records i s state queue p
    → (state_in i p ≡ some state)
      × (first_action (handle_marker s i p).1 ≡ some (channel_closed i s queue))
unfolding handle_marker close_channel
closes_with i s state queue p r = let there = r.is_there in ground (arith, r)

-- From the start of a snapshot on, through every run that neither starts it again nor brings a marker
-- of it, the state in the snapshot is the one that it started with; and a marker that then comes from
-- a process closes its channel with one entry for each token message that it sent in the meantime.
pub run_reports :
    (es : List Event) (i : ℤ) (s : ℕ) (p : Process)
    → All (IsQuiet i) es
    → (state_in i (run es (initialize_snapshot i p).0).0 ≡ some p.state)
      × (first_action (handle_marker s i (run es (initialize_snapshot i p).0).0).1
          ≡ some (channel_closed i s (tokens_from s es [])))
unfolding is_closed recorded lookup
run_reports es i s p h = closes_with i s p.state _ _ (
    run-Records es i s p.state [] (initialize_snapshot i p).0 h (record {
      snapshot = fresh i p;
      is_there = lookup-started i p;
      is_open = refl;
      its_state = refl;
      its_queue = refl;
    }))
