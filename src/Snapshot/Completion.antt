-- ===== src/Snapshot/Completion.antt =====
-- The end of a snapshot in lab2/src/snapshot.go.
use lab.Snapshot.Types.{SnapshotState, Process, Action, snapshot_complete, channel_closed}
use lab.Snapshot.Operations.{handle_marker, close_channel, is_closed, recorded, initialize_snapshot}
use lab.Base.{
  ℕ, ℤ, List, Option, lookup, contains, insert, Bool, ◌≡◌, false, true, ◌∷◌, some, All, none,
  nat_eq, if◌then◌else◌, ◌++◌, beq_cases, Distinct, suc, size, nat_beq, [], ◌+◌, inl, length, ◌<◌,
  inr, not, delete, ◌≤◌, ◌≢◌, int_eq, lookup-insert, beq_ne, size-insert_new, sym, arith,
  lookup-delete_where, ◌==◌, beq_self, lookup-insert_self, refl,
}

-- The markers of one snapshot from a list of processes, one after another.
unfoldable pub run_markers : ℤ → List ℕ → Process → Process × List Action
run_markers i [] p = (p, [])
run_markers i (s ∷ ss) p =
    let first = handle_marker s i p in
    let rest = run_markers i ss first.0 in (rest.0, first.1 ++ rest.1)

unfoldable pub completions : List Action → ℕ
completions [] = 0
completions (snapshot_complete i ∷ rest) = suc (completions rest)
completions (a ∷ rest) = completions rest

abbrev pub is_some : Option SnapshotState → Bool
is_some none = false
is_some (some _) = true

abbrev closed_by : ℕ → SnapshotState → SnapshotState
closed_by s snapshot = record snapshot { closed_channels = insert s true snapshot.closed_channels }

-- The equations of handleMarker for a channel that is open.
handle_marker_open :
    (s : ℕ) (i : ℤ) (snapshot : SnapshotState) (p : Process)
    → lookup i p.snapshots ≡ some snapshot
    → lookup s snapshot.closed_channels ≡ none
    → size snapshot.closed_channels + 1 ≢ length p.connections
    → handle_marker s i p ≡ (
      record p { snapshots = insert i (closed_by s snapshot) p.snapshots },
      channel_closed i s (recorded s snapshot) ∷ [],
    )
unfolding handle_marker close_channel is_closed
handle_marker_open s i snapshot p h k ne =
    let grown = size-insert_new s true snapshot.closed_channels k in ground (arith, grown)

handle_marker_last :
    (s : ℕ) (i : ℤ) (snapshot : SnapshotState) (p : Process)
    → lookup i p.snapshots ≡ some snapshot
    → lookup s snapshot.closed_channels ≡ none
    → size snapshot.closed_channels + 1 ≡ length p.connections
    → handle_marker s i p ≡ (
      record p { snapshots = delete i p.snapshots },
      channel_closed i s (recorded s snapshot) ∷ snapshot_complete i ∷ [],
    )
unfolding handle_marker close_channel is_closed
handle_marker_last s i snapshot p h k ne =
    let grown = size-insert_new s true snapshot.closed_channels k in ground (arith, grown)

abbrev IsOpen : SnapshotState → ℕ → Type 0
IsOpen snapshot s = lookup s snapshot.closed_channels ≡ none

closed_by-IsOpen :
    (snapshot : SnapshotState) (s : ℕ) (ss : List ℕ)
    → contains ss s ≡ false
    → All (IsOpen snapshot) ss
    → All (IsOpen (closed_by s snapshot)) ss
closed_by-IsOpen snapshot s [] h k = tt
closed_by-IsOpen snapshot s (t ∷ ss) h k = elim (beq_cases t s) [
  | inl q ↦ absurd (cc (rw q.0 at h))
  | inr q ↦ (
    rw (lookup-insert s t true snapshot.closed_channels, beq_ne s t (λ r. q.1 (sym r))) k.0,
    closed_by-IsOpen snapshot s ss (rw q.0 at h) k.1,
  )
]

-- What is left of a snapshot that was closed on some channels, after further markers.
abbrev pub Closes : ℤ → ℕ → Process → Process × List Action → Type 0
Closes i n p r =
    (completions r.1 ≡ (if nat_beq n (length p.connections) then 1 else 0))
    × (is_some (lookup i r.0.snapshots) ≡ not (nat_beq n (length p.connections)))

run_markers-Closes :
    (i : ℤ) (ss : List ℕ) (snapshot : SnapshotState) (p : Process)
    → lookup i p.snapshots ≡ some snapshot
    → Distinct ss
    → All (IsOpen snapshot) ss
    → size snapshot.closed_channels < length p.connections
    → size snapshot.closed_channels + length ss ≤ length p.connections
    → Closes i (size snapshot.closed_channels + length ss) p (run_markers i ss p)
unfolding run_markers completions delete
run_markers-Closes i [] snapshot p h d o k l = ground arith
run_markers-Closes i (s ∷ []) snapshot p h d o k l =
    elim (beq_cases (size snapshot.closed_channels + 1) (length p.connections)) [
      | inl q ↦
          let last = handle_marker_last s i snapshot p h o.0 q.1 in
          let gone = lookup-delete_where (λ j. j == i) i p.snapshots in
          let same = beq_self i in ground (arith, last, gone, same)
      | inr q ↦
          let shut = handle_marker_open s i snapshot p h o.0 q.1 in
          let there = lookup-insert_self i (closed_by s snapshot) p.snapshots in
          ground (arith, shut, there)
    ]
run_markers-Closes i (s ∷ t ∷ ss) snapshot p h d o k l =
    let shut = handle_marker_open s i snapshot p h o.0 (λ q. omega arith) in
    let there = lookup-insert_self i (closed_by s snapshot) p.snapshots in
    let grown = size-insert_new s true snapshot.closed_channels o.0 in
    let rest =
      run_markers-Closes i (t ∷ ss) (closed_by s snapshot)
        (record p { snapshots = insert i (closed_by s snapshot) p.snapshots }) there d.1
        (closed_by-IsOpen snapshot s (t ∷ ss) d.0 o.1) (omega arith) (omega arith) in
    ground (arith, shut, rest, grown)

abbrev pub fresh : ℤ → Process → SnapshotState
fresh i p = record {
  id = i;
  state = p.state;
  has_token = p.has_token;
  closed_channels = [];
  recorded_messages = [];
}

fresh-IsOpen : (i : ℤ) (p : Process) (ss : List ℕ) → All (IsOpen (fresh i p)) ss
unfolding lookup
fresh-IsOpen i p [] = tt
fresh-IsOpen i p (s ∷ ss) = (refl, fresh-IsOpen i p ss)

-- The first marker of a snapshot starts it.
handle_marker_fresh :
    (s : ℕ) (i : ℤ) (p : Process)
    → lookup i p.snapshots ≡ none
    → handle_marker s i p ≡ (
      (handle_marker s i (initialize_snapshot i p).0).0,
      (initialize_snapshot i p).1 ++ (handle_marker s i (initialize_snapshot i p).0).1,
    )
unfolding handle_marker initialize_snapshot
handle_marker_fresh s i p h = ground (arith, lookup-insert_self i (fresh i p) p.snapshots)

-- At a process without the snapshot, markers of it from distinct processes, at most as many as there
-- are connections, complete it once if they are as many, and then it is gone; if they are fewer it
-- is there and not completed.
pub run_markers_completes :
    (i : ℤ) (s : ℕ) (ss : List ℕ) (p : Process)
    → lookup i p.snapshots ≡ none
    → Distinct (s ∷ ss)
    → length (s ∷ ss) ≤ length p.connections
    → Closes i (length (s ∷ ss)) p (run_markers i (s ∷ ss) p)
unfolding run_markers completions initialize_snapshot
run_markers_completes i s ss p h d l =
    let started = (initialize_snapshot i p).0 in
    let there = lookup-insert_self i (fresh i p) p.snapshots in
    let rest =
      run_markers-Closes i (s ∷ ss) (fresh i p) started there d (fresh-IsOpen i p (s ∷ ss))
        (omega arith) (omega arith) in
    ground (arith, handle_marker_fresh s i p h, rest)

-- A start of a snapshot forgets every channel that is closed: whatever the process has of the snapshot
-- already, fewer markers than it has connections, from distinct processes, do not complete it behind
-- the start.
pub initialize_snapshot_restarts :
    (i : ℤ) (ss : List ℕ) (p : Process)
    → Distinct ss
    → length ss < length p.connections
    → (completions (run_markers i ss (initialize_snapshot i p).0).1 ≡ 0)
      × (is_some (lookup i (run_markers i ss (initialize_snapshot i p).0).0.snapshots) ≡ true)
unfolding initialize_snapshot
initialize_snapshot_restarts i ss p d l =
    let started = (initialize_snapshot i p).0 in
    let there = lookup-insert_self i (fresh i p) p.snapshots in
    let rest =
      run_markers-Closes i ss (fresh i p) started there d (fresh-IsOpen i p ss) (omega arith)
        (omega arith) in
    ground (arith, rest)
