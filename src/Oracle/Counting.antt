-- ===== src/Oracle/Counting.antt =====
-- What the verification goroutine of project/oracle/cmd/server/main.go records of the messages.
use lab.Pbft.Types.{pre_prepare, prepare, commit, MessageType}
use lab.Oracle.Server.{SeenMessage, Tracker, mark, note, track, track_type, track_all}
use lab.Base.{
  refl, none, some, ◌==◌, ◌&&◌, ◌||◌, lookup-insert, inl, inr, Option-cases, string_eq, nat_eq, not,
  true, false, String, ℕ, Bool, List, ◌≡◌, Map, ◌∷◌, lookup, insert, [], arith, beq_cases,
  if◌then◌else◌, Option,
}

-- `m[seq][id]`; a missing entry is false.
unfoldable pub is_marked : ℕ → String → Map ℕ (Map String Bool) → Bool
is_marked seq id m = elim (lookup seq m) [
  | none ↦ false
  | some row ↦ elim (lookup id row) [ none ↦ false | some b ↦ b ]
]

unfoldable pub is_received : String → Map String Bool → Bool
is_received id m = elim (lookup id m) [ none ↦ false | some b ↦ b ]

abbrev pub sends_pre_prepare : MessageType → Bool
sends_pre_prepare pre_prepare = true
sends_pre_prepare _ = false

abbrev pub sends_prepare : MessageType → Bool
sends_prepare prepare = true
sends_prepare _ = false

abbrev pub sends_commit : MessageType → Bool
sends_commit commit = true
sends_commit _ = false

-- Whether some message of a kind came at a node, under a number.
unfoldable pub is_seen : (MessageType → Bool) → ℕ → String → List SeenMessage → Bool
is_seen kind seq id [] = false
is_seen kind seq id (msg ∷ msgs) =
    (kind msg.type && ((msg.sequence == seq) && (msg.node_id == id))) || is_seen kind seq id msgs

unfoldable pub is_seen_at : (MessageType → Bool) → String → List SeenMessage → Bool
is_seen_at kind id [] = false
is_seen_at kind id (msg ∷ msgs) = (kind msg.type && (msg.node_id == id)) || is_seen_at kind id msgs

is_received-insert :
    (id asked : String) (m : Map String Bool)
    → is_received asked (insert id true m) ≡ ((id == asked) || is_received asked m)
unfolding is_received
is_received-insert id asked m = ground (arith, lookup-insert id asked true m)

is_marked-insert :
    (seq j : ℕ) (k : String) (row : Map String Bool) (m : Map ℕ (Map String Bool))
    → is_marked j k (insert seq row m)
      ≡ (if seq == j then (elim (lookup k row) [ none ↦ false | some b ↦ b ]) else is_marked j k m)
unfolding is_marked
is_marked-insert seq j k row m = ground (arith, lookup-insert seq j row m)

lookup-nil : (k : String) → ◌≡◌ {A = Option Bool} (lookup k []) none
unfolding lookup
lookup-nil k = refl

is_marked-mark :
    (seq j : ℕ) (id k : String) (m : Map ℕ (Map String Bool))
    → is_marked j k (mark seq id m) ≡ (((seq == j) && (id == k)) || is_marked j k m)
unfolding is_marked mark
is_marked-mark seq j id k m = elim (Option-cases (lookup seq m)) [
  | inl e ↦
      rw (e, mark, is_marked-insert seq j k (insert id true []) m)
        (ground (arith, e, beq_cases seq j, lookup-insert id k true [], lookup-nil k))
  | inr (row, e) ↦
      rw (e, mark, is_marked-insert seq j k (insert id true row) m)
        (ground (arith, e, beq_cases seq j, lookup-insert id k true row))
]

-- What one message adds.
track_lem :
    (leader : String) (seq : ℕ) (id : String) (msg : SeenMessage) (t : Tracker)
    → (is_marked seq id (track leader msg t).prepare_messages ≡ (
        (sends_prepare msg.type && ((msg.sequence == seq) && (msg.node_id == id)))
        || is_marked seq id t.prepare_messages))
      × (is_marked seq id (track leader msg t).commit_messages ≡ (
          (sends_commit msg.type && ((msg.sequence == seq) && (msg.node_id == id)))
          || is_marked seq id t.commit_messages))
      × (is_received id (track leader msg t).pre_prepare_received ≡ (
          (not (id == leader) && (sends_pre_prepare msg.type && (msg.node_id == id)))
          || is_received id t.pre_prepare_received))
unfolding track note
track_lem leader seq id msg t = by_type msg.type
  where
    by_type :
        (k : MessageType)
        → (is_marked seq id (track_type leader k msg (note msg t)).prepare_messages ≡ (
            (sends_prepare k && ((msg.sequence == seq) && (msg.node_id == id)))
            || is_marked seq id t.prepare_messages))
          × (is_marked seq id (track_type leader k msg (note msg t)).commit_messages ≡ (
              (sends_commit k && ((msg.sequence == seq) && (msg.node_id == id)))
              || is_marked seq id t.commit_messages))
          × (is_received id (track_type leader k msg (note msg t)).pre_prepare_received ≡ (
              (not (id == leader) && (sends_pre_prepare k && (msg.node_id == id)))
              || is_received id t.pre_prepare_received))
    by_type pre_prepare = ground (
      arith,
      beq_cases msg.node_id leader,
      beq_cases msg.node_id id,
      beq_cases id leader,
      is_received-insert msg.node_id id t.pre_prepare_received,
    )
    by_type prepare =
        ground (arith, is_marked-mark msg.sequence seq msg.node_id id t.prepare_messages)
    by_type commit =
        ground (arith, is_marked-mark msg.sequence seq msg.node_id id t.commit_messages)
    by_type _ = ground arith

-- Behind any messages, the goroutine has a prepare or a commit of a node under a number exactly if it had
-- it before or such a message came at the node, and a pre-prepare of a node exactly if it had it before
-- or one came at the node and the node is not the leader.
pub track_all_lem :
    (leader : String) (seq : ℕ) (id : String) (msgs : List SeenMessage) (t : Tracker)
    → (is_marked seq id (track_all leader msgs t).prepare_messages
        ≡ (is_seen sends_prepare seq id msgs || is_marked seq id t.prepare_messages))
      × (is_marked seq id (track_all leader msgs t).commit_messages
          ≡ (is_seen sends_commit seq id msgs || is_marked seq id t.commit_messages))
      × (is_received id (track_all leader msgs t).pre_prepare_received ≡ (
          (not (id == leader) && is_seen_at sends_pre_prepare id msgs)
          || is_received id t.pre_prepare_received))
unfolding track_all is_seen is_seen_at
track_all_lem leader seq id [] t = ground arith
track_all_lem leader seq id (msg ∷ msgs) t =
    ground
      (arith, track_lem leader seq id msg t, track_all_lem leader seq id msgs (track leader msg t))
