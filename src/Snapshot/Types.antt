-- ===== src/Snapshot/Types.antt =====
-- The data of lab2/src/main.go and lab2/src/snapshot.go. Process numbers count from 1; snapshot
-- numbers are any Go integers, since a flag names them.
use lab.Base.{
  ℕ, zero, suc, ◌+◌, ◌-◌, ◌%◌, Bool, String, List, [], ◌∷◌, Map, ℤ, pos, negsuc, if◌then◌else◌, ltb,
  ◌*◌, ◌/◌, nat_beq, ◌++◌,
}

pub record SnapshotState : Type 0 where
  pub id : ℤ
  pub state : ℕ
  pub has_token : Bool
  pub closed_channels : Map ℕ Bool
  pub recorded_messages : Map ℕ (List String)

-- `connections` holds the numbers of the processes behind the open connections.
pub record Process : Type 0 where
  pub id : ℕ
  pub state : ℕ
  pub predecessor : ℕ
  pub successor : ℕ
  pub connections : List ℕ
  pub has_token : Bool
  pub snapshots : Map ℤ SnapshotState
  pub snapshot_trigger : ℤ

-- What a process does: a packed message written to a peer, the lines printed, and the goroutine that
-- sends the markers.
pub data Action : Type 0 where
  write : ℕ → ℤ → Action
  token_passed : ℕ → ℕ → Action
  state_printed : ℕ → Action
  snapshot_started : ℤ → Action
  marker_sent : ℤ → ℕ → ℕ → Bool → Action
  channel_closed : ℤ → ℕ → List String → Action
  snapshot_complete : ℤ → Action
  invalid : ℤ → Action
  go_send_markers : ℤ → Action

abbrev pub token_msg : ℕ
token_msg = 1

abbrev pub marker_msg : ℕ
marker_msg = 2

-- The conversion to int32 of the bits of a natural number, and back to uint32.
abbrev pub to_int32 : ℕ → ℤ
to_int32 n =
    if ltb (n % 4294967296) 2147483648
    then pos (n % 4294967296)
    else negsuc (4294967295 - n % 4294967296)

abbrev pub to_uint32 : ℤ → ℕ
to_uint32 (pos n) = n % 4294967296
to_uint32 (negsuc n) = 4294967295 - n % 4294967296

-- snapshotID & 0x3FFFFFFF
abbrev pub low_bits : ℤ → ℕ
low_bits (pos n) = n % 1073741824
low_bits (negsuc n) = 1073741823 - n % 1073741824

-- packMessage. The two parts have no bit in common, so `|` is a sum.
unfoldable pub pack_message : ℕ → ℤ → ℤ
pack_message msg_type snapshot_id = to_int32 (msg_type * 1073741824 + low_bits snapshot_id)

-- unpackMessage
unfoldable pub unpack_message : ℤ → ℕ × ℤ
unpack_message packed = ((to_uint32 packed / 1073741824) % 4, pos (low_bits packed))

-- The numbers of the neighbours that main computes.
unfoldable pub predecessor_of : ℕ → ℕ → ℕ
predecessor_of hosts process_id = (process_id + hosts - 2) % hosts + 1

unfoldable pub successor_of : ℕ → ℕ → ℕ
successor_of hosts process_id = process_id % hosts + 1

-- The numbers of the other hosts, to which setupConnections connects.
unfoldable pub others : ℕ → ℕ → List ℕ
others process_id zero = []
others process_id (suc n) =
    if nat_beq (suc n) process_id then others process_id n else others process_id n ++ (suc n ∷ [])

-- The process of main behind its start-up.
unfoldable pub new_process : ℕ → ℕ → Bool → ℤ → Process
new_process hosts process_id has_initial_token snapshot_trigger = record {
  id = process_id;
  state = 0;
  predecessor = predecessor_of hosts process_id;
  successor = successor_of hosts process_id;
  connections = others process_id hosts;
  has_token = has_initial_token;
  snapshots = [];
  snapshot_trigger = snapshot_trigger;
}
