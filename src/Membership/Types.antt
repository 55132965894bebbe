-- ===== src/Membership/Types.antt =====
-- The data of lab3/src/main.go. Peer and view numbers count from 1 and 0, so they are natural
-- numbers; times are nanoseconds.
use lab.Base.{
  ℕ, ◌*◌, Bool, String, List, [], ◌∷◌, Option, none, Map, nat_beq, if◌then◌else◌, true, add64,
}

pub record Peer : Type 0 where
  pub id : ℕ
  pub hostname : String
  pub is_alive : Bool

-- JOIN, REQ, OK, NEWVIEW and NEWLEADER; `other_kind` is any other number.
pub data Kind : Type 0 where
  join req ok new_view new_leader other_kind : Kind

-- ADD, DELETE, PENDING and NOTHING; `unset` is any other number, as in the zero message.
pub data Operation : Type 0 where
  add delete pending nothing unset : Operation

pub record Message : Type 0 where
  pub kind : Kind
  pub request_id : ℕ
  pub view_id : ℕ
  pub operation : Operation
  pub peer_id : ℕ
  pub peers : Option (List Peer)  -- none is nil

-- The zero value, which a failed exchange returns.
abbrev pub empty_message : Message
empty_message = record {
  kind = other_kind;
  request_id = 0;
  view_id = 0;
  operation = unset;
  peer_id = 0;
  peers = none;
}

-- A view number is a Go int, which wraps around; it is held as its 64 bits, and this is its place in
-- the order of the ints.
abbrev pub order_of : ℕ → ℕ
order_of view_id = add64 view_id 9223372036854775808

-- A process: the membership and the other global variables.
pub record Node : Type 0 where
  pub view_id : ℕ
  pub peers : List Peer
  pub my_id : ℕ
  pub is_leader : Bool
  pub leader_id : ℕ
  pub last_heartbeat : Map ℕ ℕ
  pub removal_requests : List ℕ  -- oldest first
  pub pending_operation : Option Message
  pub id_to_hostname : ℕ → String

-- What a process does to the outside: a message to a peer, a reply on the connection that a message
-- came by, a new goroutine of the leader, and the end of the process.
pub data Action : Type 0 where
  send_to : Peer → Message → Action
  reply : Message → Action
  start_leader_loop : Action
  start_reconciliation : Action

-- HEARTBEAT_INTERVAL and FAILURE_TIMEOUT
abbrev pub heartbeat_interval : ℕ
heartbeat_interval = 2 * 1000000000

abbrev pub failure_timeout : ℕ
failure_timeout = 2 * heartbeat_interval

-- The process of main behind its start-up, for the host at a place of the hosts file.
unfoldable pub start : (ℕ → String) → ℕ → Node
start hosts my_id = record {
  view_id = 0;
  peers =
      if nat_beq my_id 1
      then record { id = my_id; hostname = hosts my_id; is_alive = true } ∷ []
      else [];
  my_id = my_id;
  is_leader = nat_beq my_id 1;
  leader_id = 1;
  last_heartbeat = [];
  removal_requests = [];
  pending_operation = none;
  id_to_hostname = hosts;
}
