-- ===== src/Paxos/Types.antt =====
-- The data of lab4/src/main.go, and the parts of Go's library that it calls.
use lab.Base.{ℤ, ℕ, Bool, String, List, Map}

-- The message types of the wire format; `other_type` is any other string.
pub data MessageType : Type 0 where
  prepare prepare_ack accept accept_ack chose other_type : MessageType

pub data Direction : Type 0 where
  sent received chosen : Direction

pub record Message : Type 0 where
  pub peer_id : ℤ
  pub action : Direction
  pub message_type : MessageType
  pub message_value : String
  pub proposal_num : ℤ

-- map[int]map[int]Message
abbrev pub Responses : Type 0
Responses = Map ℤ (Map ℤ Message)

pub record Peer : Type 0 where
  pub id : ℤ
  pub proposer_num : ℤ
  pub current_proposal : ℤ
  pub roles : List String
  pub min_proposal : ℤ
  pub accepted_value : String
  pub accepted_num : ℤ
  pub proposed_value : String
  pub connections : List String  -- the hosts with an open connection
  pub prepare_responses : Responses
  pub accept_responses : Responses
  pub num_acceptors : ℕ
  pub peer_roles : Map String (List String)
  pub has_chosen : Bool
  pub accept_sent : Map ℤ Bool

-- What a peer does to the outside: a line on the log, and a message written to a connection.
pub data Action : Type 0 where
  log_message : Message → Action
  send_to : String → Message → Action

-- Code that is not the repository's: sort.Strings, strings.HasPrefix and TrimPrefix, strconv.Atoi
-- (0 on an error), fmt.Sprintf of a word and a number, and whether net.Dial reaches a host.
pub record Library : Type 0 where
  pub sort_strings : List String → List String
  pub has_prefix : String → String → Bool
  pub trim_prefix : String → String → String
  pub atoi : String → ℤ
  pub format : String → ℤ → String
  pub dial : String → Bool
