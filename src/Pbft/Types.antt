-- ===== src/Pbft/Types.antt =====
-- project/oracle/pkg/consensus/types.go, and NewPBFT of pbft.go.
use lab.Base.{
  ℕ, ◌-◌, ◌/◌, Bool, true, false, String, List, [], ◌∷◌, Option, none, some, Map, length, ◌==◌,
  string_eq, lookup, nat_eq, ◌&&◌, nat_beq,
}

-- []byte
abbrev pub Bytes : Type 0
Bytes = List ℕ

-- bytes.Equal
unfoldable pub bytes_equal : Bytes → Bytes → Bool
bytes_equal [] [] = true
bytes_equal (a ∷ as') (b ∷ bs) = nat_beq a b && bytes_equal as' bs
bytes_equal _ _ = false

-- `unknown` is any integer that is none of the constants.
pub data MessageType : Type 0 where
  pre_prepare prepare commit view_change new_view state_transfer unknown : MessageType

-- `other` is any integer that is none of the constants.
pub data PbftState : Type 0 where
  normal changing_view transferring other : PbftState

pub record ConsensusMessage : Type 0 where
  pub type : MessageType
  pub node_id : String
  pub view : ℕ  -- uint64
  pub sequence : ℕ  -- uint64
  pub digest : Bytes
  pub payload : Bytes

pub record ConsensusResult : Type 0 where
  pub sequence : ℕ
  pub payload : Bytes
  pub digest : Bytes

pub record ViewChangeData : Type 0 where
  pub new_view : ℕ
  pub last_seq : ℕ
  pub checkpoint : Bytes

-- map[string]*ConsensusMessage, and such maps by sequence or view number.
abbrev pub Entries : Type 0
Entries = Map String ConsensusMessage

abbrev pub Log : Type 0
Log = Map ℕ Entries

-- *time.Timer: nil, running, or run out.
pub data Timer : Type 0 where
  unset armed fired : Timer

pub record Pbft : Type 0 where
  pub node_id : String
  pub nodes : List String
  pub has_network : Bool  -- networkManager != nil
  pub timeout : ℕ
  pub view_change_timeout : ℕ
  pub checkpoint_interval : ℕ  -- uint64
  pub view : ℕ  -- uint64
  pub sequence : ℕ  -- uint64
  pub state : PbftState
  pub is_leader : Bool
  pub last_checkpoint : Bytes
  pub last_checkpoint_seq : ℕ
  pub prepare_messages : Log
  pub commit_messages : Log
  pub view_change_msgs : Log
  pub checkpoints : Map ℕ Bytes
  pub consensus_reached : Map ℕ Bool
  pub msg_chan : List ConsensusMessage  -- oldest first; behind chan_capacity, those that wait
  pub has_callback : Bool  -- resultCallback != nil
  pub f : ℕ
  pub view_timer : Timer

-- What the engine does to the outside: a message handed to the transport, and a call of the
-- result callback.
pub data Action : Type 0 where
  broadcast_message : ConsensusMessage → Action
  deliver_result : ConsensusResult → Action

pub data Error : Type 0 where
  invalid_message invalid_sender invalid_sequence invalid_view : Error
  non_leader_pre_prepare stale_view unknown_message_type : Error
  not_leader no_network transport_failed : Error

-- Code that is not the repository's: crypto/sha256, and encoding/json at two record types.
pub record Library : Type 0 where
  pub sha256 : Bytes → Bytes
  pub marshal_view_change : ViewChangeData → Option Bytes
  pub unmarshal_view_change : Bytes → Option ViewChangeData
  pub marshal_checkpoint : ℕ → Bytes → Bytes

-- make(chan *ConsensusMessage, 1000)
abbrev pub chan_capacity : ℕ
chan_capacity = 1000

-- NewPBFT; `nodes[0]` panics on an empty list.
unfoldable pub new_pbft : String → List String → ℕ → Option Pbft
new_pbft node_id [] timeout = none
new_pbft node_id (leader ∷ rest) timeout = some (record {
  node_id = node_id;
  nodes = leader ∷ rest;
  has_network = false;
  timeout = timeout;
  view_change_timeout = 0;
  checkpoint_interval = 100;
  view = 0;
  sequence = 0;
  state = normal;
  is_leader = node_id == leader;
  last_checkpoint = [];
  last_checkpoint_seq = 0;
  prepare_messages = [];
  commit_messages = [];
  view_change_msgs = [];
  checkpoints = [];
  consensus_reached = [];
  msg_chan = [];
  has_callback = false;
  f = (length (leader ∷ rest) - 1) / 3;
  view_timer = unset;
})

-- The entries under a number, none if the outer map lacks it.
unfoldable pub entries : ℕ → Log → Entries
entries seq log = elim (lookup seq log) [ none ↦ [] | some es ↦ es ]
