-- ===== src/Pbft/System/Tests.antt =====
-- The agreement of a leader and one follower that decide one value.
use lab.Pbft.System.Ledger.{Decision, Ledger, LedgerReach, empty_ledger}
use lab.Pbft.Maintenance.{execute_consensus, cleanup, make_checkpoint, store}
use lab.Pbft.Handlers.{
  handle_message, dispatch, handle_pre_prepare, handle_prepare, commit_own, handle_commit,
  is_reached, broadcast, propose_value,
}
use lab.Pbft.Validate.{process_message, validate, validate_type, accept, advance}
use lab.Pbft.System.Network.{
  World, put_all, IsAllowed, WorldStep, set_engine, act, WorldReach, next, here,
}
use lab.Pbft.System.Agreement.{agreement, IsDecided}
use lab.Pbft.System.Implements.{IsStart, Implements}
use lab.Pbft.System.Refinement.{WorldReach-Implements}
use lab.Pbft.Engine.{Event, step, receive, take, propose, take_next}
use lab.Base.{
  ◌≡◌, String, List, [], ◌∷◌, Option, none, some, true, refl, ◌==◌, eq_of_beq, string_eq, lookup,
  insert, delete_where, arith, inl,
}
use lab.Pbft.Types.{
  Pbft, Bytes, Library, MessageType, ViewChangeData, ConsensusMessage, normal, Action, Error, unset,
  prepare, pre_prepare, entries, bytes_equal,
}

no_change : Bytes → Option ViewChangeData
no_change _ = none

-- A library whose digest is the data itself.
abbrev plain : Library
plain = record {
  sha256 = λ d. d;
  marshal_view_change = λ d. none;
  unmarshal_view_change = no_change;
  marshal_checkpoint = λ seq state. seq ∷ state;
}

abbrev engine : String → Pbft
engine id = record {
  node_id = id;
  nodes = "a" ∷ "b" ∷ [];
  has_network = true;
  timeout = 5;
  view_change_timeout = 0;
  checkpoint_interval = 100;
  view = 0;
  sequence = 0;
  state = normal;
  is_leader = id == "a";
  last_checkpoint = [];
  last_checkpoint_seq = 0;
  prepare_messages = [];
  commit_messages = [];
  view_change_msgs = [];
  checkpoints = [];
  consensus_reached = [];
  msg_chan = [];
  has_callback = true;
  f = 0;
  view_timer = unset;
}

abbrev two : World
two = record { engines = engine; pool = []; results = [] }

two-IsStart : IsStart "a" two
two-IsStart = record {
  leaders = λ id h. eq_of_beq id "a" h;
  timers = λ id. refl;
  queues = λ id. refl;
  pool = refl;
  results = refl;
}

takes_all : ConsensusMessage → Option Error
takes_all _ = none

result : Event → Pbft → Pbft × List Action
result e p = elim (step plain e p) [ none ↦ (p, []) | some r ↦ r ]

after : String → Event → World → World
unfolding result
after id e w = put_all id (result e (w.engines id)).1 (set_engine id (result e (w.engines id)).0 w)

after-WorldStep :
    (id : String) (e : Event) (w : World)
    → IsAllowed w (w.engines id) e
    → step plain e (w.engines id) ≡ some (result e (w.engines id))
    → WorldStep plain w (after id e w)
unfolding after
after-WorldStep id e w allowed s = act id e _ _ allowed s

abbrev vote : MessageType → String → ConsensusMessage
vote t id = record {
  type = t;
  node_id = id;
  view = 0;
  sequence = 0;
  digest = 7 ∷ [];
  payload = 7 ∷ [];
}

w1 : World
w1 = after "a" (propose takes_all (7 ∷ [])) two

w2 : World
unfolding w1
w2 = after "b" (receive (some (vote pre_prepare "a"))) w1

w3 : World
unfolding w2
w3 = after "b" take w2

w4 : World
unfolding w3
w4 = after "a" (receive (some (vote prepare "b"))) w3

w5 : World
unfolding w4
w5 = after "a" take w4

reached : WorldReach plain two w5
unfolding w5 after result step put_all set_engine process_message validate validate_type accept
    advance take_next handle_message dispatch handle_pre_prepare handle_prepare commit_own
    handle_commit execute_consensus cleanup make_checkpoint store entries lookup insert delete_where
    is_reached broadcast bytes_equal propose_value takes_all
reached =
    next
      (next
        (next
          (next
            (next here (
              after-WorldStep "a" (propose takes_all (7 ∷ [])) two ((λ m. refl), omega arith) refl))
            (after-WorldStep "b" (receive (some (vote pre_prepare "a"))) w1 (inl refl) refl))
          (after-WorldStep "b" take w2 tt refl))
        (after-WorldStep "a" (receive (some (vote prepare "b"))) w3 (inl refl) refl))
      (after-WorldStep "a" take w4 tt refl)

abbrev only : Decision
only = record { node_id = "a"; sequence = 0; payload = 7 ∷ [] }

has_only : IsDecided only w5.results
unfolding w5 after result step put_all set_engine process_message validate validate_type accept
    advance take_next handle_message dispatch handle_pre_prepare handle_prepare commit_own
    handle_commit execute_consensus cleanup make_checkpoint store entries lookup insert delete_where
    is_reached broadcast bytes_equal propose_value takes_all
has_only = inl refl

agreement_example : ◌≡◌ {A = Bytes} (7 ∷ []) (7 ∷ [])
agreement_example = agreement plain "a" two w5 only only two-IsStart reached has_only has_only refl

WorldReach-Implements_example : (l : Ledger) × LedgerReach empty_ledger l × Implements "a" l w5
WorldReach-Implements_example = WorldReach-Implements plain "a" two w5 two-IsStart reached
