-- ===== src/Pbft/System/Network.antt =====
-- Engines of project/oracle/pkg/consensus/pbft.go behind one network: an engine acts, and what it
-- broadcasts is in the pool from then on. Any message of the pool may reach any engine, in any order,
-- several times or never.
use lab.Base.{
  ◌≡◌, ◌+◌, ◌<◌, String, List, [], ◌∷◌, none, some, ◌⊎◌, ◌==◌, string_eq, if◌then◌else◌, u64_mod,
}
use lab.Pbft.Types.{Pbft, ConsensusMessage, Action, broadcast_message, deliver_result, Library}
use lab.Pbft.Engine.{Event, receive, take, propose, time_out, restore, step}
use lab.Pbft.System.Ledger.{Decision}

pub record World : Type 0 where
  pub engines : String → Pbft
  pub pool : List ConsensusMessage
  pub results : List Decision  -- newest first

abbrev pub IsIn : ConsensusMessage → List ConsensusMessage → Type 0
IsIn m [] = ⊥
IsIn m (n ∷ pool) = (n ≡ m) ⊎ IsIn m pool

-- What may happen to an engine: no forged messages, no failed broadcast and no restored state; and a
-- leader's number does not reach the end of uint64.
abbrev pub IsAllowed : World → Pbft → Event → Type 0
IsAllowed w p (receive none) = Unit
IsAllowed w p (receive (some m)) = IsIn m w.pool
IsAllowed w p take = Unit
IsAllowed w p (propose net value) =
    ((m : ConsensusMessage) → net m ≡ none) × (p.sequence + 1 < u64_mod)
IsAllowed w p time_out = Unit
IsAllowed w p (restore sequence view state) = ⊥

unfoldable pub put_action : String → Action → World → World
put_action id (broadcast_message m) w = record w { pool = m ∷ w.pool }
put_action id (deliver_result r) w = record w {
  results = record { node_id = id; sequence = r.sequence; payload = r.payload } ∷ w.results;
}

unfoldable pub put_all : String → List Action → World → World
unfolding put_action
put_all id [] w = w
put_all id (a ∷ out) w = put_all id out (put_action id a w)

unfoldable pub set_engine : String → Pbft → World → World
set_engine id q w = record w { engines = λ j. if j == id then q else w.engines j }

pub data WorldStep (lib : Library) (w : World) : World → Type 0 where
  act :
      (id : String) (e : Event) (q : Pbft) (out : List Action)
      → IsAllowed w (w.engines id) e
      → step lib e (w.engines id) ≡ some (q, out)
      → WorldStep lib w (put_all id out (set_engine id q w))

pub data WorldReach (lib : Library) (w : World) : World → Type 0 where
  here : WorldReach lib w w
  next : {u v : World} → WorldReach lib w u → WorldStep lib u v → WorldReach lib w v
