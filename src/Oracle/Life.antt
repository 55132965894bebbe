-- ===== src/Oracle/Life.antt =====
-- The life of a node in project/oracle/pkg/types/node.go.
use lab.Base.{◌≡◌, refl, Bool, true, false, String, List, [], ◌∷◌, Option, none, some, ap, ◌∙◌}

pub data NodeState : Type 0 where
  initial running stopped : NodeState

pub record LifeNode : Type 0 where
  pub id : String
  pub state : NodeState
  pub is_cancelled : Bool  -- the context

pub data LifeError : Type 0 where
  already_started not_running : LifeError

-- NewNode
unfoldable pub new_node : String → LifeNode
new_node id = record { id = id; state = initial; is_cancelled = false }

unfoldable pub start_from : NodeState → LifeNode → LifeNode × Option LifeError
start_from initial n = (record n { state = running }, none)
start_from running n = (n, some already_started)
start_from stopped n = (n, some already_started)

unfoldable pub stop_from : NodeState → LifeNode → LifeNode × Option LifeError
stop_from initial n = (n, some not_running)
stop_from running n = (record n { state = stopped; is_cancelled = true }, none)
stop_from stopped n = (n, some not_running)

-- Start and Stop
unfoldable pub start_node : LifeNode → LifeNode × Option LifeError
start_node n = start_from n.state n

unfoldable pub stop_node : LifeNode → LifeNode × Option LifeError
stop_node n = stop_from n.state n

pub data Call : Type 0 where
  call_start call_stop : Call

unfoldable pub call : Call → LifeNode → LifeNode × Option LifeError
unfolding start_node start_from stop_node stop_from
call call_start n = start_node n
call call_stop n = stop_node n

unfoldable pub calls : List Call → LifeNode → LifeNode
calls [] n = n
calls (c ∷ cs) n = calls cs (call c n).0

abbrev pub is_stopped : NodeState → Bool
is_stopped stopped = true
is_stopped _ = false

call_from-cancelled :
    (c : Call) (t : NodeState) (n : LifeNode)
    → n.state ≡ t
    → n.is_cancelled ≡ is_stopped t
    → (call c n).0.is_cancelled ≡ is_stopped (call c n).0.state
unfolding call
call_from-cancelled call_start initial n e h = rw (e, call, start_node) h
call_from-cancelled call_start running n e h = rw (e, call, start_node) h
call_from-cancelled call_start stopped n e h = rw (e, call, start_node) h
call_from-cancelled call_stop initial n e h = rw (e, call, stop_node) h
call_from-cancelled call_stop running n e h = rw (e, call, stop_node) refl
call_from-cancelled call_stop stopped n e h = rw (e, call, stop_node) h

-- After any calls, the context of a node is cancelled exactly when it has stopped.
pub calls-cancelled :
    (cs : List Call) (n : LifeNode)
    → n.is_cancelled ≡ is_stopped n.state
    → (calls cs n).is_cancelled ≡ is_stopped (calls cs n).state
unfolding calls
calls-cancelled [] n h = h
calls-cancelled (c ∷ cs) n h =
    calls-cancelled cs (call c n).0 (call_from-cancelled c n.state n refl h)

call-stopped : (c : Call) (n : LifeNode) → n.state ≡ stopped → (call c n).0 ≡ n
unfolding call
call-stopped call_start n h = rw (h, start_node)
call-stopped call_stop n h = rw (h, stop_node)

-- A node that has stopped refuses every call: none changes it.
pub calls-stopped : (cs : List Call) (n : LifeNode) → n.state ≡ stopped → calls cs n ≡ n
unfolding calls
calls-stopped [] n h = refl
calls-stopped (c ∷ cs) n h = ap (calls cs) (call-stopped c n h) ∙ calls-stopped cs n h
