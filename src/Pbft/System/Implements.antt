-- ===== src/Pbft/System/Implements.antt =====
-- When a group of engines implements a ledger (Ledger), and that steps which propose nothing keep it.
use lab.Pbft.Engine.{Event, step}
use lab.Pbft.System.Flow.{Carries, IsKnown, Brings, step-Flows}
use lab.Base.{
  ◌≡◌, ℕ, List, [], ◌∷◌, All, String, lookup, true, beq_cases, some, inl, nat_eq, ◌≤◌, ◌<◌, inr,
  string_eq, sym, ◌∙◌, refl, ap, subst, none, arith, All-map, Option-cases, lookup-insert,
}
use lab.Pbft.Types.{
  Pbft, ConsensusMessage, Action, Library, Bytes, unset, broadcast_message, deliver_result,
}
use lab.Pbft.System.Ledger.{
  Ledger, LedgerReach, Decision, ledger_here, decide_in, LedgerReach-trans, ledger_next, decided,
  propose_in, empty_ledger,
}
use lab.Pbft.System.Network.{World, set_engine, put_all, put_action, IsIn}

-- A group at its start: one leader, timers unset, and nothing sent or decided.
pub record IsStart (leader : String) (w : World) : Type 0 where
  pub leaders : (id : String) → (w.engines id).is_leader ≡ true → id ≡ leader
  pub timers : (id : String) → (w.engines id).view_timer ≡ unset
  pub queues : (id : String) → (w.engines id).msg_chan ≡ []
  pub pool : w.pool ≡ []
  pub results : w.results ≡ []

-- The payload of a number in the ledger.
abbrev pub Proposed : Ledger → ℕ → Bytes → Type 0
Proposed l seq payload = lookup seq l.proposals ≡ some payload

-- A ledger that a group of engines implements.
pub record Implements (leader : String) (l : Ledger) (w : World) : Type 0 where
  pub leaders : (id : String) → (w.engines id).is_leader ≡ true → id ≡ leader
  pub timers : (id : String) → (w.engines id).view_timer ≡ unset
  pub queues : (id : String) → All (IsKnown (Proposed l)) (w.engines id).msg_chan
  pub pool : All (IsKnown (Proposed l)) w.pool
  pub fresh : (seq : ℕ) (v : Bytes) → Proposed l seq v → seq < (w.engines leader).sequence
  pub results : w.results ≡ l.decisions

-- All engines have a property if the one that changes has it.
pub set_engine-all :
    (P : String → Pbft → Type 0) (id : String) (q : Pbft) (w : World)
    → P id q
    → ((j : String) → P j (w.engines j))
    → (j : String) → P j ((set_engine id q w).engines j)
unfolding set_engine
set_engine-all P id q w h all j = elim (beq_cases j id) [
  | inl e ↦ rw (e.0, e.1) h
  | inr e ↦ rw e.0 (all j)
]

pub set_engine-Implements :
    (leader id : String) (l : Ledger) (q : Pbft) (w : World)
    → Implements leader l w
    → (q.is_leader ≡ (w.engines id).is_leader)
    → q.view_timer ≡ unset
    → All (IsKnown (Proposed l)) q.msg_chan
    → (w.engines id).sequence ≤ q.sequence
    → Implements leader l (set_engine id q w)
unfolding set_engine
set_engine-Implements leader id l q w i lead timer queue grows = record {
  leaders =
      set_engine-all (λ j p. p.is_leader ≡ true → j ≡ leader) id q w
        (λ h. i.leaders id (sym lead ∙ h)) i.leaders;
  timers = set_engine-all (λ j p. p.view_timer ≡ unset) id q w timer i.timers;
  queues = set_engine-all (λ j p. All (IsKnown (Proposed l)) p.msg_chan) id q w queue i.queues;
  pool = i.pool;
  fresh = λ seq v h.
      set_engine-all (λ j p. j ≡ leader → seq < p.sequence) id q w
        (λ e. omega (arith, i.fresh seq v h, ap (λ j. (w.engines j).sequence) e))
        (λ j e. rw e (i.fresh seq v h)) leader refl;
  results = i.results;
}

pub put_all-Implements :
    (leader id : String) (out : List Action) (l : Ledger) (w : World)
    → Implements leader l w
    → All (Carries (Proposed l)) out
    → (k : Ledger) × LedgerReach l k × Implements leader k (put_all id out w)
unfolding put_all decide_in
put_all-Implements leader id [] l w i h = (l, ledger_here, i)
put_all-Implements leader id (broadcast_message m ∷ out) l w i h =
    put_all-Implements leader id out l (put_action id (broadcast_message m) w)
      (record {
        leaders = i.leaders;
        timers = i.timers;
        queues = i.queues;
        pool = (h.0, i.pool);
        fresh = i.fresh;
        results = i.results;
      })
      h.1
put_all-Implements leader id (deliver_result r ∷ out) l w i h =
    let d : Decision = record { node_id = id; sequence = r.sequence; payload = r.payload } in
    let (k, reached, kept) =
      put_all-Implements leader id out (decide_in d l) (put_action id (deliver_result r) w)
        (record {
          leaders = i.leaders;
          timers = i.timers;
          queues = i.queues;
          pool = i.pool;
          fresh = i.fresh;
          results = ap (λ ds. d ∷ ds) i.results;
        })
        h.1 in
    (k, LedgerReach-trans (ledger_next ledger_here (decided d h.0)) reached, kept)

-- A message of the pool is known.
pub IsIn-IsKnown :
    (l : Ledger) (m : ConsensusMessage) (pool : List ConsensusMessage)
    → IsIn m pool
    → All (IsKnown (Proposed l)) pool
    → IsKnown (Proposed l) m
IsIn-IsKnown l m [] k h = absurd k
IsIn-IsKnown l m (n ∷ pool) (inl e) h = subst (IsKnown (Proposed l)) e h.0
IsIn-IsKnown l m (n ∷ pool) (inr k) h = IsIn-IsKnown l m pool k h.1

module _ (lib : Library) where
  -- A step of an engine that proposes nothing.
  pub quiet-Implements :
      (leader id : String) (e : Event) (q : Pbft) (out : List Action) (l : Ledger) (w : World)
      → Implements leader l w
      → Brings (Proposed l) lib e
      → step lib e (w.engines id) ≡ some (q, out)
      → (k : Ledger) × LedgerReach l k × Implements leader k (put_all id out (set_engine id q w))
  quiet-Implements leader id e q out l w i b s =
      let (flows, grows) =
        step-Flows (Proposed l) lib e (w.engines id) q out b (i.timers id) (i.queues id) s in
      put_all-Implements leader id out l (set_engine id q w)
        (set_engine-Implements leader id l q w i flows.leader flows.timer flows.queue grows)
        flows.silent

pub start-Implements :
    (leader : String) (w : World) → IsStart leader w → Implements leader empty_ledger w
unfolding lookup
start-Implements leader w start = record {
  leaders = start.leaders;
  timers = start.timers;
  queues = λ id. subst (All (IsKnown (Proposed empty_ledger))) (sym (start.queues id)) tt;
  pool = subst (All (IsKnown (Proposed empty_ledger))) (sym start.pool) tt;
  fresh = λ seq v h. absurd (cc);
  results = start.results;
}

-- A number above all that are proposed is not proposed.
pub fresh-none :
    (l : Ledger) (seq : ℕ)
    → ((j : ℕ) (v : Bytes) → Proposed l j v → j < seq)
    → lookup seq l.proposals ≡ none
fresh-none l seq h = elim (Option-cases (lookup seq l.proposals)) [
  | inl n ↦ n
  | inr (v, n) ↦ absurd (omega (arith, h seq v n))
]

-- What is proposed stays so behind a proposal for a fresh number.
pub Proposed-propose_in :
    (l : Ledger) (seq j : ℕ) (value v : Bytes)
    → lookup seq l.proposals ≡ none
    → Proposed l j v
    → Proposed (propose_in seq value l) j v
unfolding propose_in
Proposed-propose_in l seq j value v n h = elim (beq_cases seq j) [
  | inl e ↦ absurd (cc)
  | inr e ↦ rw (lookup-insert seq j value l.proposals, e.0) h
]

pub IsKnown-propose_in :
    (l : Ledger) (seq : ℕ) (value : Bytes) (ms : List ConsensusMessage)
    → lookup seq l.proposals ≡ none
    → All (IsKnown (Proposed l)) ms
    → All (IsKnown (Proposed (propose_in seq value l))) ms
IsKnown-propose_in l seq value ms n h =
    All-map (IsKnown (Proposed l)) (IsKnown (Proposed (propose_in seq value l)))
      (λ m k. (Proposed-propose_in l seq m.sequence value m.payload n k.0, k.1)) ms h
