-- ===== src/Pbft/System/Schedule.antt =====
-- Schedules for engines of project/oracle/pkg/consensus/pbft.go behind a network, as programs that run.
use mathlib.Core.Option.{some-injective}
use lab.Base.{
  ℕ, ◌+◌, String, List, [], ◌∷◌, Option, none, some, ◌≡◌, get_elem?, ltb, u64_mod, if◌then◌else◌,
  inl, inr, Option-cases, Bool-cases, refl, suc, zero, subst, ltb→lt,
}
use lab.Pbft.Types.{Bytes, ConsensusMessage, Library}
use lab.Pbft.Engine.{Event, receive, take, propose, step}
use lab.Pbft.System.Network.{
  World, IsIn, IsAllowed, put_all, set_engine, WorldStep, act, WorldReach, here, next,
}

-- A move: a node proposes a value, gets the message of the pool at an index, or takes one off its channel.
pub data Move : Type 0 where
  proposes : String → Bytes → Move
  gets : String → ℕ → Move
  takes : String → Move

abbrev pub mover : Move → String
mover (proposes id value) = id
mover (gets id i) = id
mover (takes id) = id

-- The event of a move; none where it may not happen.
abbrev pub event_of : Move → World → Option Event
event_of (proposes id value) w =
    if ltb ((w.engines id).sequence + 1) u64_mod then some (propose (λ _. none) value) else none
event_of (gets id i) w = some (receive (get_elem? w.pool i))
event_of (takes id) w = some take

module _ (lib : Library) where
  -- What a move leaves; none also for a panic.
  unfoldable pub move : Move → World → Option World
  unfolding step put_all set_engine
  move m w = elim (event_of m w) [
    | none ↦ none
    | some e ↦ elim (step lib e (w.engines (mover m))) [
      | none ↦ none
      | some (q, out) ↦ some (put_all (mover m) out (set_engine (mover m) q w))
    ]
  ]

  unfoldable pub drive : List Move → World → Option World
  unfolding move
  drive [] w = some w
  drive (m ∷ ms) w = elim (move m w) [ none ↦ none | some v ↦ drive ms v ]

get_elem?-IsIn :
    (pool : List ConsensusMessage) (i : ℕ) (m : ConsensusMessage)
    → get_elem? pool i ≡ some m
    → IsIn m pool
get_elem?-IsIn [] i m e = cc
get_elem?-IsIn (x ∷ pool) zero m e = inl (some-injective _ _ e)
get_elem?-IsIn (x ∷ pool) (suc i) m e = inr (get_elem?-IsIn pool i m e)

event_of-IsAllowed :
    (m : Move) (w : World) (e : Event) → event_of m w ≡ some e → IsAllowed w (w.engines (mover m)) e
event_of-IsAllowed (takes id) w e h = subst (IsAllowed w (w.engines id)) (some-injective _ _ h) tt
event_of-IsAllowed (gets id i) w e h =
    subst (IsAllowed w (w.engines id)) (some-injective _ _ h) (by_message (get_elem? w.pool i) refl)
  where
    by_message :
        (o : Option ConsensusMessage)
        → get_elem? w.pool i ≡ o
        → IsAllowed w (w.engines id) (receive o)
    by_message none q = tt
    by_message (some m) q = get_elem?-IsIn w.pool i m q
event_of-IsAllowed (proposes id value) w e h =
    elim (Bool-cases (ltb ((w.engines id).sequence + 1) u64_mod)) [
      | inr q ↦ absurd (cc (rw q at h))
      | inl q ↦
          subst (IsAllowed w (w.engines id)) (some-injective _ _ (rw q at h))
            ((λ m. refl), ltb→lt ((w.engines id).sequence + 1) u64_mod q)
    ]

module _ (lib : Library) where
  move-WorldStep : (m : Move) (w v : World) → move lib m w ≡ some v → WorldStep lib w v
  unfolding move
  move-WorldStep m w v h = elim (Option-cases (event_of m w)) [
    | inl q ↦ absurd (cc (rw (q, move) at h))
    | inr (e, q) ↦ elim (Option-cases (step lib e (w.engines (mover m)))) [
      | inl r ↦ absurd (cc (rw (q, r, move) at h))
      | inr ((p, out), r) ↦
          subst (WorldStep lib w) (some-injective _ _ (rw (q, r, move) at h))
            (act (mover m) e p out (event_of-IsAllowed m w e q) r)
    ]
  ]

  drive-from :
      (ms : List Move) (u w v : World)
      → WorldReach lib u w
      → drive lib ms w ≡ some v
      → WorldReach lib u v
  unfolding drive
  drive-from [] u w v r h = subst (WorldReach lib u) (some-injective _ _ h) r
  drive-from (m ∷ ms) u w v r h = elim (Option-cases (move lib m w)) [
    | inl q ↦ absurd (cc (rw (q, drive) at h))
    | inr (x, q) ↦ drive-from ms u x v (next r (move-WorldStep m w x q)) (rw (q, drive) at h)
  ]

  -- What a schedule comes to is reached by steps of the group.
  pub drive-WorldReach :
      (ms : List Move) (w v : World) → drive lib ms w ≡ some v → WorldReach lib w v
  drive-WorldReach ms w v h = drive-from ms w w v here h
