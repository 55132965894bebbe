-- ===== src/Pbft/Quorum.antt =====
-- The votes behind a result in every step of the engine of project/oracle/pkg/consensus/pbft.go, and
-- how the votes of two engines overlap.
use lab.Pbft.Commits.{
  delivered, voters, HasQuorum, Enough, handle_commit-Enough, handle_prepare-Enough,
}
use lab.Pbft.Invariant.Run.{step-Inv}
use lab.Pbft.Engine.{Event, receive, take, propose, time_out, restore, step, take_next, on_timer}
use lab.Base.{
  ◌⊎◌, subst, ℕ, ◌+◌, ◌*◌, ◌≤◌, List, [], ◌∷◌, Option, ◌≡◌, arith, All, length, string_eq, nat_eq,
  Option-cases, common, length-common, length-keys, get_elem?, ◌%◌, All-map, ap, some, inl, inr,
}
use lab.Pbft.Types.{
  deliver_result, broadcast_message, Bytes, Pbft, ConsensusMessage, ConsensusResult, Action,
  Library, entries, commit, Error, MessageType, pre_prepare, prepare, view_change, new_view,
  state_transfer, unknown, Timer, unset, armed, fired,
}
use lab.Pbft.Maintenance.{store}
use lab.Pbft.Handlers.{
  process_new_view, propose_value, handle_pre_prepare, start_view_change, handle_view_change,
  handle_message, dispatch,
}
use lab.Pbft.Votes.{keys-Within}
use lab.Pbft.Invariant.Defs.{is_commit, Inv}

module _ (P : ConsensusResult → Type 0) where
  process_new_view_silent :
      (new : ℕ) (p q : Pbft) (out : List Action)
      → process_new_view new p ≡ some (q, out)
      → All P (delivered out)
  unfolding process_new_view
  process_new_view_silent new p q out e =
      elim (Option-cases (get_elem? p.nodes (new % length p.nodes))) [
        | inl n ↦ absurd (cc (rw (n, process_new_view) at e))
        | inr (l, n) ↦ ground arith
      ]

  module _ (lib : Library) where
    propose_value_silent :
        (net : ConsensusMessage → Option Error) (value : Bytes) (p : Pbft)
        → All P (delivered (propose_value lib net value p).2)
    unfolding propose_value
    propose_value_silent net value p = ground arith

    handle_pre_prepare_silent :
        (m : ConsensusMessage) (p : Pbft) → All P (delivered (handle_pre_prepare lib m p).1)
    unfolding handle_pre_prepare
    handle_pre_prepare_silent m p = ground arith

    start_view_change_silent :
        (new : ℕ) (p : Pbft) → All P (delivered (start_view_change lib new p).1)
    unfolding start_view_change
    start_view_change_silent new p = ground arith

    on_timer_silent : (t : Timer) (p : Pbft) → All P (delivered (on_timer lib t p).1)
    unfolding on_timer
    on_timer_silent unset p = tt
    on_timer_silent fired p = tt
    on_timer_silent armed p = start_view_change_silent _ _

    handle_view_change_silent :
        (m : ConsensusMessage) (p q : Pbft) (out : List Action)
        → handle_view_change lib m p ≡ some (q, out)
        → All P (delivered out)
    unfolding handle_view_change
    handle_view_change_silent m p q out e =
        elim (Option-cases (lib.unmarshal_view_change m.payload)) [
          | inl n ↦ ground arith
          | inr (d, n) ↦ ground (
            arith,
            process_new_view_silent d.new_view
                (record p { view_change_msgs = store d.new_view m.node_id m p.view_change_msgs }) q
                out,
          )
        ]

module _ (lib : Library) where
  dispatch-Enough :
      (t : MessageType) (m : ConsensusMessage) (p q : Pbft) (out : List Action)
      → dispatch lib t m p ≡ some (q, out)
      → All (Enough q) (delivered out)
  unfolding dispatch
  dispatch-Enough pre_prepare m p q out e =
      ground (arith, handle_pre_prepare_silent (Enough q) lib m p)
  dispatch-Enough prepare m p q out e = ground (arith, handle_prepare-Enough lib m p)
  dispatch-Enough commit m p q out e = ground (arith, handle_commit-Enough lib m p)
  dispatch-Enough view_change m p q out e = handle_view_change_silent (Enough q) lib m p q out e
  dispatch-Enough new_view m p q out e =
      ground (arith, process_new_view_silent (Enough q) p.view p q out)
  dispatch-Enough state_transfer m p q out e = ground arith
  dispatch-Enough unknown m p q out e = ground arith

  take_next-Enough :
      (queue : List ConsensusMessage) (p q : Pbft) (out : List Action)
      → take_next lib queue p ≡ some (q, out)
      → All (Enough q) (delivered out)
  unfolding take_next handle_message
  take_next-Enough [] p q out e = ground arith
  take_next-Enough (m ∷ rest) p q out e = dispatch-Enough m.type m _ q out e

  step-Enough :
      (e : Event) (p q : Pbft) (out : List Action)
      → step lib e p ≡ some (q, out)
      → All (Enough q) (delivered out)
  unfolding step
  step-Enough (receive m) p q out h = ground arith
  step-Enough take p q out h = take_next-Enough p.msg_chan p q out h
  step-Enough (propose net value) p q out h =
      ground (arith, propose_value_silent (Enough q) lib net value p)
  step-Enough time_out p q out h = ground (arith, on_timer_silent (Enough q) lib p.view_timer p)
  step-Enough (restore sequence view state) p q out h = ground arith

  -- From a state in the invariant, whenever an event makes the engine hand a result to the callback,
  -- the engine holds a commit quorum for the result's sequence number afterwards.
  pub step-HasQuorum :
      (e : Event) (p q : Pbft) (out : List Action)
      → Inv p
      → step lib e p ≡ some (q, out)
      → All (λ r. HasQuorum q r.sequence) (delivered out)
  step-HasQuorum e p q out v h =
      let kept = step-Inv lib e p q out v h in
      All-map (Enough q) (λ r. HasQuorum q r.sequence)
        (λ r enough. record {
          different = (kept.commits r.sequence).0;
          members = keys-Within is_commit q.nodes r.sequence _ (kept.commits r.sequence).1;
          enough = rw (length-keys (entries r.sequence q.commit_messages)) enough;
          votes = (kept.commits r.sequence).1;
        })
        (delivered out) (step-Enough e p q out h)

-- Two engines with one node list that both hold a commit quorum for a number share at least twice
-- their quorum less the group's size of voters.
HasQuorum-overlap :
    (p q : Pbft) (seq : ℕ)
    → Inv p
    → Inv q
    → q.nodes ≡ p.nodes
    → HasQuorum p seq
    → HasQuorum q seq
    → 4 * p.f + 2 ≤ length p.nodes + length (common (voters seq p) (voters seq q))
HasQuorum-overlap p q seq v w same a b = omega (
  arith,
  length-common (voters seq p) (voters seq q) p.nodes a.different b.different a.members
      (rw same at b.members),
  v.tolerance,
  w.tolerance,
  ap length same,
  a.enough,
  b.enough,
)

-- A result is among the actions.
abbrev pub Delivers : ConsensusResult → List Action → Type 0
Delivers r [] = ⊥
Delivers r (deliver_result s ∷ out) = (s ≡ r) ⊎ Delivers r out
Delivers r (broadcast_message m ∷ out) = Delivers r out

Delivers-All :
    (P : ConsensusResult → Type 0) (r : ConsensusResult) (out : List Action)
    → All P (delivered out)
    → Delivers r out
    → P r
Delivers-All P r [] h d = absurd d
Delivers-All P r (deliver_result s ∷ out) h (inl e) = subst P e h.0
Delivers-All P r (deliver_result s ∷ out) h (inr d) = Delivers-All P r out h.1 d
Delivers-All P r (broadcast_message m ∷ out) h d = Delivers-All P r out h d

-- When two engines in the invariant, which have one node list afterwards, each hand a result for the
-- same number to the callback, at any event each, they share at least twice their quorum less the
-- group's size of voters for this number.
pub step-Overlap :
    (lib other : Library) (d e : Event) (p q p2 q2 : Pbft) (out sent : List Action)
    (r s : ConsensusResult)
    → Inv p
    → Inv q
    → step lib d p ≡ some (p2, out)
    → step other e q ≡ some (q2, sent)
    → Delivers r out
    → Delivers s sent
    → s.sequence ≡ r.sequence
    → q2.nodes ≡ p2.nodes
    → 4 * p2.f + 2 ≤ length p2.nodes + length (common (voters r.sequence p2) (voters r.sequence q2))
step-Overlap lib other d e p q p2 q2 out sent r s v w g h a b same nodes =
    let first =
      Delivers-All (λ x. HasQuorum p2 x.sequence) r out (step-HasQuorum lib d p p2 out v g) a in
    let second =
      Delivers-All (λ x. HasQuorum q2 x.sequence) s sent (step-HasQuorum other e q q2 sent w h) b in
    HasQuorum-overlap p2 q2 r.sequence (step-Inv lib d p p2 out v g)
      (step-Inv other e q q2 sent w h) nodes first (subst (HasQuorum q2) same second)
