-- ===== src/Pbft/System/Refinement.antt =====
-- The group of engines of project/oracle/pkg/consensus/pbft.go refines the ledger.
use lab.Pbft.System.Implements.{
  IsStart, Implements, Proposed, set_engine-all, set_engine-Implements, IsIn-IsKnown,
  quiet-Implements, start-Implements, fresh-none, IsKnown-propose_in,
}
use lab.Pbft.Engine.{Event, step, receive, propose, restore, take, time_out}
use lab.Pbft.System.Flow.{IsKnown, proposal, propose_value-cases}
use lab.Base.{
  ◌≡◌, List, [], ◌∷◌, All, String, true, beq_cases, some, inl, nat_eq, ◌<◌, inr, string_eq, sym,
  ◌∙◌, refl, subst, none, arith, lookup-insert, ◌+◌, lookup-insert_self, beq_self, Option, u64_mod,
  ◌⊎◌,
}
use lab.Pbft.Types.{Pbft, ConsensusMessage, Action, Library, Bytes, unset, broadcast_message, Error}
use lab.Pbft.System.Ledger.{
  Ledger, LedgerReach, ledger_here, LedgerReach-trans, ledger_next, propose_in, proposed,
  empty_ledger,
}
use lab.Pbft.System.Network.{
  World, WorldStep, WorldReach, set_engine, put_all, put_action, act, IsAllowed, next, here,
}

module _ (lib : Library) where
  -- A proposal that the leader sends.
  proposal-Implements :
      (leader : String) (value : Bytes) (q : Pbft) (l : Ledger) (w : World)
      → Implements leader l w
      → q.msg_chan ≡ (w.engines leader).msg_chan
      → q.view_timer ≡ (w.engines leader).view_timer
      → q.is_leader ≡ (w.engines leader).is_leader
      → q.sequence ≡ (w.engines leader).sequence + 1
      → Implements leader (propose_in (w.engines leader).sequence value l) (
          put_action leader
            (broadcast_message (proposal lib value (w.engines leader)))
            (set_engine leader q w))
  unfolding set_engine put_action propose_in
  proposal-Implements leader value q l w i queue timer lead grows =
      let seq = (w.engines leader).sequence in
      let n = fresh-none l seq i.fresh in
      let new = propose_in seq value l in
      record {
        leaders =
            set_engine-all (λ j p. p.is_leader ≡ true → j ≡ leader) leader q w
              (λ h. i.leaders leader (sym lead ∙ h)) i.leaders;
        timers =
            set_engine-all (λ j p. p.view_timer ≡ unset) leader q w (timer ∙ i.timers leader)
              i.timers;
        queues =
            set_engine-all (λ j p. All (IsKnown (Proposed new)) p.msg_chan) leader q w
              (subst (All (IsKnown (Proposed new))) (sym queue)
                (IsKnown-propose_in l seq value _ n (i.queues leader)))
              (λ j. IsKnown-propose_in l seq value _ n (i.queues j));
        pool = (
          (lookup-insert_self seq value l.proposals, refl),
          IsKnown-propose_in l seq value _ n i.pool,
        );
        fresh = λ j v h. rw (beq_self leader) (elim (beq_cases seq j) [
          | inl e ↦ omega (arith, e.1, grows)
          | inr e ↦
              omega
                (arith, grows, i.fresh j v (rw (lookup-insert seq j value l.proposals, e.0) at h))
        ]);
        results = i.results;
      }

  -- A step that proposes sends nothing, or it is the leader's.
  propose-cases :
      (net : ConsensusMessage → Option Error) (value : Bytes) (p q : Pbft) (out : List Action)
      → ((m : ConsensusMessage) → net m ≡ none)
      → p.sequence + 1 < u64_mod
      → step lib (propose net value) p ≡ some (q, out)
      → (q.msg_chan ≡ p.msg_chan)
        × (q.view_timer ≡ p.view_timer)
        × (q.is_leader ≡ p.is_leader)
        × (((out ≡ []) × (q.sequence ≡ p.sequence))
            ⊎ ((p.is_leader ≡ true)
                × (out ≡ broadcast_message (proposal lib value p) ∷ [])
                × (q.sequence ≡ p.sequence + 1)))
  unfolding step
  propose-cases net value p q out h fits s = ground (arith, propose_value-cases lib net value p h)

  propose-Implements :
      (leader id : String) (net : ConsensusMessage → Option Error) (value : Bytes) (q : Pbft)
      (out : List Action) (l : Ledger) (w : World)
      → Implements leader l w
      → ((m : ConsensusMessage) → net m ≡ none)
      → (w.engines id).sequence + 1 < u64_mod
      → step lib (propose net value) (w.engines id) ≡ some (q, out)
      → (k : Ledger) × LedgerReach l k × Implements leader k (put_all id out (set_engine id q w))
  unfolding put_all
  propose-Implements leader id net value q out l w i h fits s =
      let p = w.engines id in
      let (queue, timer, lead, sent) = propose-cases net value p q out h fits s in
      elim sent [
        | inl (silent, same) ↦
            subst
              (λ o.
                (k : Ledger) × LedgerReach l k
                × Implements leader k (put_all id o (set_engine id q w)))
              (sym silent)
              (
                l,
                ledger_here,
                set_engine-Implements leader id l q w i lead (timer ∙ i.timers id)
                    (subst (All (IsKnown (Proposed l))) (sym queue) (i.queues id)) (omega arith),
              )
        | inr (leads, one, grows) ↦
            let here_leads = i.leaders id leads in
            let there = subst (λ j. Implements j l w) (sym here_leads) i in
            let new = propose_in p.sequence value l in
            let sent_there = proposal-Implements id value q l w there queue timer lead grows in
            subst
              (λ o.
                (k : Ledger) × LedgerReach l k
                × Implements leader k (put_all id o (set_engine id q w)))
              (sym one)
              (
                new,
                ledger_next ledger_here
                    (proposed p.sequence value (fresh-none l p.sequence there.fresh)),
                subst
                    (λ j. Implements j new (
                      put_action id (broadcast_message (proposal lib value p)) (set_engine id q w)))
                    here_leads sent_there,
              )
      ]

  -- Every step of the group is some steps of the ledger.
  step-Implements :
      (leader : String) (l : Ledger) (w v : World)
      → Implements leader l w
      → WorldStep lib w v
      → (k : Ledger) × LedgerReach l k × Implements leader k v
  step-Implements leader l w v i (act id e q out allowed s) = by_event e allowed s
    where
      by_event :
          (e : Event)
          → IsAllowed w (w.engines id) e
          → step lib e (w.engines id) ≡ some (q, out)
          → (k : Ledger) × LedgerReach l k
            × Implements leader k (put_all id out (set_engine id q w))
      by_event (receive none) a s = quiet-Implements lib leader id (receive none) q out l w i tt s
      by_event (receive (some m)) a s =
          quiet-Implements lib leader id (receive (some m)) q out l w i
            (IsIn-IsKnown l m w.pool a i.pool) s
      by_event take a s = quiet-Implements lib leader id take q out l w i tt s
      by_event (propose net value) a s =
          propose-Implements leader id net value q out l w i a.0 a.1 s
      by_event time_out a s = quiet-Implements lib leader id time_out q out l w i tt s
      by_event (restore sequence view state) a s = absurd a

  -- In every group that starts with at most one leader, unset timers and nothing sent or decided,
  -- that sends no forged messages, fails no broadcast and restores no state, and in which no
  -- proposer's number reaches the end of uint64, the nodes do what the ledger does: it has taken
  -- steps to a ledger with the same decisions, for every order, loss and repetition of messages.
  pub WorldReach-Implements :
      (leader : String) (w v : World)
      → IsStart leader w
      → WorldReach lib w v
      → (l : Ledger) × LedgerReach empty_ledger l × Implements leader l v
  WorldReach-Implements leader w v start here =
      (empty_ledger, ledger_here, start-Implements leader w start)
  WorldReach-Implements leader w v start (next r st) =
      let (l, reached, i) = WorldReach-Implements leader w _ start r in
      let (k, onward, j) = step-Implements leader l _ v i st in
      (k, LedgerReach-trans reached onward, j)
