-- ===== src/Pbft/Invariant/Run.antt =====
-- Every event keeps the invariant, and so does every run.
use lab.Base.{
  List, [], ◌∷◌, Option, none, some, ◌≡◌, refl, All, All-append, arith, string_eq, sym, subst,
  nat_eq,
}
use lab.Pbft.Types.{Pbft, ConsensusMessage, Action, Library, armed, unset, fired, Timer}
use lab.Pbft.Validate.{validate, process_message, accept}
use lab.Pbft.Invariant.Defs.{Inv, FromMember}
use lab.Pbft.Invariant.Handlers.{propose_value-Inv, start_view_change-Inv, handle_message-Inv}
use lab.Pbft.Engine.{
  Event, receive, take, propose, time_out, restore, step, run, take_next, on_timer, run-cons,
}

module _ (msg : ConsensusMessage) (p : Pbft) where
  -- A message that passes the validation is from a member.
  pub validate-FromMember : validate msg p ≡ none → FromMember p.nodes msg
  unfolding validate
  validate-FromMember h = ground arith

  accept-Inv : FromMember p.nodes msg → Inv p → Inv (accept msg p).0
  unfolding accept
  accept-Inv w v =
      ground (arith, All-append (FromMember p.nodes) p.msg_chan (msg ∷ []) v.queue (w, tt))

pub process_message-Inv :
    (m : Option ConsensusMessage) (p : Pbft) → Inv p → Inv (process_message m p).0
unfolding process_message
process_message-Inv none p v = v
process_message-Inv (some msg) p v = ground (
  arith,
  validate-FromMember msg p,
  λ (h : validate msg p ≡ none). accept-Inv msg p (validate-FromMember msg p h) v,
)

module _ (lib : Library) where
  take_next-Inv :
      (queue : List ConsensusMessage) (p q : Pbft) (out : List Action)
      → queue ≡ p.msg_chan
      → Inv p
      → take_next lib queue p ≡ some (q, out)
      → Inv q
  unfolding take_next
  take_next-Inv [] p q out e v h = ground arith
  take_next-Inv (msg ∷ rest) p q out e v h =
      let waiting = subst (All (FromMember p.nodes)) (sym e) v.queue in
      handle_message-Inv lib msg (record p { msg_chan = rest }) q out waiting.0
        (record {
          self = v.self;
          tolerance = v.tolerance;
          queue = waiting.1;
          prepares = v.prepares;
          commits = v.commits;
        })
        h

  on_timer-Inv : (t : Timer) (p : Pbft) → Inv p → Inv (on_timer lib t p).0
  unfolding on_timer
  on_timer-Inv unset p v = v
  on_timer-Inv fired p v = v
  on_timer-Inv armed p v =
      start_view_change-Inv lib _ (record p { view_timer = fired }) (ground arith)

  -- Every event that does not panic keeps the invariant.
  pub step-Inv :
      (e : Event) (p q : Pbft) (out : List Action) → Inv p → step lib e p ≡ some (q, out) → Inv q
  unfolding step
  step-Inv (receive m) p q out v h = ground (arith, process_message-Inv m p v)
  step-Inv take p q out v h = take_next-Inv p.msg_chan p q out refl v h
  step-Inv (propose net value) p q out v h = ground (arith, propose_value-Inv lib net value p v)
  step-Inv time_out p q out v h = ground (arith, on_timer-Inv p.view_timer p v)
  step-Inv (restore sequence view state) p q out v h = ground arith

  -- So does every run of events.
  pub run-Inv :
      (es : List Event) (p q : Pbft) (out : List Action)
      → Inv p
      → run lib es p ≡ some (q, out)
      → Inv q
  unfolding run
  run-Inv [] p q out v h = ground arith
  run-Inv (e ∷ es) p q out v h =
      let (p', now, later, first, rest, _) = run-cons lib e es p q out h in
      run-Inv es p' q later (step-Inv e p p' now v first) rest
