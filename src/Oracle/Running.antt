-- ===== src/Oracle/Running.antt =====
-- Every step of a node of project/oracle/pkg/node/oracle_node.go keeps the invariant of the node.
use lab.Pbft.Invariant.Defs.{Inv, new_pbft-Inv}
use lab.Oracle.Llm.{LlmConfig}
use lab.Pbft.Engine.{take, time_out, Event, step, set_network_manager, set_result_callback}
use lab.Network.Transport.{World}
use mathlib.Core.Option.{some-injective}
use lab.Oracle.Types.{OracleNode, new_oracle_node}
use lab.Oracle.Machine.{
  engine_step, perform, node_step, node_run, NodeEvent, prompt, message, engine_takes,
  engine_times_out, peer, started, stopped,
}
use lab.Oracle.Requests.{register_node_peer, start, stop}
use lab.Oracle.Results.{Services}
use lab.Base.{
  inl, inr, ℕ, List, ◌≡◌, some, subst, arith, ◌∷◌, Option-cases, [], String, lookup, string_eq,
  contains, true, Bool, Option,
}
use lab.Pbft.Types.{broadcast_message, deliver_result, Action, new_pbft, Pbft}
use lab.Pbft.Invariant.Run.{step-Inv}
use lab.Oracle.Invariant.{NodeInv, handle_consensus_result-NodeInv}
use lab.Oracle.Upkeep.{process_prompt-NodeInv, handle_network_message-NodeInv}

module _ {F : Type 0} (sv : Services F) where
  perform-NodeInv :
      (now : ℕ) (world : World) (out : List Action) (n : OracleNode F)
      → NodeInv n
      → NodeInv (perform sv now world out n)
  unfolding perform
  perform-NodeInv now world [] n v = v
  perform-NodeInv now world (broadcast_message m ∷ out) n v =
      perform-NodeInv now world out _ (record { engine = v.engine; requests = v.requests })
  perform-NodeInv now world (deliver_result r ∷ out) n v =
      perform-NodeInv now world out _ (handle_consensus_result-NodeInv sv now r n v)

  engine_step-NodeInv :
      (now : ℕ) (world : World) (e : Event) (n m : OracleNode F)
      → NodeInv n
      → engine_step sv now world e n ≡ some m
      → NodeInv m
  unfolding engine_step
  engine_step-NodeInv now world e n m v h = elim (Option-cases (step sv.lib e n.engine)) [
    | inl q ↦ absurd (cc (rw (q, engine_step) at h))
    | inr ((p, out), q) ↦ subst NodeInv (some-injective _ _ (rw (q, engine_step) at h)) (
        perform-NodeInv now world out _
          (record { engine = step-Inv sv.lib e n.engine p out v.engine q; requests = v.requests }))
  ]

  -- Every step of a node keeps its invariant.
  pub node_step-NodeInv :
      (e : NodeEvent) (n m : OracleNode F) → NodeInv n → node_step sv e n ≡ some m → NodeInv m
  unfolding node_step register_node_peer start stop
  node_step-NodeInv (prompt now world id text) n m v h =
      ground (arith, process_prompt-NodeInv sv now world id text n v)
  node_step-NodeInv (message now payload) n m v h =
      ground (arith, handle_network_message-NodeInv sv now payload n v)
  node_step-NodeInv (engine_takes now world) n m v h = engine_step-NodeInv now world take n m v h
  node_step-NodeInv (engine_times_out now world) n m v h =
      engine_step-NodeInv now world time_out n m v h
  node_step-NodeInv (peer id address) n m v h = ground arith
  node_step-NodeInv (started parts) n m v h = ground arith
  node_step-NodeInv (stopped parts) n m v h = ground arith

  -- In a run that does not panic, from a node in the invariant, the invariant holds at the end: each
  -- request is filed under its own name, carries the node's own answer among its answers, has an error
  -- when it failed, and, when it is complete, the result that was agreed under that name; and all votes
  -- of the engine are of members.
  pub node_run-NodeInv :
      (es : List NodeEvent) (n m : OracleNode F) → NodeInv n → node_run sv es n ≡ some m → NodeInv m
  unfolding node_run
  node_run-NodeInv [] n m v h = subst NodeInv (some-injective _ _ h) v
  node_run-NodeInv (e ∷ es) n m v h = elim (Option-cases (node_step sv e n)) [
    | inl none_there ↦ absurd (cc (rw (none_there, node_run) at h))
    | inr (next, there) ↦
        node_run-NodeInv es next m (node_step-NodeInv e n next v there) (rw (there, node_run) at h)
  ]

wired-Inv : (p : Pbft) → Inv p → Inv (set_result_callback (set_network_manager p))
unfolding set_result_callback set_network_manager
wired-Inv p v = ground arith

-- A new node whose own name is on the node list starts in the invariant.
pub new_oracle_node-NodeInv :
    {F : Type 0} (id address : String) (client : Option LlmConfig) (stores scores : Bool)
    (nodes : List String) (timeout : ℕ) (n : OracleNode F)
    → contains nodes id ≡ true
    → new_oracle_node id address client stores scores nodes timeout ≡ some n
    → NodeInv n
unfolding new_oracle_node lookup
new_oracle_node-NodeInv id address client stores scores nodes timeout n h e =
    elim (Option-cases (new_pbft id nodes timeout)) [
      | inl q ↦ absurd (cc (rw (q, new_oracle_node) at e))
      | inr (p, q) ↦
          let v = new_pbft-Inv id nodes timeout p h q in
          subst NodeInv (some-injective _ _ (rw (q, new_oracle_node) at e))
            (record { engine = wired-Inv p v; requests = λ k s found. absurd (cc) })
    ]
