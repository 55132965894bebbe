-- ===== src/Launch/Silence.antt =====
-- What the nodes of project/scripts/run_node.go can and cannot do.
use lab.Launch.Waiting.{AreOpen, process_prompt-IsSilent, open_request-IsSilent}
use lab.Oracle.Requests.{handle_network_message, register_node_peer, start, stop, set_transport}
use mathlib.Core.Option.{some-injective}
use lab.Base.{
  ℕ, String, List, [], ◌∷◌, Option, none, some, ◌≡◌, arith, string_eq, refl, Option-cases, inl, inr,
  subst, lookup, insert, sym, ap, ◌∙◌, suc, zero,
}
use lab.Pbft.Types.{Bytes, Action, broadcast_message, deliver_result, new_pbft}
use lab.Pbft.Engine.{Event, take, time_out, step, set_network_manager, set_result_callback, receive}
use lab.Pbft.Outsiders.{IsOutsider, step-IsOutsider}
use lab.Network.Transport.{World, Transport, broadcast, send_each, register_peer}
use lab.Oracle.Types.{new_oracle_node}
use lab.Oracle.Results.{Services}
use lab.Oracle.Llm.{LlmConfig}
use lab.Oracle.Manager.{manager_broadcast}
use lab.Oracle.Machine.{
  NodeEvent, prompt, message, engine_takes, engine_times_out, peer, started, stopped,
}
use lab.Launch.RunNode.{
  Launched, launch, launched_run, launched_step, launched_engine, launched_perform, launched_prompt,
  peers_from, addresses_from, register_all,
}

-- A node that does not lead and never will, that completes no request, and whose network manager knows no
-- peer.
pub record IsSilent {F : Type 0} (l : Launched F) : Type 0 where
  pub engine : IsOutsider l.node.engine
  pub requests : AreOpen l.node
  pub alone : l.manager_transport.peers ≡ []

-- A broadcast of such a manager reaches nobody, and is no error.
broadcast_alone :
    (world : World) (t : Transport) → t.peers ≡ [] → broadcast world t ≡ (t, ([], none))
unfolding broadcast send_each
broadcast_alone world t h = rw (h, broadcast) refl

module _ {F : Type 0} (sv : Services F) where
  perform-IsSilent :
      (world : World) (out : List Action) (l : Launched F)
      → IsSilent l
      → IsSilent (launched_perform sv world out l)
  unfolding launched_perform manager_broadcast
  perform-IsSilent world [] l v = v
  perform-IsSilent world (broadcast_message m ∷ out) l v = perform-IsSilent world out _ (record {
    engine = v.engine;
    requests = v.requests;
    alone = ground (arith, broadcast_alone world l.manager_transport v.alone);
  })
  perform-IsSilent world (deliver_result r ∷ out) l v = perform-IsSilent world out l v

  engine-IsSilent :
      (world : World) (e : Event) (l m : Launched F)
      → IsSilent l
      → launched_engine sv world e l ≡ some m
      → IsSilent m
  unfolding launched_engine
  engine-IsSilent world e l m v h = elim (Option-cases (step sv.lib e l.node.engine)) [
    | inl q ↦ absurd (cc (rw (q, launched_engine) at h))
    | inr ((p, out), q) ↦ subst IsSilent (some-injective _ _ (rw (q, launched_engine) at h)) (
        perform-IsSilent world out (record l { node = record l.node { engine = p } })
          (record {
            engine = step-IsOutsider sv.lib e l.node.engine p out v.engine q;
            requests = v.requests;
            alone = v.alone;
          }))
  ]

  pub prompt-IsSilent :
      (now : ℕ) (world : World) (id text : String) (l : Launched F)
      → IsSilent l
      → IsSilent (launched_prompt sv now world id text l).0
  unfolding launched_prompt
  prompt-IsSilent now world id text l v =
      let (engine, transport, requests) =
        process_prompt-IsSilent sv now world id text
          (record l.node { transport = l.manager_transport }) v.engine v.requests in
      record {
        engine = subst IsOutsider (sym engine) v.engine;
        requests = requests;
        alone = ap (λ t. t.peers) transport ∙ v.alone;
      }

  message-IsSilent :
      (now : ℕ) (payload : Bytes) (l : Launched F)
      → IsSilent l
      → IsSilent (record l { node = (handle_network_message sv now payload l.node).0 })
  unfolding handle_network_message step
  message-IsSilent now payload l v = elim (Option-cases (sv.codec.unmarshal_message payload)) [
    | inl q ↦
        rw (q, handle_network_message)
          (record { engine = v.engine; requests = v.requests; alone = v.alone })
    | inr (msg, q) ↦ elim (Option-cases (sv.codec.unmarshal_data msg.payload)) [
      | inl r ↦
          rw (q, r, handle_network_message)
            (record { engine = v.engine; requests = v.requests; alone = v.alone })
      | inr (agreed, r) ↦
          let (requests, engine) = open_request-IsSilent sv now agreed l.node v.requests in
          rw (q, r, handle_network_message)
            (record {
              engine =
                  step-IsOutsider sv.lib (receive (some msg)) _ _ []
                    (subst IsOutsider (sym engine) v.engine) refl;
              requests = requests;
              alone = v.alone;
            })
    ]
  ]

  -- Every step of a node keeps it silent.
  pub launched_step-IsSilent :
      (e : NodeEvent) (l m : Launched F) → IsSilent l → launched_step sv e l ≡ some m → IsSilent m
  unfolding launched_step register_node_peer start stop
  launched_step-IsSilent (prompt now world id text) l m v h =
      ground (arith, prompt-IsSilent now world id text l v)
  launched_step-IsSilent (message now payload) l m v h =
      ground (arith, message-IsSilent now payload l v)
  launched_step-IsSilent (engine_takes now world) l m v h = engine-IsSilent world take l m v h
  launched_step-IsSilent (engine_times_out now world) l m v h =
      engine-IsSilent world time_out l m v h
  launched_step-IsSilent (peer id address) l m v h = ground arith
  launched_step-IsSilent (started parts) l m v h = ground arith
  launched_step-IsSilent (stopped parts) l m v h = ground arith

  pub launched_run-IsSilent :
      (es : List NodeEvent) (l m : Launched F)
      → IsSilent l
      → launched_run sv es l ≡ some m
      → IsSilent m
  unfolding launched_run
  launched_run-IsSilent [] l m v h = subst IsSilent (some-injective _ _ h) v
  launched_run-IsSilent (e ∷ es) l m v h = elim (Option-cases (launched_step sv e l)) [
    | inl q ↦ absurd (cc (rw (q, launched_run) at h))
    | inr (next, q) ↦
        launched_run-IsSilent es next m (launched_step-IsSilent e l next v q)
          (rw (q, launched_run) at h)
  ]

fresh-IsSilent :
    {F : Type 0} (l : Launched F)
    → IsOutsider l.node.engine
    → l.node.requests ≡ []
    → l.manager_transport.peers ≡ []
    → IsSilent l
unfolding lookup
fresh-IsSilent l v none_there alone = record {
  engine = v;
  requests = λ id s e. absurd (cc (rw none_there at e));
  alone = alone;
}

pub fresh_launch-IsSilent :
    {F : Type 0} (address_of : ℕ → String) (port node_id : ℕ) (client : Option LlmConfig)
    (l : Launched F)
    → launch address_of port node_id client ≡ some l
    → IsSilent l
unfolding launch new_oracle_node new_pbft peers_from addresses_from register_all register_node_peer
    register_peer set_transport set_network_manager set_result_callback lookup insert
fresh_launch-IsSilent address_of port zero client l h =
    subst IsSilent (some-injective _ _ h)
      (fresh-IsSilent _ (record { follows = refl; unlisted = refl }) refl refl)
fresh_launch-IsSilent address_of port (suc zero) client l h =
    subst IsSilent (some-injective _ _ h)
      (fresh-IsSilent _ (record { follows = refl; unlisted = refl }) refl refl)
fresh_launch-IsSilent address_of port (suc (suc zero)) client l h =
    subst IsSilent (some-injective _ _ h)
      (fresh-IsSilent _ (record { follows = refl; unlisted = refl }) refl refl)
fresh_launch-IsSilent address_of port (suc (suc (suc zero))) client l h =
    subst IsSilent (some-injective _ _ h)
      (fresh-IsSilent _ (record { follows = refl; unlisted = refl }) refl refl)
fresh_launch-IsSilent address_of port (suc (suc (suc (suc n)))) client l h = cc

-- A node of run_node.go never leads, whatever prompts, messages and timers come: its engine was given the
-- other three nodes only, so that it is in no view its own leader. It never completes a request, and its
-- network manager, which keeps the transport from before SetTransport, knows no peer, so that what the
-- engine broadcasts reaches nobody.
pub launch-IsSilent :
    {F : Type 0} (sv : Services F) (address_of : ℕ → String) (port node_id : ℕ)
    (client : Option LlmConfig) (l m : Launched F) (es : List NodeEvent)
    → launch address_of port node_id client ≡ some l
    → launched_run sv es l ≡ some m
    → IsSilent m
      × ((world : World) → broadcast world m.manager_transport ≡ (m.manager_transport, ([], none)))
launch-IsSilent sv address_of port node_id client l m es h k =
    let v =
      launched_run-IsSilent sv es l m (fresh_launch-IsSilent address_of port node_id client l h)
        k in
    (v, λ world. broadcast_alone world m.manager_transport v.alone)
