-- ===== src/Oracle/Repeats.antt =====
-- Two prompts at a leader of project/oracle/pkg/node/oracle_node.go, the first of which fails behind its
-- proposal.
use lab.Pbft.System.Flow.{proposal}
use lab.Oracle.Types.{OracleNode, RequestError}
use lab.Oracle.Results.{Services}
use lab.Network.Transport.{World}
use lab.Oracle.Requests.{accepted, rejected, crashed, PromptOutcome, process_prompt}
use lab.Pbft.Types.{broadcast_message, ConsensusMessage, pre_prepare, Action, Bytes}
use lab.Oracle.Prompts.{Tells, process_prompt-Tells}
use lab.Base.{[], ◌∷◌, inl, inr, List, String, ℕ, ◌≡◌, subst, ◌∙◌, sym, ap}

broadcast_message-injective :
    (a b : ConsensusMessage) (out : List Action)
    → out ≡ broadcast_message a ∷ []
    → out ≡ broadcast_message b ∷ []
    → a ≡ b
broadcast_message-injective a b out p q = cc

module _ {F : Type 0} (sv : Services F) where
  sent-proposal :
      (value : Bytes) (n : OracleNode F) (out : List Action) (a : ConsensusMessage)
      → out ≡ broadcast_message (proposal sv.lib value n.engine) ∷ []
      → out ≡ broadcast_message a ∷ []
      → (a.type ≡ pre_prepare) × (a.sequence ≡ n.engine.sequence) × (a.view ≡ n.engine.view)
  sent-proposal value n out a p h =
      let same = broadcast_message-injective (proposal sv.lib value n.engine) a out p h in
      (ap (λ m. m.type) (sym same), ap (λ m. m.sequence) (sym same), ap (λ m. m.view) (sym same))

  -- What a prompt sends is a pre-prepare in the engine's view and number.
  sent-Tells :
      (id : String) (n m : OracleNode F) (o : PromptOutcome) (out : List Action)
      (a : ConsensusMessage)
      → Tells sv id n m out o
      → out ≡ broadcast_message a ∷ []
      → (a.type ≡ pre_prepare) × (a.sequence ≡ n.engine.sequence) × (a.view ≡ n.engine.view)
  sent-Tells id n m accepted out a (state, found, inl quiet) h = absurd (cc)
  sent-Tells id n m accepted out a (state, found, inr leads) h =
      sent-proposal leads.3.0 n out a leads.3.2 h
  sent-Tells id n m (rejected err) out a
        (state, found, (status, error, sequence, view, (value, sends))) h =
      elim sends [ inl quiet ↦ absurd (cc) | inr sent ↦ sent-proposal value n out a sent h ]
  sent-Tells id n m crashed out a t h = absurd (cc)

  -- A prompt that fails behind its proposal leaves the number to the next prompt: if that one sends a
  -- proposal too, the two pre-prepares have the same view and the same number, whatever their payloads.
  pub process_prompt-again :
      (now later : ℕ) (world next : World) (id other text words : String) (err : RequestError)
      (n : OracleNode F) (a b : ConsensusMessage)
      → (process_prompt sv now world id text n).2 ≡ rejected err
      → (process_prompt sv now world id text n).1 ≡ broadcast_message a ∷ []
      → (process_prompt sv later next other words (process_prompt sv now world id text n).0).1
        ≡ broadcast_message b ∷ []
      → (a.type ≡ b.type) × (a.sequence ≡ b.sequence) × (a.view ≡ b.view)
  process_prompt-again now later world next id other text words err n a b fails first second =
      let m = (process_prompt sv now world id text n).0 in
      let told =
        subst (Tells sv id n m (process_prompt sv now world id text n).1) fails
          (process_prompt-Tells sv id now world text n) in
      let (type_a, sequence_a, view_a) = sent-Tells id n m (rejected err) _ a told first in
      let (type_b, sequence_b, view_b) =
        sent-Tells other m _ _ _ b (process_prompt-Tells sv other later next words m) second in
      let kept = told.2 in
      (type_a ∙ sym type_b, sequence_a ∙ sym (sequence_b ∙ kept.2), view_a ∙ sym (view_b ∙ kept.3))
