-- ===== src/Oracle/Messages.antt =====
-- Which messages handleMessages of project/oracle/pkg/node/oracle_node.go hands to the engine.
use lab.Oracle.Manager.{manager_handle_message, processed}
use lab.Oracle.Requests.{handle_network_message, data_not_decoded}
use lab.Oracle.Types.{Codec, OracleNode}
use lab.Oracle.Results.{Services}
use lab.Base.{
  Option-cases, inl, inr, get_elem?, ◌%◌, length, none, some, List, ℕ, ◌≡◌, [], ◌∷◌, refl, arith,
}
use lab.Pbft.Handlers.{process_new_view, broadcast}
use lab.Pbft.Validate.{process_message}
use lab.Pbft.Types.{
  ConsensusMessage, broadcast_message, deliver_result, Bytes, Pbft, Action, new_view,
}

-- encoding/json gives back what it has taken, and an empty text is no JSON.
pub record IsJson (codec : Codec) : Type 0 where
  pub messages :
      (m : ConsensusMessage) (bytes : Bytes)
      → codec.marshal_message m ≡ some bytes
      → codec.unmarshal_message bytes ≡ some m
  pub empty : codec.unmarshal_data [] ≡ none

module _ {F : Type 0} (sv : Services F) where
  -- A message that no node takes in, though its network manager would.
  abbrev pub IsDropped : ConsensusMessage → Type 0
  IsDropped m =
      (bytes : Bytes) (now : ℕ) (n : OracleNode F)
      → sv.codec.marshal_message m ≡ some bytes
      → (handle_network_message sv now bytes n ≡ (n, data_not_decoded))
        × (manager_handle_message sv.codec bytes n.engine ≡ (
          (process_message (some m) n.engine).0,
          processed (process_message (some m) n.engine).1,
        ))

  abbrev pub AreDropped : List Action → Type 0
  AreDropped [] = Unit
  AreDropped (broadcast_message m ∷ out) = IsDropped m × AreDropped out
  AreDropped (deliver_result r ∷ out) = ⊥

  empty-IsDropped : (m : ConsensusMessage) → IsJson sv.codec → m.payload ≡ [] → IsDropped m
  unfolding handle_network_message manager_handle_message
  empty-IsDropped m json e bytes now n sent = (
    rw (json.messages m bytes sent, handle_network_message, e, json.empty),
    rw (json.messages m bytes sent, manager_handle_message),
  )

  -- What a new leader sends when it takes a view over is dropped by the message loop of every node, before
  -- the engine sees it: its payload is empty, and the loop wants consensus data in it. The network
  -- manager hands the same bytes to the engine.
  pub process_new_view-AreDropped :
      (new : ℕ) (p q : Pbft) (out : List Action)
      → IsJson sv.codec
      → process_new_view new p ≡ some (q, out)
      → AreDropped out
  unfolding process_new_view broadcast
  process_new_view-AreDropped new p q out json h =
      elim (Option-cases (get_elem? p.nodes (new % length p.nodes))) [
        | inl n ↦ absurd (cc (rw (n, process_new_view) at h))
        | inr (l, n) ↦
            let msg : ConsensusMessage = record {
              type = new_view;
              node_id = p.node_id;
              view = 0;
              sequence = p.sequence;
              digest = [];
              payload = [];
            } in
            ground (arith, empty-IsDropped msg json refl)
      ]
