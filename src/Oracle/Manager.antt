-- ===== src/Oracle/Manager.antt =====
-- project/oracle/pkg/consensus/network.go: consensus messages on the transport.
use lab.Base.{Option, none, some, List, [], ◌∷◌}
use lab.Pbft.Types.{
  Bytes, Pbft, ConsensusMessage, Error, transport_failed, Action, broadcast_message, deliver_result,
}
use lab.Pbft.Validate.{process_message, Outcome}
use lab.Network.Transport.{Transport, World, broadcast}
use lab.Oracle.Types.{Codec}

-- Broadcast
unfoldable pub manager_broadcast :
    Codec → World → ConsensusMessage → Transport → Transport × Option Error
manager_broadcast codec world msg t = elim (codec.marshal_message msg) [
  | none ↦ (t, some transport_failed)
  | some bytes ↦
      let sent = broadcast world t in
      (sent.0, elim sent.1.1 [ none ↦ none | some err ↦ some transport_failed ])
]

-- What Broadcast answers to the engine.
unfoldable pub answer : Codec → World → Transport → ConsensusMessage → Option Error
unfolding manager_broadcast
answer codec world t msg = (manager_broadcast codec world msg t).1

pub data ManagerOutcome : Type 0 where
  not_decoded : ManagerOutcome
  processed : Outcome → ManagerOutcome

-- handleMessage of the network manager, on a payload.
unfoldable pub manager_handle_message : Codec → Bytes → Pbft → Pbft × ManagerOutcome
manager_handle_message codec payload p = elim (codec.unmarshal_message payload) [
  | none ↦ (p, not_decoded)
  | some msg ↦ let done = process_message (some msg) p in (done.0, processed done.1)
]

-- The transport behind what the engine sends, one message after another.
unfoldable pub send_actions : Codec → World → List Action → Transport → Transport
unfolding manager_broadcast
send_actions codec world [] t = t
send_actions codec world (broadcast_message m ∷ out) t =
    send_actions codec world out (manager_broadcast codec world m t).0
send_actions codec world (deliver_result r ∷ out) t = send_actions codec world out t
