-- ===== src/Paxos/Frames.antt =====
-- Sending, in lab4/src/main.go, changes no more of a peer than its open connections.
use lab.Paxos.Roles.{send_message, broadcast_to_acceptors, send_each}
use lab.Paxos.Acceptor.{answer_connected, answer_proposer}
use lab.Base.{◌≡◌, arith, String, ℤ, List, Map, ◌∷◌, [], refl}
use lab.Paxos.Types.{Peer, Library, Message}

-- The second peer is the first with other connections.
abbrev pub Reconnected : Peer → Peer → Type 0
Reconnected p q = q ≡ record p { connections = q.connections }

pub Reconnected-trans : (p q r : Peer) → Reconnected p q → Reconnected q r → Reconnected p r
Reconnected-trans p q r a b = ground arith

module _ (lib : Library) where
  pub send_message-Reconnected :
      (host : String) (m : Message) (p : Peer) → Reconnected p (send_message lib host m p).0
  unfolding send_message
  send_message-Reconnected host m p = ground arith

  send_each-Reconnected :
      (m : Message) (hosts : Map String (List String)) (p : Peer)
      → Reconnected p (send_each lib m hosts p).0
  unfolding send_each
  send_each-Reconnected m [] p = refl
  send_each-Reconnected m ((host, roles) ∷ rest) p =
      let first = send_message-Reconnected host m p in
      let reached = (send_message lib host m p).0 in
      ground (
        arith,
        send_each-Reconnected m rest p,
        Reconnected-trans p reached (send_each lib m rest reached).0 first
            (send_each-Reconnected m rest reached),
      )

  pub broadcast_to_acceptors-Reconnected :
      (m : Message) (p : Peer) → Reconnected p (broadcast_to_acceptors lib m p).0
  unfolding broadcast_to_acceptors
  broadcast_to_acceptors-Reconnected m p = send_each-Reconnected m p.peer_roles p

  pub answer_proposer-Reconnected :
      (m : Message) (num : ℤ) (hosts : Map String (List String)) (p : Peer)
      → Reconnected p (answer_proposer lib m num hosts p).0
  unfolding answer_proposer
  answer_proposer-Reconnected m num [] p = refl
  answer_proposer-Reconnected m num ((host, roles) ∷ rest) p =
      ground (arith, send_message-Reconnected host m p, answer_proposer-Reconnected m num rest p)

  pub answer_connected-Reconnected :
      (m : Message) (num : ℤ) (hosts : List String) (p : Peer)
      → Reconnected p (answer_connected lib m num hosts p).0
  unfolding answer_connected
  answer_connected-Reconnected m num [] p = refl
  answer_connected-Reconnected m num (host ∷ rest) p =
      ground (arith, send_message-Reconnected host m p, answer_connected-Reconnected m num rest p)
