-- ===== src/Network/Closing.antt =====
-- What Stop and the end of a reader do to the connections of project/oracle/pkg/network/p2p.go.
use lab.Network.Transport.{Transport}
use lab.Network.Connections.{sends, Hub, HubEvent}
use lab.Base.{List, ◌≡◌, [], true, false, ◌∷◌, ℕ, string_eq, nat_eq, ◌≤◌, ◌+◌, length}

-- No step sends.
abbrev pub IsQuiet : List HubEvent → Type 0
IsQuiet [] = Unit
IsQuiet (sends world peer_id ∷ es) = ⊥
IsQuiet (e ∷ es) = IsQuiet es

-- A hub that is closed: no connections of peers, nobody who is about to open one, and no more messages
-- and rounds together than a bound.
pub record IsClosed (bound : ℕ) (hub : Hub) : Type 0 where
  pub is_done : hub.is_done ≡ true
  pub deaf : hub.is_listening ≡ false
  pub empty : hub.transport.connections ≡ []
  pub idle : hub.dialling ≡ []
  pub few : length hub.msg_chan + length hub.reading ≤ bound
