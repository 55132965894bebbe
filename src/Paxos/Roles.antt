-- ===== src/Paxos/Roles.antt =====
-- Roles, peer numbers and connections of lab4/src/main.go.
use lab.Base.{
  ℕ, suc, ◌+◌, Bool, true, false, String, List, [], ◌∷◌, ◌++◌, Map, keys, contains, ◌==◌, string_eq,
  int_eq, if◌then◌else◌, ℤ, pos, negsuc,
}
use lab.Paxos.Types.{Peer, Message, Library, Action, send_to}

-- containsRole
unfoldable pub contains_role : List String → String → Bool
contains_role roles target = contains roles target

module _ (lib : Library) where
  -- isProposer
  unfoldable pub is_proposer : List String → Bool
  is_proposer [] = false
  is_proposer (role ∷ roles) = if lib.has_prefix role "proposer" then true else is_proposer roles

  -- getProposerNumber
  unfoldable pub get_proposer_number : List String → ℤ
  get_proposer_number [] = negsuc 0
  get_proposer_number (role ∷ roles) =
      if lib.has_prefix role "proposer"
      then lib.atoi (lib.trim_prefix role "proposer")
      else get_proposer_number roles

  -- isAcceptorFor
  unfoldable pub is_acceptor_for : List String → ℤ → Bool
  unfolding contains_role
  is_acceptor_for roles proposer_id = contains_role roles (lib.format "acceptor" proposer_id)

  -- countAcceptors
  unfoldable pub count_acceptors : Map String (List String) → ℤ → ℕ
  unfolding contains_role
  count_acceptors [] proposer_id = 0
  count_acceptors ((host, roles) ∷ hosts) proposer_id =
      if contains_role roles (lib.format "acceptor" proposer_id)
      then suc (count_acceptors hosts proposer_id)
      else count_acceptors hosts proposer_id

  unfoldable pub position : String → List String → ℕ → ℤ
  position hostname [] i = negsuc 0
  position hostname (host ∷ hosts) i =
      if host == hostname then pos (i + 1) else position hostname hosts (i + 1)

  -- getPeerID
  unfoldable pub get_peer_id : String → Map String (List String) → ℤ
  unfolding position
  get_peer_id hostname hosts = position hostname (lib.sort_strings (keys hosts)) 0

  -- The loop of handlePrepare and handleAccept that finds the sender's proposer number.
  unfoldable pub find_proposer : ℤ → Map String (List String) → Map String (List String) → ℤ
  find_proposer peer_id hosts [] = pos 0
  find_proposer peer_id hosts ((host, roles) ∷ rest) =
      if get_peer_id host hosts == peer_id
      then get_proposer_number roles
      else find_proposer peer_id hosts rest

  -- sendMessage and establishConnection. Every caller drops the error.
  unfoldable pub send_message : String → Message → Peer → Peer × List Action
  send_message hostname msg peer =
      if contains peer.connections hostname
      then (peer, send_to hostname msg ∷ [])
      else if lib.dial hostname
      then (
        record peer { connections = peer.connections ++ (hostname ∷ []) },
        send_to hostname msg ∷ [],
      )
      else (peer, [])

  unfoldable pub send_each : Message → Map String (List String) → Peer → Peer × List Action
  unfolding send_message is_acceptor_for
  send_each msg [] peer = (peer, [])
  send_each msg ((host, roles) ∷ rest) peer =
      let reached = send_message host msg peer in
      let later = send_each msg rest reached.0 in
      let skipped = send_each msg rest peer in
      if get_peer_id host peer.peer_roles == peer.id
      then skipped
      else if is_acceptor_for roles peer.proposer_num
      then (later.0, reached.1 ++ later.1)
      else skipped

  -- broadcastToAcceptors
  unfoldable pub broadcast_to_acceptors : Message → Peer → Peer × List Action
  unfolding send_each
  broadcast_to_acceptors msg peer = send_each msg peer.peer_roles peer
