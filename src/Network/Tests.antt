-- ===== src/Network/Tests.antt =====
-- The theorems about the network at small transports.
use lab.Network.Connections.{Hub, HubEvent, reads, looks, fails_over, dials, registers}
use lab.Network.Sending.{succeeds, first_reached, all_reached, broadcast_lem}
use lab.Network.Transport.{World, Transport, broadcast, written}
use lab.Network.Framing.{
  Json, Message, write_message, buffer, read_message, max_message_size, failed, message_too_large,
  received, read_message-write_message, read_length_failed,
}
use lab.Base.{
  ◌≡◌, ℕ, List, [], ◌∷◌, String, some, Option, true, keys, if◌then◌else◌, none, arith, ◌==◌,
  beq_cases, ◌&&◌, length, ◌++◌, string_eq, ltb, refl, false,
}

-- A network where one address answers, and every write goes through.
answers : String → Option ℕ
answers address = if address == "b:1" then some 7 else none

abbrev world : World
world = record { dial = answers; marshals = true; outcome = λ _. written }

abbrev a : Transport
a = record { node_id = "a"; peers = ("b", "b:1") ∷ ("c", "c:1") ∷ []; connections = [] }

broadcast_lem_example :
    ((broadcast world a).1.0 ≡ first_reached world a (keys a.peers))
    × (succeeds (broadcast world a).1.1 ≡ all_reached world a (keys a.peers))
    × ((broadcast world a).0.peers ≡ a.peers)
broadcast_lem_example = broadcast_lem world a (refl, (refl, tt))

-- A toy encoding, of messages without a sender and a receiver.
plain : Message → Option (List ℕ)
plain m = if m.from == "" && m.to == "" then some m.payload else none

abbrev json : Json
json = record {
  marshal = plain;
  unmarshal = λ bytes. some (record { from = ""; to = ""; payload = bytes });
}

json_law :
    (n : Message) (bytes : List ℕ) → json.marshal n ≡ some bytes → json.unmarshal bytes ≡ some n
unfolding plain
json_law n bytes h = ground (arith, beq_cases n.from "", beq_cases n.to "")

abbrev hello : Message
hello = record { from = ""; to = ""; payload = 104 ∷ 105 ∷ [] }

read_message-write_message_example :
    ((write_message json buffer hello []).1 ≡ none)
    × (read_message json ((write_message json buffer hello []).0 ++ (1 ∷ 2 ∷ [])) ≡ (
        if ltb max_message_size (length hello.payload)
        then failed message_too_large
        else received hello (1 ∷ 2 ∷ [])))
unfolding plain
read_message-write_message_example =
    read_message-write_message json hello hello.payload (1 ∷ 2 ∷ []) json_law refl (omega arith)

-- A hub with a connection to "b" and one that it accepted, each with its reader in a round, and what
-- happens behind Stop.
abbrev hub : Hub
hub = record {
  transport = record a { connections = ("b", 7) ∷ [] };
  is_done = false;
  is_listening = true;
  accepted = 9 ∷ [];
  msg_chan = hello ∷ [];
  reading = 7 ∷ 9 ∷ [];
  failing = "c" ∷ [];
  dialling = [];
}

abbrev rounds : List HubEvent
rounds =
    reads true 9 "" (received hello [])
    ∷ looks 9 ""
    ∷ fails_over "c"
    ∷ reads false 7 "b" (failed read_length_failed)
    ∷ dials world "c"
    ∷ registers "d" "d:1"
    ∷ []
