-- ===== src/Launch/Group.antt =====
-- The group of nodes that main of project/oracle/cmd/server/main.go wires in one process.
use lab.Base.{
  ℕ, ◌+◌, String, List, [], ◌∷◌, Option, none, some, ◌==◌, string_eq, nat_beq, if◌then◌else◌, map,
}
use lab.Oracle.Types.{OracleNode, new_oracle_node}
use lab.Oracle.Llm.{LlmConfig}
use lab.Oracle.Requests.{Parts, register_node_peer, start}

abbrev pub node_ids : List String
node_ids = "leader" ∷ "peer1" ∷ "peer2" ∷ "peer3" ∷ "peer4" ∷ "peer5" ∷ "peer6" ∷ []

-- defaultTimeout, in nanoseconds
abbrev pub default_timeout : ℕ
default_timeout = 5000000000

-- The addresses, by node.
unfoldable pub addresses_at : (ℕ → String) → ℕ → List String → List (String × String)
addresses_at address_of i [] = []
addresses_at address_of i (id ∷ ids) =
    (id, address_of (9000 + i)) ∷ addresses_at address_of (i + 1) ids

-- The loop that creates the nodes, with their clients made; only the first one stores and compares.
unfoldable pub create_nodes :
    {F : Type 0} → LlmConfig → ℕ → List (String × String) → Option (List (OracleNode F))
unfolding new_oracle_node
create_nodes cfg i [] = some []
create_nodes cfg i ((id, address) ∷ others) =
    let rest = create_nodes cfg (i + 1) others in
    elim (new_oracle_node id address (some cfg) (nat_beq i 0) (nat_beq i 0) node_ids
      default_timeout) [
        | none ↦ none
        | some n ↦ elim rest [ none ↦ none | some ns ↦ some (n ∷ ns) ]
      ]

-- The inner loop that registers the peers of a node.
unfoldable pub register_others : {F : Type 0} → List (String × String) → OracleNode F → OracleNode F
unfolding register_node_peer
register_others [] n = n
register_others ((id, address) ∷ others) n =
    register_others others (if id == n.node_id then n else register_node_peer id address n)

-- The loop that starts the nodes; the first error ends it.
unfoldable pub start_all :
    {F : Type 0} → (String → Parts) → List (OracleNode F) → Option (List (OracleNode F))
unfolding start
start_all parts [] = some []
start_all parts (n ∷ ns) =
    let rest = start_all parts ns in
    let done = start (parts n.node_id) n in
    elim done.1 [
      | some err ↦ none
      | none ↦ elim rest [ none ↦ none | some ms ↦ some (done.0 ∷ ms) ]
    ]

-- main, from the creation of the nodes to the HTTP server; `none` ends the program.
unfoldable pub start_group :
    {F : Type 0} → (ℕ → String) → LlmConfig → (String → Parts) → Option (List (OracleNode F))
unfolding create_nodes register_others start_all addresses_at
start_group address_of cfg parts = elim (create_nodes cfg 0 (addresses_at address_of 0 node_ids)) [
  | none ↦ none
  | some ns ↦ start_all parts (map (register_others (addresses_at address_of 0 node_ids)) ns)
]
