-- ===== src/Launch/Ready.antt =====
-- How the nodes of the server in project/oracle/cmd/server/main.go begin, and that they agree.
use lab.Launch.Group.{
  create_nodes, start_all, start_group, addresses_at, register_others, node_ids, default_timeout,
}
use mathlib.Core.Option.{some-injective}
use lab.Base.{
  arith, ℕ, String, List, [], ◌∷◌, true, false, Option, none, some, ◌≡◌, ◌==◌, string_eq,
  if◌then◌else◌, map, refl, insert, All, subst, sym, ap, inl, inr, ◌∙◌, arith, Option-cases,
  beq_cases, eq_of_beq,
}
use lab.Pbft.Types.{Pbft, new_pbft, unset, Library, normal}
use lab.Pbft.Engine.{set_network_manager, set_result_callback}
use lab.Pbft.System.Network.{World, WorldReach}
use lab.Pbft.System.Ledger.{Decision}
use lab.Pbft.System.Agreement.{IsDecided, agreement}
use lab.Network.Transport.{register_peer}
use lab.Oracle.Types.{OracleNode, new_oracle_node}
use lab.Oracle.Llm.{LlmConfig}
use lab.Oracle.Requests.{Parts, register_node_peer, start}

-- The entries of all other names.
abbrev others_of : String → List (String × String) → List (String × String)
others_of id [] = []
others_of id ((other, address) ∷ entries) =
    let rest = others_of id entries in if other == id then rest else (other, address) ∷ rest

-- The engine of a node as it begins, with its network manager and its callback set.
abbrev pub first_engine : String → Pbft
first_engine node_id = record {
  node_id = node_id;
  nodes = node_ids;
  has_network = true;
  timeout = default_timeout;
  view_change_timeout = 0;
  checkpoint_interval = 100;
  view = 0;
  sequence = 0;
  state = normal;
  is_leader = node_id == "leader";
  last_checkpoint = [];
  last_checkpoint_seq = 0;
  prepare_messages = [];
  commit_messages = [];
  view_change_msgs = [];
  checkpoints = [];
  consensus_reached = [];
  msg_chan = [];
  has_callback = true;
  f = 2;
  view_timer = unset;
}

-- A node of the group: only the first leads, stores and compares; its engine is new and wired; and its
-- transport knows all other nodes.
pub record IsWired {F : Type 0} (address_of : ℕ → String) (n : OracleNode F) : Type 0 where
  pub role : n.engine.is_leader ≡ (n.node_id == "leader")
  pub scores : n.has_scorer ≡ (n.node_id == "leader")
  pub stores : n.has_storage ≡ (n.node_id == "leader")
  pub engine : n.engine ≡ first_engine n.node_id
  pub requests : n.requests ≡ []
  pub peers : n.transport.peers ≡ others_of n.node_id (addresses_at address_of 0 node_ids)

abbrev pub IsReady : {F : Type 0} → (ℕ → String) → OracleNode F → Type 0
IsReady address_of n = IsWired address_of n × (n.is_running ≡ true)

create_nodes-IsWired :
    {F : Type 0} (address_of : ℕ → String) (cfg : LlmConfig) (ns : List (OracleNode F))
    → create_nodes cfg 0 (addresses_at address_of 0 node_ids) ≡ some ns
    → All (IsWired address_of) (map (register_others (addresses_at address_of 0 node_ids)) ns)
      × (map (λ n. n.node_id) (map (register_others (addresses_at address_of 0 node_ids)) ns)
          ≡ node_ids)
unfolding create_nodes new_oracle_node new_pbft addresses_at register_others register_node_peer
    register_peer insert set_network_manager set_result_callback
create_nodes-IsWired {F = F} address_of cfg ns h =
    subst
      (λ xs.
        All (IsWired address_of) (map (register_others (addresses_at address_of 0 node_ids)) xs)
        × (map (λ n. n.node_id) (map (register_others (addresses_at address_of 0 node_ids)) xs)
            ≡ node_ids))
      (some-injective _ _ h)
      (
        (
          ground arith,
          (
            ground arith,
            (ground arith, (ground arith, (ground arith, (ground arith, (ground arith, tt))))),
          ),
        ),
        refl,
      )

start-IsReady :
    {F : Type 0} (address_of : ℕ → String) (parts : Parts) (n : OracleNode F)
    → IsWired address_of n
    → (start parts n).1 ≡ none
    → IsReady address_of (start parts n).0 × ((start parts n).0.node_id ≡ n.node_id)
unfolding start
start-IsReady address_of parts n v h = ground arith

start_all-IsReady :
    {F : Type 0} (address_of : ℕ → String) (parts : String → Parts) (ns ms : List (OracleNode F))
    → All (IsWired address_of) ns
    → start_all parts ns ≡ some ms
    → All (IsReady address_of) ms × (map (λ n. n.node_id) ms ≡ map (λ n. n.node_id) ns)
unfolding start_all
start_all-IsReady address_of parts [] ms v h =
    subst (λ xs. All (IsReady address_of) xs × (map (λ n. n.node_id) xs ≡ []))
      (some-injective _ _ h) (tt, refl)
start_all-IsReady {F = F} address_of parts (n ∷ ns) ms v h =
    elim (Option-cases (start (parts n.node_id) n).1) [
      | inr (err, q) ↦ absurd (cc (rw (q, start_all) at h))
      | inl q ↦ elim (Option-cases (start_all parts ns)) [
        | inl r ↦ absurd (cc (rw (q, r, start_all) at h))
        | inr (rest, r) ↦
            let (ready, same) = start-IsReady address_of (parts n.node_id) n v.0 q in
            let (others, names) = start_all-IsReady address_of parts ns rest v.1 r in
            subst
              (λ xs.
                All (IsReady address_of) xs
                × (map (λ n. n.node_id) xs ≡ n.node_id ∷ map (λ n. n.node_id) ns))
              (some-injective _ _ (rw (q, r, start_all) at h)) ((ready, others), cc)
      ]
    ]

-- When main of the server reaches its HTTP server, it has seven running nodes, in the order of their
-- names. Exactly the first leads, stores and compares; every engine has the seven names as its node list,
-- begins at number and view 0 with nothing sent or stored, tolerates two faults, and is wired to its network
-- manager and its node; no node has a request; and every transport knows the other six nodes at their
-- addresses.
pub start_group-IsReady :
    {F : Type 0} (address_of : ℕ → String) (cfg : LlmConfig) (parts : String → Parts)
    (ns : List (OracleNode F))
    → start_group address_of cfg parts ≡ some ns
    → All (IsReady address_of) ns × (map (λ n. n.node_id) ns ≡ node_ids)
unfolding start_group
start_group-IsReady {F = F} address_of cfg parts ns h =
    elim (Option-cases (create_nodes {F = F} cfg 0 (addresses_at address_of 0 node_ids))) [
      | inl q ↦ absurd (cc (rw (q, start_group) at h))
      | inr (made, q) ↦
          let (wired, names) = create_nodes-IsWired address_of cfg made q in
          let (ready, same) =
            start_all-IsReady address_of parts _ ns wired (rw (q, start_group) at h) in
          (ready, same ∙ names)
    ]

-- The first node of a name.
abbrev pub node_at : {F : Type 0} → String → List (OracleNode F) → Option (OracleNode F)
node_at id [] = none
node_at id (n ∷ ns) = let rest = node_at id ns in if n.node_id == id then some n else rest

-- The engines of a world are those of the nodes; an engine of another name is idle.
abbrev pub IsEngine : {F : Type 0} → Option (OracleNode F) → Pbft → Type 0
IsEngine none p = (p.is_leader ≡ false) × (p.view_timer ≡ unset) × (p.msg_chan ≡ [])
IsEngine (some n) p = p ≡ n.engine

pub record Hosts {F : Type 0} (ns : List (OracleNode F)) (w : World) : Type 0 where
  pub engines : (id : String) → IsEngine (node_at id ns) (w.engines id)
  pub pool : w.pool ≡ []
  pub results : w.results ≡ []

node_at-IsReady :
    {F : Type 0} (address_of : ℕ → String) (id : String) (ns : List (OracleNode F)) (p : Pbft)
    → All (IsReady address_of) ns
    → IsEngine (node_at id ns) p
    → (p.is_leader ≡ true → id ≡ "leader") × (p.view_timer ≡ unset) × (p.msg_chan ≡ [])
node_at-IsReady address_of id [] p v e = ((λ h. absurd (cc)), e.1, e.2)
node_at-IsReady address_of id (n ∷ ns) p v e = elim (beq_cases n.node_id id) [
  | inr (apart, _) ↦ node_at-IsReady address_of id ns p v.1 (rw apart at e)
  | inl (found, same) ↦
      let is : p ≡ n.engine = rw found at e in
      let w = v.0.0 in
      (
        (λ h.
            sym same
            ∙ eq_of_beq n.node_id "leader" (sym w.role ∙ ap (λ q. q.is_leader) (sym is) ∙ h)),
        ap (λ q. q.view_timer) (is ∙ w.engine),
        ap (λ q. q.msg_chan) (is ∙ w.engine),
      )
]

-- The nodes of the server agree: while no messages are forged, no broadcast fails and no state is restored,
-- two results of its nodes for one number have the same payload, whatever the order of events.
pub start_group-agreement :
    {F : Type 0} (address_of : ℕ → String) (cfg : LlmConfig) (parts : String → Parts)
    (ns : List (OracleNode F)) (lib : Library) (w v : World) (c d : Decision)
    → start_group address_of cfg parts ≡ some ns
    → Hosts ns w
    → WorldReach lib w v
    → IsDecided c v.results
    → IsDecided d v.results
    → c.sequence ≡ d.sequence
    → c.payload ≡ d.payload
start_group-agreement address_of cfg parts ns lib w v c d h hosts r hc hd e =
    let ready = (start_group-IsReady address_of cfg parts ns h).0 in
    let at_ : (id : String)
        → ((w.engines id).is_leader ≡ true → id ≡ "leader")
          × ((w.engines id).view_timer ≡ unset)
          × ((w.engines id).msg_chan ≡ []) =
      λ id. node_at-IsReady address_of id ns (w.engines id) ready (hosts.engines id) in
    agreement lib "leader" w v c d
      (record {
        leaders = λ id. (at_ id).0;
        timers = λ id. (at_ id).1;
        queues = λ id. (at_ id).2;
        pool = hosts.pool;
        results = hosts.results;
      })
      r hc hd e
