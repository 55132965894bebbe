-- ===== src/Pbft/Invariant/Defs.antt =====
-- The engine's invariant: all votes that it holds are votes of members, filed under their own
-- sender and number, each sender once (types.go and NewPBFT of project/oracle/pkg/consensus).
use mathlib.Core.Option.{some-injective}
use lab.Base.{
  ℕ, ◌-◌, ◌/◌, Bool, true, false, String, List, [], ◌∷◌, some, ◌≡◌, refl, All, contains, length,
  string_eq, subst, nat_eq,
}
use lab.Pbft.Types.{Pbft, ConsensusMessage, MessageType, pre_prepare, prepare, commit, new_pbft}
use lab.Pbft.Votes.{IsVoteLog, nil-IsVoteLog}

abbrev pub is_commit : MessageType → Bool
is_commit commit = true
is_commit _ = false

abbrev pub is_prepare : MessageType → Bool
is_prepare pre_prepare = true
is_prepare prepare = true
is_prepare _ = false

abbrev pub FromMember : List String → ConsensusMessage → Type 0
FromMember nodes m = contains nodes m.node_id ≡ true

-- The identity of the engine, which no event changes.
pub record Same (p q : Pbft) : Type 0 where
  pub nodes : q.nodes ≡ p.nodes
  pub node_id : q.node_id ≡ p.node_id
  pub f : q.f ≡ p.f

pub record Inv (p : Pbft) : Type 0 where
  pub self : contains p.nodes p.node_id ≡ true
  pub tolerance : p.f ≡ (length p.nodes - 1) / 3
  pub queue : All (FromMember p.nodes) p.msg_chan
  pub prepares : IsVoteLog is_prepare p.nodes p.prepare_messages
  pub commits : IsVoteLog is_commit p.nodes p.commit_messages

-- A new engine whose own name is on the node list starts in the invariant.
pub new_pbft-Inv :
    (id : String) (nodes : List String) (timeout : ℕ) (p : Pbft)
    → contains nodes id ≡ true
    → new_pbft id nodes timeout ≡ some p
    → Inv p
unfolding new_pbft
new_pbft-Inv id [] timeout p h e = cc
new_pbft-Inv id (n ∷ nodes) timeout p h e = subst Inv (some-injective _ _ e) (record {
  self = h;
  tolerance = refl;
  queue = tt;
  prepares = nil-IsVoteLog _ _;
  commits = nil-IsVoteLog _ _;
})
