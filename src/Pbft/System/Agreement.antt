-- ===== src/Pbft/System/Agreement.antt =====
-- The group of engines keeps the ledger's promise: nodes decide only what was proposed, and two
-- decisions for one number are the same.
use lab.Pbft.System.Implements.{IsStart, Proposed, Proposed-propose_in}
use mathlib.Core.Option.{some-injective}
use lab.Base.{
  ◌≡◌, List, [], ◌∷◌, All, String, inl, nat_eq, inr, string_eq, sym, ◌∙◌, subst, All-map, ◌⊎◌,
}
use lab.Pbft.Types.{Library}
use lab.Pbft.System.Ledger.{
  Ledger, LedgerReach, Decision, ledger_here, decide_in, ledger_next, decided, propose_in, proposed,
  empty_ledger, LedgerStep,
}
use lab.Pbft.System.Network.{World, WorldReach}
use lab.Pbft.System.Refinement.{WorldReach-Implements}

-- A decision among those of the nodes.
abbrev pub IsDecided : Decision → List Decision → Type 0
IsDecided d [] = ⊥
IsDecided d (c ∷ ds) = (c ≡ d) ⊎ IsDecided d ds

-- Every decision of a ledger is of what was proposed.
abbrev IsBacked : Ledger → Decision → Type 0
IsBacked l d = Proposed l d.sequence d.payload

LedgerReach-IsBacked : (l : Ledger) → LedgerReach empty_ledger l → All (IsBacked l) l.decisions
unfolding propose_in decide_in
LedgerReach-IsBacked l ledger_here = tt
LedgerReach-IsBacked l (ledger_next {k = k} r st) = by_step k l st (LedgerReach-IsBacked k r)
  where
    by_step :
        (k m : Ledger)
        → LedgerStep k m
        → All (IsBacked k) k.decisions
        → All (IsBacked m) m.decisions
    by_step k m (proposed seq value n) h =
        All-map (IsBacked k) (IsBacked (propose_in seq value k))
          (λ d g. Proposed-propose_in k seq d.sequence value d.payload n g) k.decisions h
    by_step k m (decided d g) h = (g, h)

IsDecided-IsBacked :
    (l : Ledger) (d : Decision) (ds : List Decision)
    → IsDecided d ds
    → All (IsBacked l) ds
    → IsBacked l d
IsDecided-IsBacked l d [] h b = absurd h
IsDecided-IsBacked l d (c ∷ ds) (inl e) b = subst (IsBacked l) e b.0
IsDecided-IsBacked l d (c ∷ ds) (inr h) b = IsDecided-IsBacked l d ds h b.1

-- In such a group, two nodes that deliver results for one number deliver the same payload, and so
-- does one node that delivers twice.
pub agreement :
    (lib : Library) (leader : String) (w v : World) (c d : Decision)
    → IsStart leader w
    → WorldReach lib w v
    → IsDecided c v.results
    → IsDecided d v.results
    → c.sequence ≡ d.sequence
    → c.payload ≡ d.payload
agreement lib leader w v c d start r hc hd e =
    let (l, reached, i) = WorldReach-Implements lib leader w v start r in
    let backed = LedgerReach-IsBacked l reached in
    let bc = IsDecided-IsBacked l c l.decisions (subst (IsDecided c) i.results hc) backed in
    let bd = IsDecided-IsBacked l d l.decisions (subst (IsDecided d) i.results hd) backed in
    some-injective _ _ (sym bc ∙ rw e bd)
