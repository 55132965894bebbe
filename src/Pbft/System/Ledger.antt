-- ===== src/Pbft/System/Ledger.antt =====
-- What a group of consensus engines promises, without engines or messages: a value is proposed for a
-- number once, and each node decides only what was proposed.
use lab.Base.{◌≡◌, ℕ, String, List, [], ◌∷◌, none, some, Map, lookup, insert, nat_eq}
use lab.Pbft.Types.{Bytes}

pub record Decision : Type 0 where
  pub node_id : String
  pub sequence : ℕ
  pub payload : Bytes

pub record Ledger : Type 0 where
  pub proposals : Map ℕ Bytes
  pub decisions : List Decision  -- newest first

abbrev pub empty_ledger : Ledger
empty_ledger = record { proposals = []; decisions = [] }

unfoldable pub propose_in : ℕ → Bytes → Ledger → Ledger
propose_in seq value l = record l { proposals = insert seq value l.proposals }

unfoldable pub decide_in : Decision → Ledger → Ledger
decide_in d l = record l { decisions = d ∷ l.decisions }

pub data LedgerStep (l : Ledger) : Ledger → Type 0 where
  proposed :
      (seq : ℕ) (value : Bytes)
      → lookup seq l.proposals ≡ none
      → LedgerStep l (propose_in seq value l)
  decided :
      (d : Decision) → lookup d.sequence l.proposals ≡ some d.payload → LedgerStep l (decide_in d l)

pub data LedgerReach (l : Ledger) : Ledger → Type 0 where
  ledger_here : LedgerReach l l
  ledger_next : {k m : Ledger} → LedgerReach l k → LedgerStep k m → LedgerReach l m

pub LedgerReach-trans : {l k m : Ledger} → LedgerReach l k → LedgerReach k m → LedgerReach l m
LedgerReach-trans r ledger_here = r
LedgerReach-trans r (ledger_next s t) = ledger_next (LedgerReach-trans r s) t
