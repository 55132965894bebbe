-- ===== src/Bridge/Finding.antt =====
-- The wait of project/scripts/caller.go finds a response that is there.
use lab.Base.{ℕ, ◌≤◌, ◌≡◌, ◌≢◌, String, List, [], ◌∷◌, none, some, nat_eq}
use lab.Bridge.Types.{LogEntry}
use lab.Bridge.Answers.{IsEntry}
use lab.Bridge.Caller.{View, WaitEvent, tick, timeout}

-- A client whose answers for a request hold a log when their range holds its block.
abbrev pub Shows : String → LogEntry → View → Type 0
Shows request_id entry v =
    (first last : ℕ) (entries : List LogEntry)
    → v.filter_logs request_id first last ≡ some entries
    → first ≤ entry.block_number
    → entry.block_number ≤ last
    → IsEntry entry entries

-- Ticks that show a log of a request, which decodes.
abbrev pub AllShow : String → LogEntry → List WaitEvent → Type 0
AllShow request_id entry [] = Unit
AllShow request_id entry (timeout ∷ es) = ⊥
AllShow request_id entry (tick v ∷ es) =
    Shows request_id entry v
    × (v.unpack_response entry.payload ≢ none)
    × AllShow request_id entry es
