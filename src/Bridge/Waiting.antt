-- ===== src/Bridge/Waiting.antt =====
-- What the wait of project/scripts/caller.go finds, and when.
use mathlib.Core.Option.{some-injective}
use lab.Base.{
  ℕ, ◌≤◌, ◌≡◌, ◌≢◌, String, List, [], ◌∷◌, none, some, ◌⊎◌, inl, inr, Option-cases, beq_cases, sym,
  ◌∙◌, refl, nat_eq, subst,
}
use lab.Bridge.Types.{LogEntry}
use lab.Bridge.Answers.{IsEntry}
use lab.Bridge.Caller.{
  View, Found, Progress, again, found, first_response, check_blocks, WaitEvent, tick, timeout,
}

-- A client that, for a range of blocks, gives the logs of this range only.
abbrev pub IsExact : View → Type 0
IsExact v =
    (id : String) (first last : ℕ) (entries : List LogEntry) (entry : LogEntry)
    → v.filter_logs id first last ≡ some entries
    → IsEntry entry entries
    → (first ≤ entry.block_number) × (entry.block_number ≤ last)

-- A tick whose answer of the chain brought the response.
pub record IsSource (request_id : String) (f : Found) (v : View) : Type 0 where
  pub first : ℕ
  pub last : ℕ
  pub entries : List LogEntry
  pub entry : LogEntry
  pub answer : v.filter_logs request_id first last ≡ some entries
  pub is : IsEntry entry entries
  pub block : entry.block_number ≡ f.block_number
  pub decoded : v.unpack_response entry.payload ≡ some f.event

abbrev pub HasSource : String → Found → List WaitEvent → Type 0
HasSource request_id f [] = ⊥
HasSource request_id f (timeout ∷ es) = ⊥
HasSource request_id f (tick v ∷ es) = IsSource request_id f v ⊎ HasSource request_id f es

-- How a tick goes on: it leaves the block it had, or it goes to the chain's; or it found a response in the
-- range between.
pub data IsCheck (v : View) (request_id : String) (last : ℕ) : Progress → Type 0 where
  kept :
      ((c : ℕ) → v.block_number ≡ some c → c ≢ last → v.filter_logs request_id last c ≡ none)
      → IsCheck v request_id last (again last)
  moved :
      (c : ℕ) (entries : List LogEntry)
      → v.block_number ≡ some c
      → v.filter_logs request_id last c ≡ some entries
      → first_response v entries ≡ none
      → IsCheck v request_id last (again c)
  ended :
      (c : ℕ) (entries : List LogEntry) (f : Found)
      → v.block_number ≡ some c
      → v.filter_logs request_id last c ≡ some entries
      → first_response v entries ≡ some f
      → IsCheck v request_id last (found f)

pub check_blocks-IsCheck :
    (v : View) (request_id : String) (last : ℕ)
    → IsCheck v request_id last (check_blocks v request_id last)
unfolding check_blocks
check_blocks-IsCheck v request_id last = elim (Option-cases v.block_number) [
  | inl e ↦ is (rw (e, check_blocks) refl) (kept (λ c q _. cc))
  | inr (c, e) ↦ elim (beq_cases c last) [
    | inl (same, at_) ↦
        is (rw (e, same, check_blocks) refl)
          (kept (λ d q ne. absurd (ne (some-injective _ _ (sym q ∙ e) ∙ at_))))
    | inr (differs, ne) ↦ elim (Option-cases (v.filter_logs request_id last c)) [
      | inl q ↦
          is (rw (e, differs, q, check_blocks) refl)
            (kept (λ d r _. rw (some-injective _ _ (sym r ∙ e)) q))
      | inr (entries, q) ↦ elim (Option-cases (first_response v entries)) [
        | inl r ↦ is (rw (e, differs, q, r, check_blocks) refl) (moved c entries e q r)
        | inr (f, r) ↦ is (rw (e, differs, q, r, check_blocks) refl) (ended c entries f e q r)
      ]
    ]
  ]
]
  where
    is :
        {p : Progress}
        → check_blocks v request_id last ≡ p
        → IsCheck v request_id last p
        → IsCheck v request_id last (check_blocks v request_id last)
    is q k = subst (IsCheck v request_id last) (sym q) k

-- The chain never shows a number below a block, and its answers are exact.
abbrev pub AreAbove : ℕ → List WaitEvent → Type 0
AreAbove start [] = Unit
AreAbove start (timeout ∷ es) = Unit
AreAbove start (tick v ∷ es) =
    IsExact v × ((c : ℕ) → v.block_number ≡ some c → start ≤ c) × AreAbove start es
