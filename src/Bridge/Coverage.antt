-- ===== src/Bridge/Coverage.antt =====
-- Which blocks the listener of project/scripts/main.go scans.
use lab.Base.{
  String, List, ℕ, ◌∷◌, ◌++◌, ◌≡◌, ◌<◌, ◌+◌, if◌then◌else◌, none, some, ◌≤◌, u64_mod, [], leb,
  arith, ltb, ◌&&◌, Option-cases, inl, inr, add64, sub64, refl,
}
use lab.Bridge.Types.{World}
use lab.Bridge.Listener.{Range, poll, monitor, scan_start}

-- How many of the ranges a block is in.
abbrev pub hits : ℕ → List Range → ℕ
hits b [] = 0
hits b (r ∷ rs) = (if leb r.first b && leb b r.last then 1 else 0) + hits b rs

hits-append : (b : ℕ) (rs ss : List Range) → hits b (rs ++ ss) ≡ hits b rs + hits b ss
hits-append b [] ss = omega arith
hits-append b (r ∷ rs) ss = omega (arith, hits-append b rs ss)

-- The block numbers that the chain shows never fall, and stay in uint64.
abbrev pub IsRising : ℕ → List World → Type 0
IsRising low [] = Unit
IsRising low (w ∷ ws) = elim w.block_number [
  | none ↦ IsRising low ws
  | some current ↦ (low ≤ current) × (current + 1 < u64_mod) × IsRising current ws
]

-- A chain that turns a range away whose end is before its start.
abbrev pub Refuses : World → Type 0
Refuses w = (first last : ℕ) → last < first → w.filter_logs first last ≡ none

-- Block numbers that are not at the end of uint64, on chains that refuse such ranges.
abbrev pub AreSmall : List World → Type 0
AreSmall [] = Unit
AreSmall (w ∷ ws) =
    Refuses w × ((c : ℕ) → w.block_number ≡ some c → c + 100 < u64_mod) × AreSmall ws

-- One tick, when the chain is past a block that was checked.
poll_lem :
    (w : World) (key : String) (last c b : ℕ)
    → 0 < last
    → last ≤ c
    → c + 1 < u64_mod
    → w.block_number ≡ some c
    → ((poll w key last).last_block ≤ c)
      × (last ≤ (poll w key last).last_block)
      × (hits b (poll w key last).scanned
          ≡ (if ltb last b && leb b (poll w key last).last_block then 1 else 0))
unfolding poll scan_start
poll_lem w key last c b h k fits e =
    let start : scan_start last c ≡ last = ground arith in
    elim (Option-cases (w.filter_logs (add64 (scan_start last c) 1) c)) [
      | inl q ↦ rw (e, poll, q, start) (ground arith)
      | inr (entries, q) ↦ rw (e, poll, q, start) (ground arith)
    ]

poll_unknown :
    (w : World) (key : String) (last : ℕ)
    → w.block_number ≡ none
    → poll w key last ≡ record { last_block = last; scanned = []; steps = [] }
unfolding poll
poll_unknown w key last e = rw (e, poll)

-- Once a block counts as checked, and while the block numbers that the chain shows do not fall and stay
-- below the end of uint64, each block behind it and up to the last one that counts as checked then has been
-- in exactly one of the ranges that the chain answered, and no other block in any.
pub monitor_covers :
    (ws : List World) (key : String) (last low b : ℕ)
    → 0 < last
    → last ≤ low
    → IsRising low ws
    → (last ≤ (monitor ws key last).last_block)
      × (hits b (monitor ws key last).scanned
          ≡ (if ltb last b && leb b (monitor ws key last).last_block then 1 else 0))
unfolding monitor
monitor_covers [] key last low b h k r = ground arith
monitor_covers (w ∷ ws) key last low b h k r = elim (Option-cases w.block_number) [
  | inl e ↦
      let same = poll_unknown w key last e in
      let rest = monitor_covers ws key last low b h k (rw e at r) in rw same rest
  | inr (c, e) ↦
      let (le, fits, rising) : (low ≤ c) × (c + 1 < u64_mod) × IsRising c ws = rw e at r in
      let (below, grows, now) = poll_lem w key last c b h (omega arith) fits e in
      let (more, later) =
        monitor_covers ws key (poll w key last).last_block c b (omega arith) below rising in
      ground (
        arith,
        hits-append b (poll w key last).scanned
            (monitor ws key (poll w key last).last_block).scanned,
        now,
        later,
      )
]

-- A listener whose start is at the end of uint64 scans nothing.
stays_stuck :
    (ws : List World) (key : String) (last : ℕ)
    → u64_mod ≤ last + 100
    → last + 1 < u64_mod
    → AreSmall ws
    → monitor ws key last ≡ record { last_block = last; scanned = []; steps = [] }
unfolding monitor poll scan_start
stays_stuck [] key last h k small = refl
stays_stuck (w ∷ ws) key last h k small = elim (Option-cases w.block_number) [
  | inl e ↦ rw (poll_unknown w key last e) (rw (stays_stuck ws key last h k small.2))
  | inr (c, e) ↦
      let start : scan_start last c ≡ last = ground arith in
      let fits : c < last + 1 = omega (arith, small.1 c e) in
      let next : add64 last 1 ≡ last + 1 = omega arith in
      let refused = small.0 (last + 1) c fits in
      let tick : poll w key last ≡ record { last_block = last; scanned = []; steps = [] } =
        rw (e, poll, start, next, refused, start) in
      rw tick (rw (stays_stuck ws key last h k small.2))
]

-- On a chain that shows less than 99 blocks when the listener first asks, the start of the scan wraps
-- around; and if the chain refuses ranges whose end is before their start, the listener never scans a block
-- or asks the oracle, however far the chain grows, as long as its numbers stay more than 100 below the end
-- of uint64.
pub monitor_stuck :
    (w : World) (ws : List World) (key : String) (c : ℕ)
    → w.block_number ≡ some c
    → c < 99
    → AreSmall (w ∷ ws)
    → ((monitor (w ∷ ws) key 0).scanned ≡ []) × ((monitor (w ∷ ws) key 0).steps ≡ [])
unfolding monitor poll scan_start
monitor_stuck w ws key c e h small =
    let last = sub64 c 100 in
    let start : scan_start 0 c ≡ last = ground arith in
    let near : (u64_mod ≤ last + 100) × (last + 1 < u64_mod) = omega arith in
    let next : add64 last 1 ≡ last + 1 = omega arith in
    let refused = small.0 (last + 1) c (omega arith) in
    let tick : poll w key 0 ≡ record { last_block = last; scanned = []; steps = [] } =
      rw (e, poll, start, next, refused, start) in
    let rest = stays_stuck ws key last near.0 near.1 small.2 in rw (tick, rest) (refl, refl)
