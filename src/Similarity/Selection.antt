-- ===== src/Similarity/Selection.antt =====
-- The response that project/oracle/pkg/similarity/semantic.go selects.
use lab.Base.{◌≡◌, ℕ, List, [], ◌∷◌, length, ◌≤◌, false, some, arith, ◌<◌}
use lab.Similarity.Floats.{Float32}
use lab.Similarity.Scorer.{Cluster, is_before, select_consensus_response}

module _ {F : Type 0} (fl : Float32 F) where
  -- What sort.Slice leaves: no cluster belongs before the one in front of it.
  abbrev pub IsSorted : List (Cluster F) → Type 0
  IsSorted [] = Unit
  IsSorted (c ∷ []) = Unit
  IsSorted (c ∷ d ∷ cs) = (is_before fl d c ≡ false) × IsSorted (d ∷ cs)

  -- No cluster of a list is larger than a number of responses.
  abbrev pub NoLarger : ℕ → List (Cluster F) → Type 0
  NoLarger n [] = Unit
  NoLarger n (c ∷ cs) = (length c.responses ≤ n) × NoLarger n cs

  NoLarger-mono : (m n : ℕ) (cs : List (Cluster F)) → m ≤ n → NoLarger m cs → NoLarger n cs
  NoLarger-mono m n [] h k = tt
  NoLarger-mono m n (c ∷ cs) h k = (omega (arith, k.0), NoLarger-mono m n cs h k.1)

  is_before-le :
      (c d : Cluster F) → is_before fl d c ≡ false → length d.responses ≤ length c.responses
  unfolding is_before
  is_before-le c d h = ground arith

  sorted-NoLarger :
      (c : Cluster F) (cs : List (Cluster F)) → IsSorted (c ∷ cs) → NoLarger (length c.responses) cs
  sorted-NoLarger c [] h = tt
  sorted-NoLarger c (d ∷ cs) h =
      let le = is_before-le c d h.0 in (le, NoLarger-mono _ _ cs le (sorted-NoLarger d cs h.1))

  -- Of sorted clusters, the first of which is not empty, SelectConsensusResponse takes the representative
  -- of one that no other exceeds in size.
  pub select_consensus_response-NoLarger :
      (c : Cluster F) (cs : List (Cluster F))
      → IsSorted (c ∷ cs)
      → 0 < length c.responses
      → (select_consensus_response (c ∷ cs) ≡ some c.representative)
        × NoLarger (length c.responses) cs
  unfolding select_consensus_response
  select_consensus_response-NoLarger c cs h k = (ground arith, sorted-NoLarger c cs h)
