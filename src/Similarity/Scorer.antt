-- ===== src/Similarity/Scorer.antt =====
-- ClusterResponses and SelectConsensusResponse of project/oracle/pkg/similarity/semantic.go.
use lab.Base.{
  ℕ, suc, ◌+◌, Bool, String, List, [], ◌∷◌, Option, none, some, Map, lookup, insert, length,
  contains, nat_beq, ltb, if◌then◌else◌, ◌⊎◌, inl, string_eq, inr,
}
use lab.Similarity.Floats.{Float32, cosine_similarity}

pub record Response : Type 0 where
  pub text : String
  pub node_id : String

pub record Cluster (F : Type 0) : Type 0 where
  pub responses : List Response
  pub average_score : F
  pub representative : Response

pub data ClusterError : Type 0 where
  no_responses : ClusterError
  embedding_failed : String → ClusterError

pub data Clustering (F : Type 0) : Type 0 where
  clustered : List (Cluster F) → Clustering F
  not_clustered : ClusterError → Clustering F

module _ {F : Type 0} (fl : Float32 F) where
  abbrev pub Matrix : Type 0
  Matrix = Map String (Map String F)

  -- The first loop: the embeddings by node, or the first response that has none.
  unfoldable pub embed_all :
      (String → Option (List F))
      → List Response
      → Map String (List F)
      → ClusterError ⊎ Map String (List F)
  embed_all embed [] known = inr known
  embed_all embed (r ∷ rs) known = elim (embed r.text) [
    | none ↦ inl (embedding_failed r.node_id)
    | some vector ↦ embed_all embed rs (insert r.node_id vector known)
  ]

  -- A missing entry of a map of slices is nil.
  unfoldable pub embedding_of : String → Map String (List F) → List F
  embedding_of id known = elim (lookup id known) [ none ↦ [] | some v ↦ v ]

  -- `similarities[a][b]`; a missing entry is 0.
  unfoldable pub score : Matrix → String → String → F
  score scores a b = elim (lookup a scores) [
    | none ↦ fl.zero
    | some row ↦ elim (lookup b row) [ none ↦ fl.zero | some s ↦ s ]
  ]

  -- The inner loop over the pairs: the row of the response at place i, from place j on.
  unfoldable pub score_row :
      Map String (List F) → ℕ → Response → ℕ → List Response → Map String F → Map String F
  score_row known i r j [] row = row
  score_row known i r j (o ∷ os) row = score_row known i r (suc j) os (
      insert o.node_id
        (if nat_beq i j
          then fl.one
          else cosine_similarity fl (embedding_of r.node_id known) (embedding_of o.node_id known))
        row)

  -- The outer loop, from place i on. A row starts empty, also for a node that has one.
  unfoldable pub score_all :
      Map String (List F) → List Response → ℕ → List Response → Matrix → Matrix
  unfolding score_row embedding_of
  score_all known all i [] scores = scores
  score_all known all i (r ∷ rs) scores =
      score_all known all (suc i) rs (insert r.node_id (score_row known i r 0 all []) scores)

  -- The loop that finds the responses near to a representative; `used` lists the keys of the map.
  unfoldable pub gather :
      Matrix → F → Response → List Response → List String → List Response × List String
  unfolding score
  gather scores threshold r [] used = ([], used)
  gather scores threshold r (o ∷ os) used =
      let taken = gather scores threshold r os (o.node_id ∷ used) in
      let rest = gather scores threshold r os used in
      if contains used o.node_id
      then rest
      else if fl.at_least (score scores r.node_id o.node_id) threshold
      then (o ∷ taken.0, taken.1)
      else rest

  -- The sum and the number of the scores of a response and those behind it.
  unfoldable pub sum_row : Matrix → Response → List Response → F × ℕ → F × ℕ
  unfolding score
  sum_row scores r [] acc = acc
  sum_row scores r (o ∷ os) acc =
      sum_row scores r os (fl.plus acc.0 (score scores r.node_id o.node_id), acc.1 + 1)

  unfoldable pub sum_pairs : Matrix → List Response → F × ℕ → F × ℕ
  unfolding sum_row
  sum_pairs scores [] acc = acc
  sum_pairs scores (r ∷ rs) acc = sum_pairs scores rs (sum_row scores r rs acc)

  unfoldable pub average : Matrix → List Response → F
  unfolding sum_pairs
  average scores members =
      let sums = sum_pairs scores members (fl.zero, 0) in
      if ltb 0 sums.1 then fl.over sums.0 (fl.of_count sums.1) else fl.one

  -- The loop that builds the clusters.
  unfoldable pub build : Matrix → F → List Response → List Response → List String → List (Cluster F)
  unfolding gather average
  build scores threshold all [] used = []
  build scores threshold all (r ∷ rs) used =
      let near = gather scores threshold r all (r.node_id ∷ used) in
      let cluster : Cluster F = record {
        responses = r ∷ near.0;
        average_score = average scores (r ∷ near.0);
        representative = r;
      } in
      let skipped = build scores threshold all rs used in
      let rest = build scores threshold all rs near.1 in
      if contains used r.node_id then skipped else cluster ∷ rest

  -- The order of the result: larger clusters first, then higher averages.
  unfoldable pub is_before : Cluster F → Cluster F → Bool
  is_before c d =
      if nat_beq (length c.responses) (length d.responses)
      then fl.above c.average_score d.average_score
      else ltb (length d.responses) (length c.responses)

  -- ClusterResponses; `sort` is sort.Slice at the order of the result.
  unfoldable pub cluster_responses :
      (String → Option (List F))
      → (List (Cluster F) → List (Cluster F))
      → List Response
      → F
      → Clustering F
  unfolding embed_all score_all build
  cluster_responses embed sort [] threshold = not_clustered no_responses
  cluster_responses embed sort (r ∷ rs) threshold = elim (embed_all embed (r ∷ rs) []) [
    | inl err ↦ not_clustered err
    | inr known ↦
        clustered
          (sort (build (score_all known (r ∷ rs) 0 (r ∷ rs) []) threshold (r ∷ rs) (r ∷ rs) []))
  ]

-- SelectConsensusResponse
unfoldable pub select_consensus_response : {F : Type 0} → List (Cluster F) → Option Response
select_consensus_response [] = none
select_consensus_response (c ∷ cs) = elim c.responses [ [] ↦ none | _ ∷ _ ↦ some c.representative ]
