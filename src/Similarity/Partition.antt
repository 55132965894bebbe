-- ===== src/Similarity/Partition.antt =====
-- The clusters of project/oracle/pkg/similarity/semantic.go divide the nodes: every node that has
-- answered is in one cluster, once.
use lab.Base.{
  ◌≡◌, String, List, [], ◌∷◌, ◌++◌, contains, Distinct, arith, string_eq, refl, true, inl, inr,
  Option, All, some, Bool-cases, Map, none, insert,
}
use lab.Similarity.Floats.{Float32}
use lab.Similarity.Scorer.{
  Response, Cluster, build, gather, Matrix, cluster_responses, score, embed_all, clustered,
  not_clustered, score_all, embedding_failed,
}
use lab.Similarity.Covering.{ids_of, members, same_true, build-among, build-covers, build-Distinct}

module _ {F : Type 0} (fl : Float32 F) where
  -- A response's score against a representative reaches the threshold.
  abbrev IsNear : Matrix fl → F → Response → Response → Type 0
  IsNear scores threshold r o = fl.at_least (score fl scores r.node_id o.node_id) threshold ≡ true

  -- A cluster is its representative and responses near to it.
  pub record IsCluster (scores : Matrix fl) (threshold : F) (c : Cluster F) : Type 0 where
    pub rest : List Response
    pub starts : c.responses ≡ c.representative ∷ rest
    pub near : All (IsNear scores threshold c.representative) rest

  gather-IsNear :
      (scores : Matrix fl) (threshold : F) (r : Response) (os : List Response) (used : List String)
      → All (IsNear scores threshold r) (gather fl scores threshold r os used).0
  unfolding gather
  gather-IsNear scores threshold r [] used = tt
  gather-IsNear scores threshold r (o ∷ os) used = ground (
    arith,
    gather-IsNear scores threshold r os used,
    gather-IsNear scores threshold r os (o.node_id ∷ used),
  )

  build-IsCluster :
      (scores : Matrix fl) (threshold : F) (all rs : List Response) (used : List String)
      → All (IsCluster scores threshold) (build fl scores threshold all rs used)
  unfolding build
  build-IsCluster scores threshold all [] used = tt
  build-IsCluster scores threshold all (r ∷ rs) used =
      let near = gather fl scores threshold r all (r.node_id ∷ used) in
      elim (Bool-cases (contains used r.node_id)) [
        | inl e ↦ rw e (build-IsCluster scores threshold all rs used)
        | inr e ↦ rw e (
          record {
            rest = near.0;
            starts = refl;
            near = gather-IsNear scores threshold r all (r.node_id ∷ used);
          },
          build-IsCluster scores threshold all rs near.1,
        )
      ]

  -- Every text of some responses has an embedding.
  abbrev pub HasEmbedding : (String → Option (List F)) → Response → Type 0
  HasEmbedding embed r = (v : List F) × (embed r.text ≡ some v)

  embed_all_total :
      (embed : String → Option (List F)) (rs : List Response) (known : Map String (List F))
      → All (HasEmbedding embed) rs
      → (found : Map String (List F)) × (embed_all fl embed rs known ≡ inr found)
  unfolding embed_all
  embed_all_total embed [] known h = (known, refl)
  embed_all_total embed (r ∷ rs) known h =
      let (v, e) = h.0 in
      rw (embed_all, e) (embed_all_total embed rs (insert r.node_id v known) h.1)

  -- ClusterResponses of responses that all have an embedding sorts clusters of this kind: each is a
  -- representative and responses whose scores against it reach the threshold; and the nodes of all
  -- clusters are those of the responses, each once, also where a node has given several responses.
  pub cluster_responses-IsCluster :
      (embed : String → Option (List F)) (sort : List (Cluster F) → List (Cluster F)) (r : Response)
      (rs : List Response) (threshold : F)
      → All (HasEmbedding embed) (r ∷ rs)
      → (known : Map String (List F)) × (cs : List (Cluster F)) × (embed_all fl embed (r ∷ rs) []
          ≡ inr known)
        × (cluster_responses fl embed sort (r ∷ rs) threshold ≡ clustered (sort cs))
        × All (IsCluster (score_all fl known (r ∷ rs) 0 (r ∷ rs) []) threshold) cs
        × Distinct (members cs)
        × ((j : String) → contains (members cs) j ≡ contains (ids_of (r ∷ rs)) j)
  unfolding cluster_responses
  cluster_responses-IsCluster embed sort r rs threshold h =
      let (known, e) = embed_all_total embed (r ∷ rs) [] h in
      let scores = score_all fl known (r ∷ rs) 0 (r ∷ rs) [] in
      let all = r ∷ rs in
      (
        known,
        build fl scores threshold all all [],
        e,
        rw (cluster_responses, e) refl,
        build-IsCluster scores threshold all all [],
        build-Distinct fl scores threshold all all [],
        λ j.
            same_true _ _ (build-among fl scores threshold all all [] j (λ k. k))
              (λ k. build-covers fl scores threshold all all [] j k refl),
      )

  embed_all_failed :
      (embed : String → Option (List F)) (before after : List Response) (r : Response)
      (known : Map String (List F))
      → All (HasEmbedding embed) before
      → embed r.text ≡ none
      → embed_all fl embed (before ++ (r ∷ after)) known ≡ inl (embedding_failed r.node_id)
  unfolding embed_all
  embed_all_failed embed [] after r known h e = rw (embed_all, e) refl
  embed_all_failed embed (b ∷ before) after r known h e =
      let (v, k) = h.0 in
      rw (embed_all, k) (embed_all_failed embed before after r (insert b.node_id v known) h.1 e)

  -- The first response without an embedding ends ClusterResponses with an error that names its node.
  pub cluster_responses_failed :
      (embed : String → Option (List F)) (sort : List (Cluster F) → List (Cluster F))
      (before after : List Response) (r : Response) (threshold : F)
      → All (HasEmbedding embed) before
      → embed r.text ≡ none
      → cluster_responses fl embed sort (before ++ (r ∷ after)) threshold
        ≡ not_clustered (embedding_failed r.node_id)
  unfolding cluster_responses
  cluster_responses_failed embed sort [] after r threshold h e =
      rw (cluster_responses, embed_all_failed embed [] after r [] h e) refl
  cluster_responses_failed embed sort (b ∷ before) after r threshold h e =
      rw (cluster_responses, embed_all_failed embed (b ∷ before) after r [] h e) refl
