-- ===== src/Similarity/Tests.antt =====
-- Clusterings with whole numbers in the place of float32.
use lab.Similarity.Covering.{members}
use lab.Similarity.Partition.{IsCluster, cluster_responses-IsCluster}
use lab.Similarity.Scorer.{Response, Cluster, cluster_responses, clustered, embed_all, score_all}
use lab.Base.{
  ◌≡◌, ℕ, ◌+◌, ◌*◌, ◌/◌, String, List, [], ◌∷◌, Option, none, some, leb, ltb, nat_beq, refl,
  if◌then◌else◌, ◌==◌, string_eq, All, Distinct, contains, inr, Map,
}
use lab.Similarity.Floats.{Float32}

-- Shares of one hundred; only equal vectors are near.
abbrev whole : Float32 ℕ
whole = record {
  zero = 0;
  one = 100;
  plus = λ a b. a + b;
  times = λ a b. a * b;
  over = λ a b. a * 100 / b;
  sqrt = λ a. a;
  of_count = λ n. n;
  is_zero = λ a. nat_beq a 0;
  at_least = λ a b. leb b a;
  above = λ a b. ltb b a;
}

-- "a" and "b" have embeddings, "" has none.
embed : String → Option (List ℕ)
embed text =
    if text == "" then none else if text == "a" then some (1 ∷ 0 ∷ []) else some (0 ∷ 1 ∷ [])

abbrev answer : String → String → Response
answer text id = record { text = text; node_id = id }

abbrev four : List Response
four = answer "a" "n0" ∷ answer "b" "n1" ∷ answer "a" "n2" ∷ answer "b" "n0" ∷ []

cluster_responses-IsCluster_example :
    (known : Map String (List ℕ)) × (cs : List (Cluster ℕ)) × (embed_all whole embed four []
      ≡ inr known)
    × (cluster_responses whole embed (λ cs. cs) four 85 ≡ clustered cs)
    × All (IsCluster whole (score_all whole known four 0 four []) 85) cs
    × Distinct (members cs)
    × ((j : String) → contains (members cs) j ≡ contains ("n0" ∷ "n1" ∷ "n2" ∷ "n0" ∷ []) j)
unfolding embed
cluster_responses-IsCluster_example =
    cluster_responses-IsCluster whole embed (λ cs. cs) (answer "a" "n0")
      (answer "b" "n1" ∷ answer "a" "n2" ∷ answer "b" "n0" ∷ []) 85
      ((_, refl), ((_, refl), ((_, refl), ((_, refl), tt))))

abbrev large : Cluster ℕ
large = record {
  responses = answer "a" "n0" ∷ answer "a" "n2" ∷ [];
  average_score = 100;
  representative = answer "a" "n0";
}

abbrev small : Cluster ℕ
small = record {
  responses = answer "b" "n1" ∷ [];
  average_score = 100;
  representative = answer "b" "n1";
}
