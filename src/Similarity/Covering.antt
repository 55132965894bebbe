-- ===== src/Similarity/Covering.antt =====
-- The nodes in the clusters that the loops of project/oracle/pkg/similarity/semantic.go build.
use lab.Base.{
  ◌≡◌, String, List, [], ◌∷◌, ◌++◌, Bool, contains, Distinct, ◌||◌, arith, false, string_eq, refl,
  beq_self, true, beq_cases, inl, inr, sym,
}
use lab.Similarity.Floats.{Float32}
use lab.Similarity.Scorer.{Response, Cluster, build, gather, Matrix}

abbrev pub ids_of : List Response → List String
ids_of [] = []
ids_of (r ∷ rs) = r.node_id ∷ ids_of rs

-- The nodes of all clusters, in their order.
abbrev pub members : {F : Type 0} → List (Cluster F) → List String
members [] = []
members (c ∷ cs) = ids_of c.responses ++ members cs

contains-append :
    (xs ys : List String) (j : String) → contains (xs ++ ys) j ≡ (contains xs j || contains ys j)
contains-append [] ys j = refl
contains-append (x ∷ xs) ys j = ground (arith, contains-append xs ys j)

pub same_true : (a b : Bool) → (a ≡ true → b ≡ true) → (b ≡ true → a ≡ true) → a ≡ b
same_true true b h k = sym (h refl)
same_true false true h k = k refl
same_true false false h k = refl

-- Nothing of the first list is in the second.
abbrev Apart : List String → List String → Type 0
Apart [] ys = Unit
Apart (x ∷ xs) ys = (contains ys x ≡ false) × Apart xs ys

Distinct-append :
    (xs ys : List String) → Distinct xs → Distinct ys → Apart xs ys → Distinct (xs ++ ys)
Distinct-append [] ys d e a = e
Distinct-append (x ∷ xs) ys d e a =
    ground (arith, contains-append xs ys x, Distinct-append xs ys d.1 e a.1)

Apart-of :
    (xs ys : List String)
    → ((j : String) → contains xs j ≡ true → contains ys j ≡ false)
    → Apart xs ys
Apart-of [] ys h = tt
Apart-of (x ∷ xs) ys h = (
  h x (rw (beq_self x) refl),
  Apart-of xs ys (λ j k. h j (elim (beq_cases x j) [ inl e ↦ rw e.0 refl | inr e ↦ rw e.0 k ])),
)

module _ {F : Type 0} (fl : Float32 F) where
  -- The nodes that a gathering adds: they are responses', not used before, and used afterwards.
  gather-used :
      (scores : Matrix fl) (threshold : F) (r : Response) (os : List Response) (used : List String)
      (j : String)
      → contains (gather fl scores threshold r os used).1 j
        ≡ (contains used j || contains (ids_of (gather fl scores threshold r os used).0) j)
  unfolding gather
  gather-used scores threshold r [] used j = ground arith
  gather-used scores threshold r (o ∷ os) used j = ground (
    arith,
    gather-used scores threshold r os used j,
    gather-used scores threshold r os (o.node_id ∷ used) j,
  )

  gather-new :
      (scores : Matrix fl) (threshold : F) (r : Response) (os : List Response) (used : List String)
      (j : String)
      → contains used j ≡ true
      → contains (ids_of (gather fl scores threshold r os used).0) j ≡ false
  unfolding gather
  gather-new scores threshold r [] used j h = refl
  gather-new scores threshold r (o ∷ os) used j h =
      let later = gather-new scores threshold r os used j h in
      elim (beq_cases o.node_id j) [
        | inl e ↦ let seen : contains used o.node_id ≡ true = rw e.1 h in ground (arith, later)
        | inr e ↦
            let taken = gather-new scores threshold r os (o.node_id ∷ used) j (rw e.0 h) in
            ground (arith, later, taken)
      ]

  gather-Distinct :
      (scores : Matrix fl) (threshold : F) (r : Response) (os : List Response) (used : List String)
      → Distinct (ids_of (gather fl scores threshold r os used).0)
  unfolding gather
  gather-Distinct scores threshold r [] used = tt
  gather-Distinct scores threshold r (o ∷ os) used = ground (
    arith,
    gather-Distinct scores threshold r os used,
    gather-Distinct scores threshold r os (o.node_id ∷ used),
    gather-new scores threshold r os (o.node_id ∷ used) o.node_id,
    beq_self o.node_id,
  )

  gather-among :
      (scores : Matrix fl) (threshold : F) (r : Response) (os : List Response) (used : List String)
      (j : String)
      → contains (ids_of (gather fl scores threshold r os used).0) j ≡ true
      → contains (ids_of os) j ≡ true
  unfolding gather
  gather-among scores threshold r [] used j h = cc
  gather-among scores threshold r (o ∷ os) used j h = ground (
    arith,
    gather-among scores threshold r os used j,
    gather-among scores threshold r os (o.node_id ∷ used) j,
  )

  -- What the loop builds from some responses: nodes not used before, each once, and all of them that
  -- the gathering reaches.
  build-new :
      (scores : Matrix fl) (threshold : F) (all rs : List Response) (used : List String)
      (j : String)
      → contains used j ≡ true
      → contains (members (build fl scores threshold all rs used)) j ≡ false
  unfolding build
  build-new scores threshold all [] used j h = refl
  build-new scores threshold all (r ∷ rs) used j h =
      let near = gather fl scores threshold r all (r.node_id ∷ used) in
      let skipped = build-new scores threshold all rs used j h in
      let joined =
        contains-append (ids_of near.0) (members (build fl scores threshold all rs near.1)) j in
      let grown = gather-used scores threshold r all (r.node_id ∷ used) j in
      elim (beq_cases r.node_id j) [
        | inl e ↦ let seen : contains used r.node_id ≡ true = rw e.1 h in ground (arith, skipped)
        | inr e ↦
            let fresh = gather-new scores threshold r all (r.node_id ∷ used) j (rw e.0 h) in
            let later = build-new scores threshold all rs near.1 j (rw grown (rw (e.0, h))) in
            ground (arith, skipped, joined, fresh, later)
      ]

  pub build-Distinct :
      (scores : Matrix fl) (threshold : F) (all rs : List Response) (used : List String)
      → Distinct (members (build fl scores threshold all rs used))
  unfolding build
  build-Distinct scores threshold all [] used = tt
  build-Distinct scores threshold all (r ∷ rs) used =
      let near = gather fl scores threshold r all (r.node_id ∷ used) in
      let self : contains (r.node_id ∷ used) r.node_id ≡ true = rw (beq_self r.node_id) refl in
      let head = gather-new scores threshold r all (r.node_id ∷ used) r.node_id self in
      let later = build-Distinct scores threshold all rs near.1 in
      let apart =
        Apart-of (r.node_id ∷ ids_of near.0) (members (build fl scores threshold all rs near.1))
          (λ j h.
            build-new scores threshold all rs near.1 j
              (rw (gather-used scores threshold r all (r.node_id ∷ used) j) (ground (arith, h)))) in
      let joined =
        Distinct-append (r.node_id ∷ ids_of near.0)
          (members (build fl scores threshold all rs near.1))
          (head, gather-Distinct scores threshold r all (r.node_id ∷ used)) later apart in
      ground (arith, build-Distinct scores threshold all rs used, joined)

  pub build-covers :
      (scores : Matrix fl) (threshold : F) (all rs : List Response) (used : List String)
      (j : String)
      → contains (ids_of rs) j ≡ true
      → contains used j ≡ false
      → contains (members (build fl scores threshold all rs used)) j ≡ true
  unfolding build
  build-covers scores threshold all [] used j h n = cc
  build-covers scores threshold all (r ∷ rs) used j h n =
      let near = gather fl scores threshold r all (r.node_id ∷ used) in
      let joined =
        contains-append (ids_of near.0) (members (build fl scores threshold all rs near.1)) j in
      let grown = gather-used scores threshold r all (r.node_id ∷ used) j in
      elim (beq_cases r.node_id j) [
        | inl e ↦ let unseen : contains used r.node_id ≡ false = rw e.1 n in ground (arith, joined)
        | inr e ↦
            let within : contains (ids_of rs) j ≡ true = rw e.0 at h in
            ground (
              arith,
              joined,
              grown,
              build-covers scores threshold all rs used j within n,
              build-covers scores threshold all rs near.1 j within,
            )
      ]

  pub build-among :
      (scores : Matrix fl) (threshold : F) (all rs : List Response) (used : List String)
      (j : String)
      → (contains (ids_of rs) j ≡ true → contains (ids_of all) j ≡ true)
      → contains (members (build fl scores threshold all rs used)) j ≡ true
      → contains (ids_of all) j ≡ true
  unfolding build
  build-among scores threshold all [] used j w h = cc
  build-among scores threshold all (r ∷ rs) used j w h =
      let near = gather fl scores threshold r all (r.node_id ∷ used) in
      let joined =
        contains-append (ids_of near.0) (members (build fl scores threshold all rs near.1)) j in
      let deeper : contains (ids_of rs) j ≡ true → contains (ids_of all) j ≡ true =
        λ k. w (ground (arith, k)) in
      ground (
        arith,
        joined,
        w,
        gather-among scores threshold r all (r.node_id ∷ used) j,
        build-among scores threshold all rs used j deeper,
        build-among scores threshold all rs near.1 j deeper,
      )
