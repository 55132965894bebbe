-- ===== src/Paxos/Values.antt =====
-- Which value the proposer of lab4/src/main.go puts forward: the loop of handlePrepareAck.
use lab.Paxos.Proposer.{pick}
use lab.Base.{
  ◌≡◌, ◌==◌, Map, ℤ, false, String, ◌≤ℤ◌, string_eq, ◌⊎◌, arith, inl, ◌∷◌, [], Bool-cases, refl,
  ltb_ℤ, ◌&&◌, not, inr, pos, ◌∙◌, subst, sym, ap,
}
use lab.Paxos.Types.{Message}

-- A response carries a value if its value is not the empty text.
abbrev pub HasValue : Message → Type 0
HasValue r = (r.message_value == "") ≡ false

-- Some entry satisfies a predicate.
abbrev pub Some : (Message → Type 0) → Map ℤ Message → Type 0
Some P [] = ⊥
Some P ((id, r) ∷ rs) = P r ⊎ Some P rs

abbrev pub Every : (Message → Type 0) → Map ℤ Message → Type 0
Every P [] = Unit
Every P ((id, r) ∷ rs) = P r × Every P rs

-- One round of the loop: the response is taken over, or it carries no value under a higher number.
pick_round :
    (id : ℤ) (r : Message) (rs : Map ℤ Message) (num : ℤ) (value : String)
    → (HasValue r
        × (num ≤ℤ r.proposal_num)
        × (pick ((id, r) ∷ rs) num value ≡ pick rs r.proposal_num r.message_value))
      ⊎ ((HasValue r → r.proposal_num ≤ℤ num) × (pick ((id, r) ∷ rs) num value ≡ pick rs num value))
unfolding pick
pick_round id r rs num value =
    elim (Bool-cases (ltb_ℤ num r.proposal_num && not (r.message_value == ""))) [
      | inl c ↦ inl (ground arith, ground arith, rw (pick, c))
      | inr c ↦ inr (λ h. ground arith, rw (pick, c))
    ]

pick_grows : (rs : Map ℤ Message) (num : ℤ) (value : String) → num ≤ℤ (pick rs num value).0
unfolding pick
pick_grows [] num value = omega arith
pick_grows ((id, r) ∷ rs) num value = elim (pick_round id r rs num value) [
  | inl (h, up, e) ↦ rw e (omega (arith, pick_grows rs r.proposal_num r.message_value))
  | inr (h, e) ↦ rw e (pick_grows rs num value)
]

-- A response with a value has no higher number.
abbrev pub AtMost : ℤ → Message → Type 0
AtMost num r = HasValue r → r.proposal_num ≤ℤ num

-- The number found is at least that of every response with a value.
pub pick_highest :
    (rs : Map ℤ Message) (num : ℤ) (value : String) → Every (AtMost (pick rs num value).0) rs
pick_highest [] num value = tt
pick_highest ((id, r) ∷ rs) num value = elim (pick_round id r rs num value) [
  | inl (h, up, e) ↦
      subst (λ t. Every (AtMost t.0) ((id, r) ∷ rs)) (sym e)
        (
          λ v. pick_grows rs r.proposal_num r.message_value,
          pick_highest rs r.proposal_num r.message_value,
        )
  | inr (h, e) ↦
      subst (λ t. Every (AtMost t.0) ((id, r) ∷ rs)) (sym e)
        (λ v. omega (arith, h v, pick_grows rs num value), pick_highest rs num value)
]

Some-map :
    (P Q : Message → Type 0) (rs : Map ℤ Message)
    → ((r : Message) → P r → Q r)
    → Some P rs
    → Some Q rs
Some-map P Q [] f h = h
Some-map P Q ((id, r) ∷ rs) f (inl h) = inl (f r h)
Some-map P Q ((id, r) ∷ rs) f (inr h) = inr (Some-map P Q rs f h)

-- What the loop finds is the start, or a response with a value.
pub pick_found :
    (rs : Map ℤ Message) (num : ℤ) (value : String)
    → (pick rs num value ≡ (num, value))
      ⊎ Some (λ r. HasValue r × (pick rs num value ≡ (r.proposal_num, r.message_value))) rs
unfolding pick
pick_found [] num value = inl refl
pick_found ((id, r) ∷ rs) num value = elim (pick_round id r rs num value) [
  | inl (h, up, e) ↦ elim (pick_found rs r.proposal_num r.message_value) [
    | inl k ↦ inr (inl (h, e ∙ k))
    | inr k ↦ inr (
        inr (
          subst (λ t. Some (λ q. HasValue q × (t ≡ (q.proposal_num, q.message_value))) rs) (sym e)
            k))
  ]
  | inr (h, e) ↦ elim (pick_found rs num value) [
    | inl k ↦ inl (e ∙ k)
    | inr k ↦ inr (
        inr (
          subst (λ t. Some (λ q. HasValue q × (t ≡ (q.proposal_num, q.message_value))) rs) (sym e)
            k))
  ]
]

-- The choice of handlePrepareAck: the proposer's own value goes forward only if no response carries
-- a value under a positive number; otherwise it is the value of a response with the highest number
-- among those that carry one.
pub pick_is_paxos :
    (rs : Map ℤ Message) (own : String)
    → ((pick rs (pos 0) own ≡ (pos 0, own)) × Every (AtMost (pos 0)) rs)
      ⊎ Some
          (λ r.
            HasValue r
            × ((pick rs (pos 0) own).1 ≡ r.message_value)
            × Every (AtMost r.proposal_num) rs)
          rs
pick_is_paxos rs own = elim (pick_found rs (pos 0) own) [
  | inl k ↦ inl (k, subst (λ t. Every (AtMost t.0) rs) k (pick_highest rs (pos 0) own))
  | inr k ↦ inr (
      Some-map _ _ rs
        (λ r h. (
          h.0,
          ap (λ (t : ℤ × String). t.1) h.1,
          subst (λ t. Every (AtMost t.0) rs) h.1 (pick_highest rs (pos 0) own),
        ))
        k)
]
