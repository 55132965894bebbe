-- ===== src/Paxos/Responses.antt =====
-- The responses that a proposer of lab4/src/main.go keeps: each under its sender and its own number.
use lab.Paxos.Frames.{Reconnected}
use lab.Paxos.Proposer.{has_rejection, responses_to, store, cleanup_responses, open_round}
use lab.Base.{
  ◌≡◌, insert, ℤ, [], Map, subst, Bool, IsMap, Bool-cases, false, sym, delete_where, int_eq, ◌∷◌,
  if◌then◌else◌, beq_cases, lookup-delete_where, ◌==◌, arith, inl, insert-IsMap, inr, lookup-insert,
  refl, string_eq,
}
use lab.Paxos.Types.{Peer, Message, Responses}

pub responses_to-store :
    (num j id : ℤ) (m : Message) (rs : Responses)
    → responses_to j (store num id m rs)
      ≡ (if num == j then insert id m (responses_to num rs) else responses_to j rs)
unfolding responses_to store
responses_to-store num j id m rs =
    rw (lookup-insert num j (insert id m (responses_to num rs)) rs, responses_to)
      (elim (Bool-cases (num == j)) [ inl q ↦ rw q | inr q ↦ rw q ])

responses_to-delete_where :
    (test : ℤ → Bool) (j : ℤ) (rs : Responses)
    → responses_to j (delete_where test rs) ≡ (if test j then [] else responses_to j rs)
unfolding responses_to
responses_to-delete_where test j rs =
    rw (lookup-delete_where test j rs, responses_to)
      (elim (Bool-cases (test j)) [ inl q ↦ rw q | inr q ↦ rw q ])

-- Every response stands under its sender and its own number, each sender once.
abbrev pub IsFiled : ℤ → Map ℤ Message → Type 0
IsFiled num [] = Unit
IsFiled num ((id, r) ∷ rs) = ((r.peer_id ≡ id) × (r.proposal_num ≡ num)) × IsFiled num rs

abbrev pub IsResponseLog : Responses → Type 0
IsResponseLog rs = (num : ℤ) → IsMap (responses_to num rs) × IsFiled num (responses_to num rs)

insert-IsFiled :
    (num : ℤ) (m : Message) (rs : Map ℤ Message)
    → m.proposal_num ≡ num
    → IsFiled num rs
    → IsFiled num (insert m.peer_id m rs)
unfolding insert
insert-IsFiled num m [] e h = ((refl, e), tt)
insert-IsFiled num m ((j, r) ∷ rs) e h = elim (beq_cases j m.peer_id) [
  | inl p ↦ rw p.0 ((sym p.1, e), h.1)
  | inr p ↦ rw p.0 (h.0, insert-IsFiled num m rs e h.1)
]

pub store-IsResponseLog :
    (m : Message) (rs : Responses)
    → IsResponseLog rs
    → IsResponseLog (store m.proposal_num m.peer_id m rs)
store-IsResponseLog m rs h j = elim (beq_cases m.proposal_num j) [
  | inl p ↦
      rw (responses_to-store m.proposal_num j m.peer_id m rs, p.0)
        (
          insert-IsMap m.peer_id m _ (h m.proposal_num).0,
          insert-IsFiled j m _ p.1
              (subst (λ n. IsFiled n (responses_to m.proposal_num rs)) p.1 (h m.proposal_num).1),
        )
  | inr p ↦ rw (responses_to-store m.proposal_num j m.peer_id m rs, p.0) (h j)
]

delete_where-IsResponseLog :
    (test : ℤ → Bool) (rs : Responses) → IsResponseLog rs → IsResponseLog (delete_where test rs)
delete_where-IsResponseLog test rs h j = elim (Bool-cases (test j)) [
  | inl q ↦ rw (responses_to-delete_where test j rs, q) (tt, tt)
  | inr q ↦ rw (responses_to-delete_where test j rs, q) (h j)
]

open-IsResponseLog :
    (num : ℤ) (rs : Responses) → IsResponseLog rs → IsResponseLog (insert num [] rs)
unfolding responses_to
open-IsResponseLog num rs h j = elim (Bool-cases (num == j)) [
  | inl q ↦ rw (responses_to, lookup-insert num j [] rs, q) (tt, tt)
  | inr q ↦ rw (responses_to, lookup-insert num j [] rs, q) (h j)
]

pub record Inv (p : Peer) : Type 0 where
  pub promises : IsResponseLog p.prepare_responses
  pub accepts : IsResponseLog p.accept_responses

-- A response filed under a number is no rejection of it.
pub IsFiled-no_rejection :
    (num : ℤ) (rs : Map ℤ Message) → IsFiled num rs → has_rejection num rs ≡ false
unfolding has_rejection
IsFiled-no_rejection num [] h = refl
IsFiled-no_rejection num ((id, r) ∷ rs) h =
    rw h.0.1 (ground (arith, IsFiled-no_rejection num rs h.1))

pub Inv-Reconnected : (p q : Peer) → Reconnected p q → Inv p → Inv q
Inv-Reconnected p q e v = subst Inv (sym e) (record { promises = v.promises; accepts = v.accepts })

abbrev pub SameLogs : Peer → Peer → Type 0
SameLogs p q =
    (q.prepare_responses ≡ p.prepare_responses) × (q.accept_responses ≡ p.accept_responses)

pub Inv-SameLogs : (p q : Peer) → SameLogs p q → Inv p → Inv q
Inv-SameLogs p q e v = record {
  promises = subst IsResponseLog (sym e.0) v.promises;
  accepts = subst IsResponseLog (sym e.1) v.accepts;
}

pub open_round-Inv : (p : Peer) → Inv p → Inv (open_round p)
unfolding open_round
open_round-Inv p v = record {
  promises = open-IsResponseLog _ _ (delete_where-IsResponseLog _ _ v.promises);
  accepts = open-IsResponseLog _ _ (delete_where-IsResponseLog _ _ v.accepts);
}

pub cleanup_responses-Inv : (num : ℤ) (p : Peer) → Inv p → Inv (cleanup_responses num p)
unfolding cleanup_responses
cleanup_responses-Inv num p v = record {
  promises = delete_where-IsResponseLog _ _ v.promises;
  accepts = delete_where-IsResponseLog _ _ v.accepts;
}
