-- ===== src/Pbft/Votes.antt =====
-- What the message logs of the engine hold: each vote stands under its own sender and number, and
-- each sender once. The laws are those of `store` and `cleanup`.
use lab.Base.{
  ℕ, Bool, true, String, List, [], ◌∷◌, ◌≡◌, inl, inr, contains, Within, keys, insert, lookup,
  lookup-insert, lookup-delete_where, delete_where, IsMap, insert-IsMap, Bool-cases, beq_cases,
  if◌then◌else◌, ◌==◌, nat_eq, string_eq, size, none, ◌≤◌, ◌+◌, beq_self, size-insert_new,
  size-insert-le,
}
use lab.Pbft.Types.{ConsensusMessage, MessageType, Entries, Log, entries}
use lab.Pbft.Maintenance.{store}

pub entries-store :
    (seq j : ℕ) (id : String) (msg : ConsensusMessage) (log : Log)
    → entries j (store seq id msg log)
      ≡ (if seq == j then insert id msg (entries seq log) else entries j log)
unfolding entries store
entries-store seq j id msg log =
    rw (lookup-insert seq j (insert id msg (entries seq log)) log, entries)
      (elim (Bool-cases (seq == j)) [ inl q ↦ rw q | inr q ↦ rw q ])

pub entries-delete_where :
    (test : ℕ → Bool) (j : ℕ) (log : Log)
    → entries j (delete_where test log) ≡ (if test j then [] else entries j log)
unfolding entries
entries-delete_where test j log =
    rw (lookup-delete_where test j log, entries)
      (elim (Bool-cases (test j)) [ inl q ↦ rw q | inr q ↦ rw q ])

-- A vote stored never makes the entries of its number fewer.
pub size-store :
    (seq : ℕ) (id : String) (msg : ConsensusMessage) (log : Log)
    → size (entries seq log) ≤ size (entries seq (store seq id msg log))
size-store seq id msg log =
    rw (entries-store seq seq id msg log, beq_self seq) (size-insert-le id msg (entries seq log))

-- A first vote of its sender makes them one more.
pub size-store_new :
    (seq : ℕ) (id : String) (msg : ConsensusMessage) (log : Log)
    → lookup id (entries seq log) ≡ none
    → size (entries seq (store seq id msg log)) ≡ size (entries seq log) + 1
size-store_new seq id msg log h =
    rw (entries-store seq seq id msg log, beq_self seq) (size-insert_new id msg (entries seq log) h)

-- A message of an expected type, from a member, under its own sender and sequence number.
pub record IsVote (ok : MessageType → Bool) (nodes : List String) (seq : ℕ) (id : String)
    (m : ConsensusMessage) : Type 0 where
  pub member : contains nodes id ≡ true
  pub sender : m.node_id ≡ id
  pub number : m.sequence ≡ seq
  pub kind : ok m.type ≡ true

module _ (ok : MessageType → Bool) (nodes : List String) where
  abbrev pub AllVotes : ℕ → Entries → Type 0
  AllVotes seq [] = Unit
  AllVotes seq ((id, m) ∷ es) = IsVote ok nodes seq id m × AllVotes seq es

  -- Every entry is a vote, and nobody votes twice under one number.
  abbrev pub IsVoteLog : Log → Type 0
  IsVoteLog log = (seq : ℕ) → IsMap (entries seq log) × AllVotes seq (entries seq log)

  insert-AllVotes :
      (seq : ℕ) (id : String) (m : ConsensusMessage) (es : Entries)
      → IsVote ok nodes seq id m
      → AllVotes seq es
      → AllVotes seq (insert id m es)
  unfolding insert
  insert-AllVotes seq id m [] v h = (v, tt)
  insert-AllVotes seq id m ((j, w) ∷ es) v h = elim (beq_cases j id) [
    | inl p ↦ rw (p.0, p.1) (v, h.1)
    | inr p ↦ rw p.0 (h.0, insert-AllVotes seq id m es v h.1)
  ]

  pub keys-Within : (seq : ℕ) (es : Entries) → AllVotes seq es → Within nodes (keys es)
  keys-Within seq [] h = tt
  keys-Within seq ((id, m) ∷ es) h = (h.0.member, keys-Within seq es h.1)

  pub store-IsVoteLog :
      (seq : ℕ) (id : String) (m : ConsensusMessage) (log : Log)
      → IsVote ok nodes seq id m
      → IsVoteLog log
      → IsVoteLog (store seq id m log)
  store-IsVoteLog seq id m log v h j = elim (beq_cases seq j) [
    | inl p ↦
        rw (entries-store seq j id m log, p.0, ← p.1)
          (insert-IsMap id m _ (h seq).0, insert-AllVotes seq id m _ v (h seq).1)
    | inr p ↦ rw (entries-store seq j id m log, p.0) (h j)
  ]

  pub delete_where-IsVoteLog :
      (test : ℕ → Bool) (log : Log) → IsVoteLog log → IsVoteLog (delete_where test log)
  delete_where-IsVoteLog test log h j = elim (Bool-cases (test j)) [
    | inl q ↦ rw (entries-delete_where test j log, q) (tt, tt)
    | inr q ↦ rw (entries-delete_where test j log, q) (h j)
  ]

  pub nil-IsVoteLog : IsVoteLog []
  unfolding entries lookup
  nil-IsVoteLog j = (tt, tt)
