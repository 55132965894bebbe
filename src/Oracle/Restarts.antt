-- ===== src/Oracle/Restarts.antt =====
-- What a restart keeps of the engine (project/oracle/pkg/node/recovery.go).
use lab.Pbft.Engine.{restore_state}
use lab.Pbft.Types.{PbftState, Pbft, Bytes, normal, changing_view, transferring, other}
use lab.Base.{ℕ, ◌≤◌, ◌≡◌, ap, subst, inl, inr, some, lookup, ◌<◌, arith, ◌∷◌, [], Option-cases}
use lab.Oracle.Recovery.{
  Files, save_state, state_of, numbers_of, number_of, state_code, contents, Position, number,
  recover, recovered, recover_from,
}

-- 2^53, up to which every whole number is a float64.
abbrev pub float_limit : ℕ
float_limit = 9007199254740992

-- What the code relies on: a file that is written is read back, and JSON gives a whole number back as
-- the float64 next to it, which is the number itself up to 2^53.
pub record IsFaithful {F D : Type 0} (files : Files F D) : Type 0 where
  pub float_of : ℕ → F
  pub exact :
      (n : ℕ)
      → n ≤ float_limit
      → (files.to_uint64 (float_of n) ≡ n) × (files.to_int (float_of n) ≡ n)
  pub kept :
      (bytes : Bytes) (disk after : D)
      → files.write_file bytes disk ≡ some after
      → files.read_file after ≡ contents bytes
  pub fields :
      (s : Position) (bytes : Bytes)
      → files.marshal s ≡ some bytes
      → files.unmarshal bytes
        ≡ some (
            ("sequence", number (float_of s.sequence))
            ∷ ("state", number (float_of s.state))
            ∷ ("view", number (float_of s.view))
            ∷ [])

state_of-state_code :
    (k : ℕ) (s : PbftState)
    → 2 < k
    → k ≤ float_limit
    → (state_of (state_code k s) ≡ s) × (state_code k s ≤ float_limit)
unfolding state_of state_code
state_of-state_code k normal named fits = ground arith
state_of-state_code k changing_view named fits = ground arith
state_of-state_code k transferring named fits = ground arith
state_of-state_code k other named fits = ground arith

module _ {F D : Type 0} (files : Files F D) where
  -- A recovery from the file that SaveState has written puts the engine back to the number, the view and
  -- the state that were saved, if the numbers are at most 2^53, and changes nothing else of it: it leads
  -- exactly if it did before the recovery.
  pub recover-save_state :
      (k : ℕ) (p q : Pbft) (disk after : D)
      → IsFaithful files
      → p.sequence ≤ float_limit
      → p.view ≤ float_limit
      → 2 < k
      → k ≤ float_limit
      → save_state files k p disk ≡ inl after
      → (recover files after q
          ≡ (record q { sequence = p.sequence; view = p.view; state = p.state }, recovered))
        × ((recover files after q).0.is_leader ≡ q.is_leader)
  unfolding save_state recover numbers_of number_of lookup restore_state
  recover-save_state k p q disk after faithful small low named fits h =
      let position : Position = record {
        sequence = p.sequence;
        view = p.view;
        state = state_code k p.state;
      } in
      let (back, small_state) = state_of-state_code k p.state named fits in
      elim (Option-cases (files.marshal position)) [
        | inl e ↦ absurd (cc (rw (e, save_state) at h))
        | inr (bytes, e) ↦ elim (Option-cases (files.write_file bytes disk)) [
          | inl w ↦ absurd (cc (rw (e, w, save_state) at h))
          | inr (written, w) ↦
              let same : written ≡ after = cc (rw (e, w, save_state) at h) in
              let read = faithful.kept bytes disk written w in
              let fields = faithful.fields position bytes e in
              let all : recover files written q ≡ (
                record q { sequence = p.sequence; view = p.view; state = p.state },
                recovered,
              ) =
                rw (
                  read,
                  recover,
                  fields,
                  recover_from,
                  (faithful.exact p.sequence small).0,
                  (faithful.exact p.view low).0,
                  (faithful.exact (state_code k p.state) small_state).1,
                  back,
                ) in
              subst
                (λ d.
                  (recover files d q ≡ (
                    record q { sequence = p.sequence; view = p.view; state = p.state },
                    recovered,
                  ))
                  × ((recover files d q).0.is_leader ≡ q.is_leader))
                same (all, ap (λ r. r.0.is_leader) all)
        ]
      ]
