-- ===== src/Oracle/Recovery.antt =====
-- project/oracle/pkg/node/recovery.go: the engine's position in a file. encoding/json turns every number
-- that it reads into a float64; the numbers of that type, F, and the file system are parameters.
use lab.Base.{
  ℕ, String, Option, none, some, Map, lookup, string_eq, ◌⊎◌, inl, inr, nat_beq, if◌then◌else◌,
}
use lab.Pbft.Types.{Bytes, Pbft, PbftState, normal, changing_view, transferring, other}
use lab.Pbft.Engine.{restore_state}

-- What a key of a map[string]interface{} holds.
pub data Value (F : Type 0) : Type 0 where
  number : F → Value F
  no_number : Value F

pub data ReadResult : Type 0 where
  not_there unreadable : ReadResult
  contents : Bytes → ReadResult

-- The position that is saved.
pub record Position : Type 0 where
  pub sequence : ℕ
  pub view : ℕ
  pub state : ℕ

-- Code that is not the repository's, on a disk D.
pub record Files (F D : Type 0) : Type 0 where
  pub marshal : Position → Option Bytes
  pub unmarshal : Bytes → Option (Map String (Value F))
  pub write_file : Bytes → D → Option D  -- none is an error
  pub read_file : D → ReadResult
  pub to_uint64 : F → ℕ
  pub to_int : F → ℕ

-- The number of a state; the first argument is the one of a state that has no name.
unfoldable pub state_code : ℕ → PbftState → ℕ
state_code k normal = 0
state_code k changing_view = 1
state_code k transferring = 2
state_code k other = k

unfoldable pub state_of : ℕ → PbftState
state_of n =
    if nat_beq n 0
    then normal
    else if nat_beq n 1
    then changing_view
    else if nat_beq n 2
    then transferring
    else other

pub data SaveError : Type 0 where
  not_marshalled not_written : SaveError

pub data RecoverOutcome : Type 0 where
  fresh : RecoverOutcome
  not_read : RecoverOutcome
  not_unmarshalled : RecoverOutcome
  recovered : RecoverOutcome
  recover_panics : RecoverOutcome

module _ {F D : Type 0} (files : Files F D) where
  -- SaveState
  unfoldable pub save_state : ℕ → Pbft → D → D ⊎ SaveError
  unfolding state_code
  save_state k p disk =
      elim (files.marshal
        (record { sequence = p.sequence; view = p.view; state = state_code k p.state })) [
          | none ↦ inr not_marshalled
          | some bytes ↦ elim (files.write_file bytes disk) [
            | none ↦ inr not_written
            | some after ↦ inl after
          ]
        ]

  -- `state[key].(float64)`; none is a panic.
  unfoldable pub number_of : String → Map String (Value F) → Option F
  number_of key fields = elim (lookup key fields) [
    | none ↦ none
    | some v ↦ elim v [ number x ↦ some x | no_number ↦ none ]
  ]

  -- The assertions of Recover one after another.
  unfoldable pub numbers_of : Map String (Value F) → Option (F × F × F)
  unfolding number_of
  numbers_of fields = elim (number_of "sequence" fields) [
    | none ↦ none
    | some sequence ↦ elim (number_of "view" fields) [
      | none ↦ none
      | some view ↦ elim (number_of "state" fields) [
        | none ↦ none
        | some state ↦ some (sequence, view, state)
      ]
    ]
  ]

  -- Recover behind the file.
  unfoldable pub recover_from : Bytes → Pbft → Pbft × RecoverOutcome
  unfolding numbers_of restore_state state_of
  recover_from bytes p = elim (files.unmarshal bytes) [
    | none ↦ (p, not_unmarshalled)
    | some fields ↦ elim (numbers_of fields) [
      | none ↦ (p, recover_panics)
      | some (sequence, view, state) ↦ (
        restore_state (files.to_uint64 sequence) (files.to_uint64 view)
            (state_of (files.to_int state)) p,
        recovered,
      )
    ]
  ]

  -- Recover
  unfoldable pub recover : D → Pbft → Pbft × RecoverOutcome
  unfolding recover_from
  recover disk p = elim (files.read_file disk) [
    | not_there ↦ (p, fresh)
    | unreadable ↦ (p, not_read)
    | contents bytes ↦ recover_from bytes p
  ]
