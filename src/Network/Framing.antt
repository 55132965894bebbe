-- ===== src/Network/Framing.antt =====
-- The frames of project/oracle/pkg/network/types.go: four bytes of length, most significant first,
-- and the message as JSON. A byte is a natural number.
use lab.Base.{
  Option, ℕ, String, List, if◌then◌else◌, length, ◌/◌, ◌<◌, ◌*◌, some, ◌+◌, ltb, ◌++◌, [], ◌%◌, suc,
  ◌∷◌, ◌≡◌, arith, none, refl, zero, ◌∙◌,
}

pub record Message : Type 0 where
  pub from : String
  pub to : String
  pub payload : List ℕ

-- encoding/json on messages.
pub record Json : Type 0 where
  pub marshal : Message → Option (List ℕ)
  pub unmarshal : List ℕ → Option Message

-- MaxMessageSize
abbrev pub max_message_size : ℕ
max_message_size = 10485760

-- The four bytes of a uint32, and back.
abbrev pub put_uint32 : ℕ → List ℕ
put_uint32 n = n / 16777216 % 256 ∷ n / 65536 % 256 ∷ n / 256 % 256 ∷ n % 256 ∷ []

abbrev pub get_uint32 : ℕ → ℕ → ℕ → ℕ → ℕ
get_uint32 a b c d = ((a * 256 + b) * 256 + c) * 256 + d

-- Where writing fails; an io.Writer may refuse a write.
pub data WriteError : Type 0 where
  encode_failed write_length_failed write_data_failed : WriteError

pub record Writer (W : Type 0) : Type 0 where
  pub write : List ℕ → W → Option W

-- WriteMessage: the writer behind it, and the error if there is one.
unfoldable pub write_message : {W : Type 0} → Json → Writer W → Message → W → W × Option WriteError
write_message json writer msg w = elim (json.marshal msg) [
  | none ↦ (w, some encode_failed)
  | some data_bytes ↦ elim (writer.write (put_uint32 (length data_bytes % 4294967296)) w) [
    | none ↦ (w, some write_length_failed)
    | some v ↦ elim (writer.write data_bytes v) [
      | none ↦ (v, some write_data_failed)
      | some u ↦ (u, none)
    ]
  ]
]

pub data ReadError : Type 0 where
  read_length_failed message_too_large read_data_failed decode_failed : ReadError

-- What a read ends with: an error, or a message and the bytes that are left.
pub data ReadResult : Type 0 where
  failed : ReadError → ReadResult
  received : Message → List ℕ → ReadResult

-- io.ReadFull: a number of bytes, or nothing when the input ends before.
unfoldable pub read_full : ℕ → List ℕ → Option (List ℕ × List ℕ)
read_full zero input = some ([], input)
read_full (suc n) [] = none
read_full (suc n) (b ∷ input) = elim (read_full n input) [
  | none ↦ none
  | some split ↦ some (b ∷ split.0, split.1)
]

unfoldable pub read_body : Json → ℕ → List ℕ → ReadResult
unfolding read_full
read_body json n input =
    if ltb max_message_size n then failed message_too_large else elim (read_full n input) [
      | none ↦ failed read_data_failed
      | some split ↦ elim (json.unmarshal split.0) [
        | none ↦ failed decode_failed
        | some msg ↦ received msg split.1
      ]
    ]

-- ReadMessage
unfoldable pub read_message : Json → List ℕ → ReadResult
unfolding read_body
read_message json (a ∷ b ∷ c ∷ d ∷ input) = read_body json (get_uint32 a b c d) input
read_message json _ = failed read_length_failed

-- A writer into a buffer, which takes every write.
abbrev pub buffer : Writer (List ℕ)
buffer = record { write = λ bytes w. some (w ++ bytes) }

read_full-append : (xs ys : List ℕ) → read_full (length xs) (xs ++ ys) ≡ some (xs, ys)
unfolding read_full
read_full-append [] ys = refl
read_full-append (x ∷ xs) ys = ground (arith, read_full-append xs ys)

uint32_lem :
    (n : ℕ)
    → n < 4294967296
    → get_uint32 (n / 16777216 % 256) (n / 65536 % 256) (n / 256 % 256) (n % 256) ≡ n
uint32_lem n h = omega arith

-- What one frame turns into at its reader, for whatever follows it.
read_message-frame :
    (json : Json) (data_bytes rest : List ℕ)
    → length data_bytes < 4294967296
    → read_message json (put_uint32 (length data_bytes % 4294967296) ++ (data_bytes ++ rest)) ≡ (
        if ltb max_message_size (length data_bytes)
        then failed message_too_large
        else elim (json.unmarshal data_bytes) [
          | none ↦ failed decode_failed
          | some msg ↦ received msg rest
        ])
unfolding read_message read_body
read_message-frame json data_bytes rest h =
    let n = length data_bytes in
    let fits : n % 4294967296 ≡ n = omega arith in
    rw (fits, uint32_lem n h, read_full-append data_bytes rest) refl

-- WriteMessage into a buffer takes every message whose JSON is shorter than 4 GiB. ReadMessage gives
-- the message back, whatever follows it in the stream, if its JSON is at most 10 MiB long, and turns
-- every longer one away.
pub read_message-write_message :
    (json : Json) (m : Message) (data_bytes rest : List ℕ)
    → ((n : Message) (bytes : List ℕ) → json.marshal n ≡ some bytes → json.unmarshal bytes ≡ some n)
    → json.marshal m ≡ some data_bytes
    → length data_bytes < 4294967296
    → ((write_message json buffer m []).1 ≡ none)
      × (read_message json ((write_message json buffer m []).0 ++ rest) ≡ (
          if ltb max_message_size (length data_bytes)
          then failed message_too_large
          else received m rest))
unfolding write_message
read_message-write_message json m data_bytes rest law e h =
    let back = law m data_bytes e in
    let frame = read_message-frame json data_bytes rest h in
    rw (write_message, e) (refl, frame ∙ rw back refl)
