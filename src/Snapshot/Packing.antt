-- ===== src/Snapshot/Packing.antt =====
-- The wire format and the ring of lab2/src/main.go.
use native.Mathlib.Nat.{mod-eq_of_lt, add-mod_right}
use lab.Base.{ℕ, ◌≤◌, ℤ, ◌<◌, ◌≡◌, pos, ◌%◌, ◌+◌, arith, negsuc, ◌*◌, ◌-◌, ap, sym, ◌∙◌}
use lab.Snapshot.Types.{
  successor_of, unpack_message, predecessor_of, pack_message, low_bits, to_int32,
}

pack_message_low :
    (msg_type n : ℕ)
    → msg_type < 4
    → n < 1073741824
    → unpack_message (to_int32 (msg_type * 1073741824 + n)) ≡ (msg_type, pos n)
unfolding unpack_message
pack_message_low msg_type n h k = ground arith

-- What unpackMessage gives back of a packed message: the type in full and the lowest 30 bits of the
-- snapshot number, whatever number that is.
pub unpack_message-pack_message :
    (msg_type : ℕ) (snapshot_id : ℤ)
    → msg_type < 4
    → unpack_message (pack_message msg_type snapshot_id) ≡ (msg_type, pos (low_bits snapshot_id))
unfolding pack_message
unpack_message-pack_message msg_type (pos n) h =
    pack_message_low msg_type (n % 1073741824) h (omega arith)
unpack_message-pack_message msg_type (negsuc n) h =
    pack_message_low msg_type (1073741823 - n % 1073741824) h (omega arith)

mod_below : (a n : ℕ) → a < n → a % n ≡ a
mod_below a n h = mod-eq_of_lt h

mod_wraps : (a n : ℕ) → n ≤ a → a < n + n → a % n ≡ a - n
mod_wraps a n h k =
    let again : a - n + n ≡ a = omega arith in
    ap (λ b. b % n) (sym again) ∙ add-mod_right (a - n) n ∙ mod_below (a - n) n (omega arith)

-- On a ring of processes, successor and predecessor are numbers of processes, and each is the
-- other's inverse.
pub successor_of-predecessor_of :
    (hosts id : ℕ)
    → 1 ≤ id
    → id ≤ hosts
    → (successor_of hosts (predecessor_of hosts id) ≡ id)
      × (predecessor_of hosts (successor_of hosts id) ≡ id)
      × (successor_of hosts id ≤ hosts)
      × (predecessor_of hosts id ≤ hosts)
unfolding successor_of predecessor_of
successor_of-predecessor_of hosts id h k = ground (
  arith,
  mod_below id hosts,
  mod_wraps id hosts,
  mod_wraps (id + hosts - 2) hosts,
  mod_below (id + hosts - 2) hosts,
  mod_below (id - 1) hosts,
  mod_wraps (id + hosts - 1) hosts,
  mod_below (id + hosts - 1) hosts,
)
