-- ===== src/Membership/Heartbeats.antt =====
-- The heartbeat times behind a new view in lab3/src/main.go.
use lab.Membership.Views.{handle_new_view, reset_heartbeats, is_other}
use lab.Membership.Types.{order_of}
use lab.Base.{
  ◌≡◌, ℕ, List, Map, Option, some, ◌<◌, Bool, lookup, none, false, if◌then◌else◌, nat_eq, ◌∷◌, [],
  ◌&&◌, refl, nat_beq, ◌||◌, arith, lookup-insert, insert,
}
use lab.Membership.Types.{Node, Message, Peer}

-- A live member other than the process itself has this number.
abbrev pub has_other : ℕ → ℕ → List Peer → Bool
has_other my_id j [] = false
has_other my_id j (p ∷ ps) = (is_other my_id p && nat_beq p.id j) || has_other my_id j ps

abbrev pub or_now : ℕ → Option ℕ → ℕ
or_now now none = now
or_now now (some t) = t

lookup-reset_heartbeats :
    (now my_id j : ℕ) (old : Map ℕ ℕ) (ps : List Peer) (new : Map ℕ ℕ)
    → lookup j (reset_heartbeats now my_id old ps new)
      ≡ (if has_other my_id j ps then some (or_now now (lookup j old)) else lookup j new)
unfolding reset_heartbeats
lookup-reset_heartbeats now my_id j old [] new = refl
lookup-reset_heartbeats now my_id j old (p ∷ ps) new =
    let beat = or_now now (lookup p.id old) in
    ground (
      arith,
      lookup-insert p.id j beat new,
      lookup-reset_heartbeats now my_id j old ps new,
      lookup-reset_heartbeats now my_id j old ps (insert p.id beat new),
    )

-- After a new view that is taken over, the process watches exactly the live members other than
-- itself: a member that it watched before keeps its time, and a new one starts now.
pub handle_new_view_watches :
    (now j : ℕ) (m : Message) (ps : List Peer) (p : Node)
    → order_of p.view_id < order_of m.view_id
    → m.peers ≡ some ps
    → lookup j (handle_new_view now m p).last_heartbeat
      ≡ (if has_other p.my_id j ps then some (or_now now (lookup j p.last_heartbeat)) else none)
unfolding handle_new_view lookup
handle_new_view_watches now j m ps p h e =
    ground (arith, lookup-reset_heartbeats now p.my_id j p.last_heartbeat ps [])
