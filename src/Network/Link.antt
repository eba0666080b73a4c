-- ===== src/Network/Link.antt =====
-- core/include/network/Link.hpp, core/src/network/Link.cpp and core/include/enums/LinkMode.hpp. A
-- deque is a list, its front first; the `mutable` members that a const method changes are fields
-- like the others. The draw of `Random::uniform01` is an argument of `should_drop`.
pub mod Queue
pub mod Medium
pub mod Transit
pub mod Shape
pub mod Capacity
pub mod Calls
pub mod Reservation
use gns.Base.{ℕ, Bool, true, false, not, ◌&&◌, List, [], ◌∷◌, ◌++◌, length, ltb, if◌then◌else◌}
use gns.Base.Words.{add_size}
use gns.Base.Ints.{ℤ, minus_one, eq_int}
use gns.Base.Floats.{Float, float_max}

pub data LinkMode : Type 0 where
  full_duplex half_duplex simplex : LinkMode

pub data DirectionSlot : Type 0 where
  slot_ab slot_ba slot_shared slot_invalid : DirectionSlot

pub record LinkTransmission (T : Type 0) : Type 0 where
  pub from : ℤ
  pub to : ℤ
  pub departure_time : T
  pub arrival_time : T

pub record Link (T : Type 0) : Type 0 where
  pub id : ℕ  -- uint64
  pub a : ℤ
  pub b : ℤ
  pub bandwidth_mbps : T
  pub delay_ms : T
  pub loss_prob : T
  pub mode : LinkMode
  pub busy_until_ab : T
  pub busy_until_ba : T
  pub busy_until_shared : T
  pub queue_ab : List (LinkTransmission T)
  pub queue_ba : List (LinkTransmission T)
  pub queue_shared : List (LinkTransmission T)
  pub queue_capacity : ℕ  -- size_t
  pub up : Bool

abbrev pub default_queue_capacity : ℕ
default_queue_capacity = 32

-- The queue that a direction uses in a mode.
unfoldable pub mode_slot : LinkMode → DirectionSlot → DirectionSlot
mode_slot full_duplex slot = slot
mode_slot half_duplex slot_ab = slot_shared
mode_slot half_duplex slot_ba = slot_shared
mode_slot half_duplex slot_shared = slot_invalid
mode_slot half_duplex slot_invalid = slot_invalid
mode_slot simplex slot_ab = slot_ab
mode_slot simplex slot_ba = slot_invalid
mode_slot simplex slot_shared = slot_invalid
mode_slot simplex slot_invalid = slot_invalid

module _ {T : Type 0} where
  unfoldable pub get_other_node : Link T → ℤ → ℤ
  get_other_node l node =
      if eq_int node l.a then l.b else if eq_int node l.b then l.a else minus_one

  unfoldable pub set_bandwidth_mbps : Link T → T → Link T
  set_bandwidth_mbps l value = record l { bandwidth_mbps = value }

  unfoldable pub set_delay_ms : Link T → T → Link T
  set_delay_ms l value = record l { delay_ms = value }

  unfoldable pub set_loss_prob : Link T → T → Link T
  set_loss_prob l value = record l { loss_prob = value }

  unfoldable pub set_mode : Link T → LinkMode → Link T
  set_mode l mode = record l { mode = mode }

  unfoldable pub set_up : Link T → Bool → Link T
  set_up l up = record l { up = up }

  unfoldable pub get_direction_slot : Link T → ℤ → ℤ → DirectionSlot
  get_direction_slot l from to =
      if eq_int from l.a && eq_int to l.b
      then slot_ab
      else if eq_int from l.b && eq_int to l.a
      then slot_ba
      else slot_invalid

  unfoldable pub get_queue_slot : Link T → ℤ → ℤ → DirectionSlot
  unfolding get_direction_slot mode_slot
  get_queue_slot l from to = mode_slot l.mode (get_direction_slot l from to)

module _ {T : Type 0} (f : Float T) where
  -- The constructor, with the value of the counter `next_id_` and the counter after it.
  unfoldable pub create_link : ℕ → ℤ → ℤ → T → T → T → LinkMode → Link T × ℕ
  create_link next_id a b bandwidth_mbps delay_ms loss_prob mode = (
    record {
      id = next_id;
      a = a;
      b = b;
      bandwidth_mbps = bandwidth_mbps;
      delay_ms = delay_ms;
      loss_prob = loss_prob;
      mode = mode;
      busy_until_ab = f.literal 0 1;
      busy_until_ba = f.literal 0 1;
      busy_until_shared = f.literal 0 1;
      queue_ab = [];
      queue_ba = [];
      queue_shared = [];
      queue_capacity = default_queue_capacity;
      up = true;
    },
    add_size next_id 1,
  )
