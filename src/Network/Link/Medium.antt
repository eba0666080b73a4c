-- ===== src/Network/Link/Medium.antt =====
-- When a direction of core/src/network/Link.cpp is free, its reservation and its losses.
use gns.Base.{Bool, false, if◌then◌else◌}
use gns.Base.Ints.{ℤ}
use gns.Base.Floats.{Float, float_max}
use gns.Network.Link.{
  LinkMode, full_duplex, half_duplex, simplex, DirectionSlot, slot_ab, slot_ba, slot_shared,
  slot_invalid, Link, get_direction_slot,
}

module _ {T : Type 0} (f : Float T) where
  -- The `switch` of `getNextAvailableTime` in its mode and slot.
  unfoldable pub available_in : Link T → T → LinkMode → DirectionSlot → T
  available_in l now full_duplex slot_ab = float_max f now l.busy_until_ab
  available_in l now full_duplex slot_ba = float_max f now l.busy_until_ba
  available_in l now full_duplex slot_shared = f.infinity
  available_in l now full_duplex slot_invalid = f.infinity
  available_in l now half_duplex slot_invalid = f.infinity
  available_in l now half_duplex slot_ab = float_max f now l.busy_until_shared
  available_in l now half_duplex slot_ba = float_max f now l.busy_until_shared
  available_in l now half_duplex slot_shared = float_max f now l.busy_until_shared
  available_in l now simplex slot_ab = float_max f now l.busy_until_ab
  available_in l now simplex slot_ba = f.infinity
  available_in l now simplex slot_shared = f.infinity
  available_in l now simplex slot_invalid = f.infinity

  unfoldable pub get_next_available_time : Link T → ℤ → ℤ → T → T
  unfolding get_direction_slot available_in
  get_next_available_time l from to now = available_in l now l.mode (get_direction_slot l from to)

  -- The `switch` of `reserveTransmission` in its mode and slot.
  unfoldable pub reserve_in : Link T → T → LinkMode → DirectionSlot → Link T
  reserve_in l busy_until full_duplex slot_ab = record l {
    busy_until_ab = float_max f l.busy_until_ab busy_until;
  }
  reserve_in l busy_until full_duplex slot_ba = record l {
    busy_until_ba = float_max f l.busy_until_ba busy_until;
  }
  reserve_in l busy_until full_duplex slot_shared = l
  reserve_in l busy_until full_duplex slot_invalid = l
  reserve_in l busy_until half_duplex slot_invalid = l
  reserve_in l busy_until half_duplex slot_ab = record l {
    busy_until_shared = float_max f l.busy_until_shared busy_until;
  }
  reserve_in l busy_until half_duplex slot_ba = record l {
    busy_until_shared = float_max f l.busy_until_shared busy_until;
  }
  reserve_in l busy_until half_duplex slot_shared = record l {
    busy_until_shared = float_max f l.busy_until_shared busy_until;
  }
  reserve_in l busy_until simplex slot_ab = record l {
    busy_until_ab = float_max f l.busy_until_ab busy_until;
  }
  reserve_in l busy_until simplex slot_ba = l
  reserve_in l busy_until simplex slot_shared = l
  reserve_in l busy_until simplex slot_invalid = l

  unfoldable pub reserve_transmission : Link T → ℤ → ℤ → T → Link T
  unfolding get_direction_slot reserve_in
  reserve_transmission l from to busy_until =
      reserve_in l busy_until l.mode (get_direction_slot l from to)

  unfoldable pub is_busy : Link T → ℤ → ℤ → T → Bool
  unfolding get_next_available_time
  is_busy l from to now = f.lt now (get_next_available_time l from to now)

  -- `draw` is the number that `Random::uniform01` gives.
  unfoldable pub should_drop : Link T → T → Bool
  should_drop l draw = if f.le l.loss_prob (f.literal 0 1) then false else f.lt draw l.loss_prob
