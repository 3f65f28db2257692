-- ===== src/Timers/Tests.antt =====
-- A ring that is set up at half past a second, and timers on it.
use rofl_fork.Base.{◌%◌, ◌+◌, ◌≤◌, ◌<◌, ◌≡◌, refl, true, arith, success}
use rofl_fork.Timers.Slots.{exact, get_expiration_time_slotted-rounds}
use rofl_fork.Timers.{
  slot_ms, TimeVal, Timers, EntryTimer, get_expiration_time_slotted, hard_to,
  timer_group_static_init, add_single_timer,
}
use rofl_fork.Timers.Ring.{
  IsRing, IsAdded, timer_group_static_init-IsRing, add_single_timer-IsAdded,
}

abbrev half_past : TimeVal
half_past = record { tv_sec = 100; tv_usec = 500000 }

unfoldable new_ring : Timers
new_ring = timer_group_static_init half_past

new_ring-IsRing : IsRing new_ring (get_expiration_time_slotted 0 half_past)
unfolding new_ring timer_group_static_init
new_ring-IsRing = timer_group_static_init-IsRing half_past (ground arith)

get_expiration_time_slotted-rounds_example :
    (get_expiration_time_slotted 5 half_past % slot_ms ≡ 0)
    × (exact 5 half_past ≤ get_expiration_time_slotted 5 half_past)
    × (get_expiration_time_slotted 5 half_past < exact 5 half_past + slot_ms)
get_expiration_time_slotted-rounds_example =
    get_expiration_time_slotted-rounds 5 half_past (ground arith)

abbrev hard_timer : EntryTimer
hard_timer = record { entry = 7; type = hard_to }

add_single_timer-IsAdded_example :
    ((add_single_timer true new_ring 5 7 hard_to half_past).0 ≡ success)
    × IsAdded new_ring
        (get_expiration_time_slotted 5 half_past)
        hard_timer
        (add_single_timer true new_ring 5 7 hard_to half_past).1
unfolding get_expiration_time_slotted
add_single_timer-IsAdded_example =
    add_single_timer-IsAdded new_ring (get_expiration_time_slotted 0 half_past) 5 5 7 hard_to
      half_past new_ring-IsRing (ground arith) (ground arith) refl (ground arith)
