-- ===== src/Timers/Slots.antt =====
-- The times at which timers expire.
use rofl_fork.Base.{ℕ, ◌+◌, ◌*◌, ◌/◌, ◌%◌, ◌^◌, ◌≡◌, ◌≤◌, ◌<◌, arith}
use rofl_fork.Timers.{TimeVal, get_expiration_time_slotted, slot_ms}

-- The time in ms, before it is rounded.
abbrev pub exact : ℕ → TimeVal → ℕ
exact timeout now = (now.tv_sec + timeout) * 1000 + now.tv_usec / 1000

-- The time of expiration is a multiple of a slot, not before the exact time, and less than a slot
-- after it, where the times are small enough for 64 bits.
pub get_expiration_time_slotted-rounds :
    (timeout : ℕ) (now : TimeVal)
    → exact timeout now + slot_ms ≤ 2 ^ 64
    → (get_expiration_time_slotted timeout now % slot_ms ≡ 0)
      × (exact timeout now ≤ get_expiration_time_slotted timeout now)
      × (get_expiration_time_slotted timeout now < exact timeout now + slot_ms)
unfolding get_expiration_time_slotted
get_expiration_time_slotted-rounds timeout now h = ground arith
