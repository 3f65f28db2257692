-- ===== src/Timers.antt =====
-- of1x_timers.c: the ring of timer groups of a flow table, one group for each second. The slots are
-- allocated statically, as the build has it. `next_group` is what the rotation of a group
-- does to the ring; what it does to the flow entries is in Expiry.
pub mod Slots
pub mod Ring
pub mod Expiry
pub mod Clears
pub mod Visit
pub mod Sweep
pub mod Stale
pub mod Until
mod Tests
mod ExpiryTests
use rofl_fork.Base.{
  ℕ, ◌+◌, ◌-◌, ◌*◌, ◌/◌, ◌%◌, ◌^◌, Bool, List, [], ◌∷◌, ◌++◌, ltb, leb, ◌==◌, not, if◌then◌else◌,
  RoflResult, success, failure,
}
use rofl_fork.FlowEntry.{FlowEntry}

-- struct timeval.
pub record TimeVal : Type 0 where
  pub tv_sec : ℕ
  pub tv_usec : ℕ

-- OF1X_TIMER_SLOT_MS.
abbrev pub slot_ms : ℕ
slot_ms = 1000

-- OF1X_TIMER_GROUPS_MAX.
abbrev pub groups_max : ℕ
groups_max = 65536

pub data TimeoutType : Type 0 where
  hard_to idle_to : TimeoutType

-- of1x_entry_timer_t, with the address of the flow entry.
pub record EntryTimer : Type 0 where
  pub entry : ℕ
  pub type : TimeoutType

-- of1x_timer_group_t.
pub record TimerGroup : Type 0 where
  pub timeout : ℕ
  pub timers : List EntryTimer
  pub num_of_timers : ℕ

-- The array `timers` of a table, of which the code reads the numbers below `groups_max`, and
-- `current_timer_group`.
pub record Timers : Type 0 where
  pub groups : ℕ → TimerGroup
  pub current : ℕ

unfoldable pub get_time_ms : TimeVal → ℕ
get_time_ms t = (t.tv_sec * 1000 + t.tv_usec / 1000) % 2 ^ 64

-- The time of expiration in ms, rounded up to a slot.
unfoldable pub get_expiration_time_slotted : ℕ → TimeVal → ℕ
get_expiration_time_slotted timeout now =
    let ms = ((now.tv_sec + timeout) * 1000 + now.tv_usec / 1000) % 2 ^ 64 in
    if not (ms % slot_ms == 0) then (ms / slot_ms + 1) * slot_ms % 2 ^ 64 else ms

unfoldable pub timer_group_static_init : TimeVal → Timers
unfolding get_expiration_time_slotted
timer_group_static_init now = record {
  groups = λ i. record {
    timeout = (get_expiration_time_slotted 0 now + slot_ms * i) % 2 ^ 64;
    timers = [];
    num_of_timers = 0;
  };
  current = 0;
}

-- The group at a number is changed.
abbrev pub change_group : ℕ → (TimerGroup → TimerGroup) → Timers → Timers
change_group p f t = record t { groups = λ i. if i == p then f (t.groups i) else t.groups i }

-- The rotation: the group of the slot that is over becomes that of the last slot.
unfoldable pub next_group : Timers → Timers
next_group t =
    let renew = λ (g : TimerGroup). record g {
      timeout = (g.timeout + slot_ms * groups_max) % 2 ^ 64;
      timers = [];
      num_of_timers = 0;
    } in
    record (change_group t.current renew t) {
      current = if leb groups_max (t.current + 1) then 0 else t.current + 1;
    }

-- A timer of a flow entry at the end of the group. The pointers from the entry are left out; `allocated` says that there is memory for it.
unfoldable pub entry_timer_init : Bool → ℕ → ℕ → TimeoutType → Timers → RoflResult × Timers
entry_timer_init allocated position entry type t =
    let add = λ (g : TimerGroup). record g {
      timers = g.timers ++ record { entry = entry; type = type } ∷ [];
      num_of_timers = (g.num_of_timers + 1) % 2 ^ 32;
    } in
    if allocated then (success, change_group position add t) else (failure, t)

-- The quotient of an `int` by the length of a slot, which C rounds towards 0, as 32 bits.
unfoldable pub divide_by_slot : ℕ → ℕ
divide_by_slot d =
    if ltb d (2 ^ 31) then d / slot_ms else (2 ^ 32 - (2 ^ 32 - d) / slot_ms) % 2 ^ 32

-- The number of the group for a time of expiration.
unfoldable pub slot_position : Timers → ℕ → ℕ
unfolding divide_by_slot
slot_position t expiration =
    let delta = (expiration + (2 ^ 64 - (t.groups t.current).timeout)) % 2 ^ 32 in
    (t.current + divide_by_slot delta) % 2 ^ 32 % groups_max

unfoldable pub add_single_timer :
    Bool → Timers → ℕ → ℕ → TimeoutType → TimeVal → RoflResult × Timers
unfolding get_expiration_time_slotted slot_position entry_timer_init
add_single_timer allocated t timeout entry type now =
    if ltb groups_max timeout
    then (failure, t)
    else entry_timer_init allocated (slot_position t (get_expiration_time_slotted timeout now))
        entry type t

-- The idle timer and then the hard one, each at the time that the clock shows; a failure ends it.
unfoldable pub add_timer :
    Bool → Bool → Timers → FlowEntry → TimeVal → TimeVal → RoflResult × Timers
unfolding add_single_timer
add_timer idle_allocated hard_allocated t e now later =
    let info = e.timer_info in
    let idle =
      if info.idle_timeout == 0
      then (success, t)
      else add_single_timer idle_allocated t info.idle_timeout e.addr idle_to now in
    elim idle.0 [
      | failure ↦ (failure, idle.1)
      | success ↦
          if info.hard_timeout == 0
          then (success, idle.1)
          else add_single_timer hard_allocated idle.1 info.hard_timeout e.addr hard_to later
    ]

-- Whether an idle timer has expired at a time; else it is added anew.
unfoldable pub idle_expired : FlowEntry → TimeVal → TimeVal → Bool
unfolding get_expiration_time_slotted get_time_ms
idle_expired e last_update now =
    leb (get_expiration_time_slotted e.timer_info.idle_timeout last_update) (get_time_ms now)

-- The clock that tests move forward, kept in two static variables: seconds and microseconds.
unfoldable pub time_forward : ℕ → ℕ → TimeVal → TimeVal
time_forward sec usec abs =
    let s = (abs.tv_sec + sec) % 2 ^ 64 in
    let u = (abs.tv_usec + usec) % 2 ^ 64 in
    if ltb 1000000 u
    then record { tv_sec = (s + 1) % 2 ^ 64; tv_usec = u - 1000000 }
    else record { tv_sec = s; tv_usec = u }
