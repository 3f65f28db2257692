-- ===== src/Timers/ExpiryTests.antt =====
-- A group with the hard timer of one entry and the idle timer of another, which expires.
use rofl_fork.Base.{find_first}
use rofl_fork.Base.{
  ℕ, ◌≡◌, sym, ◌∙◌, find_first, refl, true, false, List, [], ◌∷◌, none, some, arith, length,
}
use rofl_fork.FlowEntry.{FlowEntry, init_flow_entry}
use rofl_fork.Loop.{Table}
use rofl_fork.Loop.Invariant.{IsTable}
use rofl_fork.Loop.Tests.{two_entries}
use rofl_fork.Timers.{
  TimeVal, Timers, EntryTimer, timer_group_static_init, change_group, get_expiration_time_slotted,
  idle_expired, slot_position, divide_by_slot,
}
use rofl_fork.Timers.Expiry.{
  idle_position, Schedule, Surroundings, destroy_all_entries_from_timer_group, timer_group_rotate,
}
use rofl_fork.Timers.Ring.{IsRing, timer_group_static_init-IsRing}
use rofl_fork.Timers.Sweep.{IsRotated, timer_group_rotate-IsRotated, SameTimes-IsRing}
use rofl_fork.Timers.Stale.{hard_of, idle_of, destroy_all_entries-stale}
use rofl_fork.Timers.Visit.{IsReady}

-- An entry with the timeouts, last used at a time in microseconds.
abbrev timed : ℕ → ℕ → ℕ → ℕ → FlowEntry
unfolding init_flow_entry
timed addr idle hard used = record (init_flow_entry addr 0 false) {
  priority = 10;
  table = some 0;
  timer_info = record { idle_timeout = idle; hard_timeout = hard; time_last_update = used };
}

abbrev first_entry : FlowEntry
unfolding timed
first_entry = timed 1 0 5 0

abbrev second_entry : FlowEntry
unfolding timed
second_entry = timed 2 5 0 99000000

abbrev timed_table : List FlowEntry → Table
unfolding two_entries
timed_table es = record two_entries { entries = es; num_of_entries = length es }

two_timed-IsTable : IsTable (timed_table (first_entry ∷ second_entry ∷ []))
unfolding timed_table first_entry second_entry timed init_flow_entry two_entries
two_timed-IsTable = record {
  ordered = ((ground arith, tt), (tt, tt));
  count = refl;
  bounded = ground arith;
  points = (refl, (refl, tt));
  distinct = ((ground arith, tt), (tt, tt));
}

abbrev half_past : TimeVal
half_past = record { tv_sec = 100; tv_usec = 500000 }

-- The ring with the timers in the current group.
abbrev ring_of : List EntryTimer → Timers
unfolding timer_group_static_init
ring_of ts =
    change_group 0 (λ g. record g { timers = ts; num_of_timers = length ts })
      (timer_group_static_init half_past)

abbrev two_timers : Schedule
unfolding ring_of timed_table first_entry second_entry
two_timers = record {
  table = timed_table (first_entry ∷ second_entry ∷ []);
  timers = ring_of (hard_of 1 ∷ idle_of 2 ∷ []);
  links = λ a y. some 0;
}

abbrev at_half_past : Surroundings
at_half_past = record { clock = λ t. half_past; allocated = λ t. true }

first-IsReady : IsReady at_half_past 0 two_timers (hard_of 1)
unfolding find_first two_timers
first-IsReady = record {
  entry = first_entry;
  found = refl;
  has_timeout = ground arith;
  link = refl;
  elsewhere = 1;
  apart = ground arith;
  other_link = λ h. absurd (h refl);
  memory = λ h. refl;
  moves = λ h. ground arith;
}

-- The idle timer of the second entry starts again three slots later.
second_position : idle_position two_timers second_entry ≡ 3
unfolding two_timers get_expiration_time_slotted slot_position divide_by_slot
second_position = refl

second-IsReady : IsReady at_half_past 0 two_timers (idle_of 2)
unfolding find_first two_timers
second-IsReady = record {
  entry = second_entry;
  found = refl;
  has_timeout = ground arith;
  link = refl;
  elsewhere = 1;
  apart = ground arith;
  other_link = λ h. absurd (h refl);
  memory = λ h. refl;
  moves = λ h z. let q = sym second_position ∙ z in ground arith;
}

ring_of-IsRing :
    (ts : List EntryTimer) → IsRing (ring_of ts) (get_expiration_time_slotted 0 half_past)
unfolding timer_group_static_init ring_of
ring_of-IsRing ts =
    SameTimes-IsRing (timer_group_static_init half_past) (ring_of ts) _ (refl, λ i. ground arith)
      (timer_group_static_init-IsRing half_past (ground arith))

timer_group_rotate-IsRotated_example :
    (u : Schedule) × (timer_group_rotate at_half_past two_timers ≡ some u)
    × IsRotated at_half_past
        (hard_of 1 ∷ idle_of 2 ∷ [])
        (get_expiration_time_slotted 0 half_past)
        two_timers
        u
unfolding two_timers timed_table
timer_group_rotate-IsRotated_example =
    timer_group_rotate-IsRotated at_half_past (get_expiration_time_slotted 0 half_past) two_timers
      two_timed-IsTable (ring_of-IsRing (hard_of 1 ∷ idle_of 2 ∷ [])) (ground arith) refl
      (first-IsReady, (second-IsReady, tt)) ((ground arith, tt), (tt, tt))

-- An entry with an idle and a hard timeout of 5 seconds, which was not used.
abbrev unused_entry : FlowEntry
unfolding timed
unused_entry = timed 1 5 5 0

abbrev both_timers : Schedule
unfolding ring_of timed_table unused_entry
both_timers = record {
  table = timed_table (unused_entry ∷ []);
  timers = ring_of (idle_of 1 ∷ hard_of 1 ∷ []);
  links = λ a y. some 0;
}

unused-IsTable : IsTable (timed_table (unused_entry ∷ []))
unfolding timed_table unused_entry timed init_flow_entry two_entries
unused-IsTable = record {
  ordered = (tt, tt);
  count = refl;
  bounded = ground arith;
  points = (refl, tt);
  distinct = (tt, tt);
}

destroy_all_entries-stale_example :
    destroy_all_entries_from_timer_group at_half_past 0 both_timers ≡ none
unfolding both_timers timed_table find_first idle_expired
destroy_all_entries-stale_example =
    destroy_all_entries-stale at_half_past 0 1 unused_entry [] both_timers unused-IsTable
      (ground arith) refl tt refl (ground arith) (ground arith) refl refl refl
