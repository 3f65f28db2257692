-- ===== src/Timers/Expiry.antt =====
-- of1x_timers.c: what the expiration of a timer group does to the flow entries of its table, and the
-- removal of timers. A timer is known by its entry and its kind, of which an entry has one each at most.
use rofl_fork.Base.{
  ◌>>=◌, ℕ, zero, suc, ◌+◌, ◌-◌, ◌/◌, ◌%◌, ◌^◌, Bool, true, false, ◌&&◌, List, [], ◌∷◌, Option,
  none, some, ltb, leb, ◌==◌, if◌then◌else◌, find_first, length, RoflResult, success, failure,
}
use rofl_fork.FlowEntry.{FlowEntry, RemoveReason, port_any}
use rofl_fork.Group.Table.{group_any}
use rofl_fork.Loop.{Table, strict, has_addr, remove_flow_entry_loop}
use rofl_fork.Timers.{
  TimeVal, TimeoutType, hard_to, idle_to, EntryTimer, TimerGroup, Timers, change_group,
  get_expiration_time_slotted, get_time_ms, slot_position, entry_timer_init, next_group,
  idle_expired,
}

-- A table with its timers; `links` has idle_timer_entry and hard_timer_entry of an entry, as the
-- number of the group that the timer is in.
pub record Schedule : Type 0 where
  pub table : Table
  pub timers : Timers
  pub links : ℕ → TimeoutType → Option ℕ

-- What the clock shows when a timer is visited, and whether there is memory to add it anew.
pub record Surroundings : Type 0 where
  pub clock : EntryTimer → TimeVal
  pub allocated : EntryTimer → Bool

abbrev pub same_timeout : TimeoutType → TimeoutType → Bool
same_timeout hard_to hard_to = true
same_timeout hard_to idle_to = false
same_timeout idle_to hard_to = false
same_timeout idle_to idle_to = true

abbrev pub is_timer : EntryTimer → EntryTimer → Bool
is_timer t u = t.entry == u.entry && same_timeout t.type u.type

abbrev pub set_link :
    ℕ → TimeoutType → Option ℕ → (ℕ → TimeoutType → Option ℕ) → ℕ → TimeoutType → Option ℕ
set_link a type o links b type' = if b == a && same_timeout type' type then o else links b type'

unfoldable pub remove_timer : EntryTimer → List EntryTimer → List EntryTimer
remove_timer t [] = []
remove_timer t (u ∷ us) = let rest = remove_timer t us in if is_timer t u then us else u ∷ rest

-- The timer in the group at the number is unlinked and freed. The pointer of its entry stays.
unfoldable pub destroy_single_timer_entry_clean : EntryTimer → ℕ → Schedule → Schedule
unfolding remove_timer
destroy_single_timer_entry_clean t p s =
    let shrink = λ (g : TimerGroup). record g {
      timers = remove_timer t g.timers;
      num_of_timers = (g.num_of_timers + (2 ^ 32 - 1)) % 2 ^ 32;
    } in
    record s { timers = change_group p shrink s.timers }

-- The timer of a kind, if the entry has a timeout of it.
unfoldable pub destroy_timer : TimeoutType → ℕ → ℕ → Schedule → RoflResult × Schedule
unfolding destroy_single_timer_entry_clean
destroy_timer type timeout a s = if timeout == 0 then (success, s) else elim (s.links a type) [
  | none ↦ (failure, s)
  | some p ↦
      let u = destroy_single_timer_entry_clean (record { entry = a; type = type }) p s in
      (success, record u { links = set_link a type none u.links })
]

-- The hard timer and then the idle one.
unfoldable pub destroy_both_timers : FlowEntry → Schedule → RoflResult × Schedule
unfolding destroy_timer
destroy_both_timers e s =
    let h = destroy_timer hard_to e.timer_info.hard_timeout e.addr s in
    elim h.0 [ failure ↦ h | success ↦ destroy_timer idle_to e.timer_info.idle_timeout e.addr h.1 ]

unfoldable pub destroy_timer_entries : FlowEntry → Schedule → RoflResult × Schedule
unfolding destroy_both_timers
destroy_timer_entries e s = elim e.table [ none ↦ (failure, s) | some n ↦ destroy_both_timers e s ]

-- The removal of an entry, by its address, because of a timer: the entry is unlinked, and its timers
-- are destroyed with it. An entry that the table has no more has been freed.
unfoldable pub expire : ℕ → RemoveReason → Schedule → Option Schedule
unfolding destroy_timer_entries
expire a cause s = if s.table.num_of_entries == 0 then some s else do
  e ← find_first (has_addr a) s.table.entries
  let r = remove_flow_entry_loop s.table none (some e) strict port_any group_any cause
  elim r.0 [
    | failure ↦ some (record s { table = r.1 })
    | success ↦ some (destroy_timer_entries e (record s { table = r.1 })).1
  ]

-- The time of the last use of an entry.
abbrev pub last_update : FlowEntry → TimeVal
last_update e = record {
  tv_sec = e.timer_info.time_last_update / 1000000;
  tv_usec = e.timer_info.time_last_update % 1000000;
}

-- The group for an idle timer that is added anew.
abbrev pub idle_position : Schedule → FlowEntry → ℕ
idle_position s e =
    slot_position s.timers (get_expiration_time_slotted e.timer_info.idle_timeout (last_update e))

-- The timer is added anew, and then the old one, in the group at the number, is destroyed.
unfoldable pub move_timer : Bool → EntryTimer → ℕ → FlowEntry → Schedule → RoflResult × Schedule
unfolding destroy_single_timer_entry_clean entry_timer_init
move_timer allocated t p e s =
    let q = idle_position s e in
    let r = entry_timer_init allocated q t.entry idle_to s.timers in
    elim r.0 [
      | failure ↦ (failure, s)
      | success ↦ (
        success,
        destroy_single_timer_entry_clean t p
            (record s { timers = r.1; links = set_link t.entry idle_to (some q) s.links }),
      )
    ]

unfoldable pub reschedule_idle_timer :
    Surroundings → EntryTimer → ℕ → Schedule → Option (RoflResult × Schedule)
unfolding expire move_timer idle_expired
reschedule_idle_timer w t p s = do
  e ← find_first (has_addr t.entry) s.table.entries
  if idle_expired e (last_update e) (w.clock t)
      then (do u ← expire t.entry RemoveReason.idle_timeout s; some (success, u))
      else some (move_timer (w.allocated t) t p e s)

-- One round of the loop over the timers of the group.
unfoldable pub visit : Surroundings → EntryTimer → ℕ → Schedule → Option (RoflResult × Schedule)
unfolding reschedule_idle_timer
visit w t p s = elim t.type [
  | idle_to ↦ reschedule_idle_timer w t p s
  | hard_to ↦ do u ← expire t.entry RemoveReason.hard_timeout s; some (success, u)
]

abbrev pub head : List EntryTimer → Option EntryTimer
head [] = none
head (t ∷ ts) = some t

-- The pointer `next` of a timer; there is none to read if the timer has been freed.
unfoldable pub next_timer : EntryTimer → List EntryTimer → Option (Option EntryTimer)
next_timer t [] = none
next_timer t (u ∷ us) = let rest = next_timer t us in if is_timer t u then some (head us) else rest

-- The loop, from a timer on, in at most so many rounds. `none` is a read of freed memory.
unfoldable pub visit_from :
    ℕ → Surroundings → ℕ → Option EntryTimer → Schedule → Option (RoflResult × Schedule)
unfolding next_timer
visit_from zero w p none s = some (success, s)
visit_from zero w p (some t) s = none
visit_from (suc n) w p none s = some (success, s)
visit_from (suc n) w p (some t) s = do
  next ← next_timer t (s.timers.groups p).timers
  r ← visit w t p s
  elim r.0 [ failure ↦ some r | success ↦ visit_from n w p next r.1 ]

unfoldable pub destroy_all_entries_from_timer_group :
    Surroundings → ℕ → Schedule → Option (RoflResult × Schedule)
unfolding visit_from
destroy_all_entries_from_timer_group w p s =
    let g = s.timers.groups p in
    if ltb 0 g.num_of_timers
    then visit_from (length g.timers) w p (head g.timers) s
    else some (success, s)

-- The timers of the current group, if it has any.
unfoldable pub expire_current_group : Surroundings → Schedule → Option (RoflResult × Schedule)
unfolding destroy_all_entries_from_timer_group
expire_current_group w s = elim (s.timers.groups s.timers.current).timers [
  | [] ↦ some (success, s)
  | t ∷ ts ↦ destroy_all_entries_from_timer_group w s.timers.current s
]

-- The rotation goes on after an error.
unfoldable pub timer_group_rotate : Surroundings → Schedule → Option Schedule
unfolding expire_current_group next_group
timer_group_rotate w s = do
  r ← expire_current_group w s
  some (record r.1 { timers = next_group r.1.timers })

-- The rotations of a table, at most so many, up to the time in ms; the surroundings of each.
unfoldable pub rotate_until : ℕ → (ℕ → Surroundings) → ℕ → Schedule → Option Schedule
unfolding timer_group_rotate
rotate_until zero w now s = elim (leb (s.timers.groups s.timers.current).timeout now) [
  | false ↦ some s
  | true ↦ none
]
rotate_until (suc n) w now s = elim (leb (s.timers.groups s.timers.current).timeout now) [
  | false ↦ some s
  | true ↦ do u ← timer_group_rotate (w n) s; rotate_until n w now u
]

-- The tables one after another, with the surroundings of each, at the time when the first is begun.
unfoldable pub process_pipeline_tables_timeout_expirations :
    ℕ → (ℕ → ℕ → Surroundings) → TimeVal → List Schedule → Option (List Schedule)
unfolding rotate_until get_time_ms
process_pipeline_tables_timeout_expirations n w now [] = some []
process_pipeline_tables_timeout_expirations n w now (s ∷ ss) = do
  u ← rotate_until n (w (length ss)) (get_time_ms now) s
  us ← process_pipeline_tables_timeout_expirations n w now ss
  some (u ∷ us)
