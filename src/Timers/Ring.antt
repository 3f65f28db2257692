-- ===== src/Timers/Ring.antt =====
-- The ring of timer groups: which group stands for which second, and where a timer goes.
use rofl_fork.Base.{
  ℕ, ◌+◌, ◌*◌, ◌%◌, ◌^◌, ◌≡◌, ◌≢◌, ◌≤◌, ◌<◌, refl, true, false, [], ◌∷◌, ◌++◌, Bool-cases, ◌==◌,
  ltb, leb, if◌then◌else◌, inl, inr, arith, success,
}
use rofl_fork.Timers.{
  TimeVal, TimeoutType, EntryTimer, Timers, get_expiration_time_slotted, slot_ms, groups_max,
  timer_group_static_init, next_group, add_single_timer, slot_position, divide_by_slot,
  entry_timer_init,
}
use rofl_fork.Timers.Slots.{exact, get_expiration_time_slotted-rounds}

-- The groups stand, from the current one on and around, for the times from `base` on, slot by slot.
pub record IsRing (t : Timers) (base : ℕ) : Type 0 where
  pub current : t.current < groups_max
  pub slots :
      (i : ℕ)
      → i < groups_max
      → (t.groups ((t.current + i) % groups_max)).timeout ≡ base + slot_ms * i

-- The ring is set up in order, from the next full second on, where the times fit 64 bits.
pub timer_group_static_init-IsRing :
    (now : TimeVal)
    → exact 0 now + slot_ms * groups_max + slot_ms ≤ 2 ^ 64
    → IsRing (timer_group_static_init now) (get_expiration_time_slotted 0 now)
unfolding timer_group_static_init
timer_group_static_init-IsRing now h = record {
  current = omega arith;
  slots =
      λ i l. let b = get_expiration_time_slotted-rounds 0 now (omega arith) in omega (arith, b.2);
}

-- A rotation keeps the ring in order, one slot later, where the times fit 64 bits.
pub next_group-IsRing :
    (t : Timers) (base : ℕ)
    → IsRing t base
    → base + slot_ms * groups_max < 2 ^ 64
    → IsRing (next_group t) (base + slot_ms)
unfolding next_group
next_group-IsRing t base r h = record {
  current = ground (arith, r.current);
  slots = λ i l. elim (Bool-cases (leb groups_max (t.current + 1))) [
    | inl y ↦ rw y (renewed i l 0 (ground (arith, r.current)))
    | inr m ↦ rw m (renewed i l (t.current + 1) (ground (arith, r.current)))
  ];
}
  where
    -- The group `i` slots after the new current one.
    renewed :
        (i : ℕ)
        → i < groups_max
        → (c : ℕ) → c ≡ (t.current + 1) % groups_max
        → (if (c + i) % groups_max == t.current
            then record (t.groups ((c + i) % groups_max)) {
              timeout = ((t.groups ((c + i) % groups_max)).timeout + slot_ms * groups_max) % 2 ^ 64;
              timers = [];
              num_of_timers = 0;
            }
            else t.groups ((c + i) % groups_max)).timeout
          ≡ base + slot_ms + slot_ms * i
    renewed i l c e = elim (Bool-cases ((c + i) % groups_max == t.current)) [
      | inl y ↦
          let j : (c + i) % groups_max ≡ (t.current + 0) % groups_max = ground (arith, r.current) in
          let g : (t.groups ((c + i) % groups_max)).timeout ≡ base + slot_ms * 0 =
            rw j (r.slots 0 (omega arith)) in
          rw y (ground (arith, r.current))
      | inr m ↦
          let j : (c + i) % groups_max ≡ (t.current + (i + 1)) % groups_max = omega arith in
          let n : i + 1 < groups_max = ground (arith, r.current) in
          rw (m, j, r.slots (i + 1) n) (omega arith)
    ]

slot_position-slot :
    (t : Timers) (base k : ℕ)
    → IsRing t base
    → k < groups_max
    → base ≤ 2 ^ 64
    → slot_position t (base + slot_ms * k) ≡ (t.current + k) % groups_max
unfolding slot_position divide_by_slot
slot_position-slot t base k r l h =
    let z : (t.current + 0) % groups_max ≡ t.current = omega (arith, r.current) in
    let g : (t.groups t.current).timeout ≡ base =
      rw (← z) (omega (arith, r.slots 0 (omega arith))) in
    ground (arith, g, r.current)

-- The timer stands at the end of the group of a time, and every other group is as it was.
abbrev pub IsAdded : Timers → ℕ → EntryTimer → Timers → Type 0
IsAdded t time timer new =
    (p : ℕ) × (p < groups_max)
    × ((new.groups p).timeout ≡ time)
    × ((new.groups p).timers ≡ (t.groups p).timers ++ timer ∷ [])
    × ((q : ℕ) → q ≢ p → new.groups q ≡ t.groups q)

entry_timer_init-IsAdded :
    (t : Timers) (p time entry : ℕ) (type : TimeoutType)
    → p < groups_max
    → (t.groups p).timeout ≡ time
    → (entry_timer_init true p entry type t).0 ≡ success
      × IsAdded t time
          (record { entry = entry; type = type })
          (entry_timer_init true p entry type t).1
unfolding entry_timer_init
entry_timer_init-IsAdded t p time entry type l e =
    let same : (p == p) ≡ true = ground arith in
    (refl, (p, l, rw same e, rw same, λ q n. ground (arith, n)))

-- In a ring in order, for which the time of expiration is not over and less than a round away, a timer
-- is added to the group of that time, with memory for it and a timeout that the ring admits.
pub add_single_timer-IsAdded :
    (t : Timers) (base k timeout entry : ℕ) (type : TimeoutType) (now : TimeVal)
    → IsRing t base
    → base ≤ 2 ^ 64
    → timeout ≤ groups_max
    → get_expiration_time_slotted timeout now ≡ base + slot_ms * k
    → k < groups_max
    → ((add_single_timer true t timeout entry type now).0 ≡ success)
      × IsAdded t
          (get_expiration_time_slotted timeout now)
          (record { entry = entry; type = type })
          (add_single_timer true t timeout entry type now).1
unfolding add_single_timer
add_single_timer-IsAdded t base k timeout entry type now r h b e l =
    let p = (t.current + k) % groups_max in
    let q : slot_position t (get_expiration_time_slotted timeout now) ≡ p =
      rw e (slot_position-slot t base k r l h) in
    let g : ltb groups_max timeout ≡ false = ground arith in
    rw (g, q)
      (entry_timer_init-IsAdded t p (get_expiration_time_slotted timeout now) entry type
        (omega arith) (rw e (r.slots k l)))
