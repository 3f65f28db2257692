-- ===== src/Timers/Visit.antt =====
-- One round of the loop over the timers of a group that expires.
use rofl_fork.Base.{
  ◌>>=◌, ℕ, ◌≡◌, ◌≢◌, ap, sym, ◌∙◌, refl, Bool, true, false, ◌&&◌, not, Bool-cases, inl, inr, List,
  [], ◌∷◌, some, ◌==◌, find_first, keep, arith, success,
}
use rofl_fork.FlowEntry.{FlowEntry, RemoveReason}
use rofl_fork.Loop.{has_addr, unlink}
use rofl_fork.Loop.Invariant.{IsTable}
use rofl_fork.Timers.{
  TimeoutType, hard_to, idle_to, EntryTimer, Timers, slot_position, entry_timer_init, idle_expired,
}
use rofl_fork.Timers.Expiry.{
  Schedule, Surroundings, remove_timer, destroy_single_timer_entry_clean, destroy_both_timers,
  expire, last_update, idle_position, move_timer, reschedule_idle_timer, visit,
}
use rofl_fork.Timers.Clears.{
  timeout_of, other, SameTimes, unlink-keep, keep-same, destroy_both_timers-Clears,
  destroy_both_timers-group, remove_timer-head, expire-removes,
}

-- The entry is over when the timer is visited: a hard timer ends it, an idle one if it was not used.
abbrev pub is_over : Surroundings → EntryTimer → FlowEntry → Bool
is_over w t e = elim t.type [
  | hard_to ↦ true
  | idle_to ↦ idle_expired e (last_update e) (w.clock t)
]

-- The entry stays when the timer is visited.
abbrev pub outlives : Surroundings → EntryTimer → FlowEntry → Bool
outlives w t x = not (has_addr t.entry x && is_over w t x)

-- The timer of an entry of the table, in the group at the number; the other timer of the entry, if it
-- has one, is in another group. If it is added anew, then with memory, and to another group.
pub record IsReady (w : Surroundings) (p : ℕ) (s : Schedule) (t : EntryTimer) : Type 0 where
  pub entry : FlowEntry
  pub found : find_first (has_addr t.entry) s.table.entries ≡ some entry
  pub has_timeout : timeout_of t.type entry ≢ 0
  pub link : s.links t.entry t.type ≡ some p
  pub elsewhere : ℕ
  pub apart : elsewhere ≢ p
  pub other_link :
      timeout_of (other t.type) entry ≢ 0 → s.links t.entry (other t.type) ≡ some elsewhere
  pub memory : is_over w t entry ≡ false → w.allocated t ≡ true
  pub moves : is_over w t entry ≡ false → idle_position s entry ≢ p

slot_position-SameTimes :
    (t u : Timers) (x : ℕ) → SameTimes t u → slot_position u x ≡ slot_position t x
unfolding slot_position
slot_position-SameTimes t u x (c, o) = rw (c, o t.current) refl

-- What keeps the timers of other entries ready.
IsReady-after :
    (w : Surroundings) (p a : ℕ) (s u : Schedule) (t : EntryTimer)
    → t.entry ≢ a
    → SameTimes s.timers u.timers
    → ((b : ℕ) (y : TimeoutType) → b ≢ a → u.links b y ≡ s.links b y)
    → find_first (has_addr t.entry) u.table.entries ≡ find_first (has_addr t.entry) s.table.entries
    → IsReady w p s t
    → IsReady w p u t
IsReady-after w p a s u t n o l f r = record {
  entry = r.entry;
  found = f ∙ r.found;
  has_timeout = r.has_timeout;
  link = l t.entry t.type n ∙ r.link;
  elsewhere = r.elsewhere;
  apart = r.apart;
  other_link = λ h. l t.entry (other t.type) n ∙ r.other_link h;
  memory = r.memory;
  moves = λ h. λ z. r.moves h (sym (slot_position-SameTimes s.timers u.timers _ o) ∙ z);
}

find_first-unlink :
    (a b : ℕ) (es : List FlowEntry)
    → b ≢ a
    → find_first (has_addr b) (unlink a es) ≡ find_first (has_addr b) es
unfolding find_first unlink
find_first-unlink a b [] n = refl
find_first-unlink a b (e ∷ es) n = elim (Bool-cases (has_addr a e)) [
  | inl y ↦ let z : has_addr b e ≡ false = ground arith in rw (y, z) refl
  | inr m ↦
      let h = find_first-unlink a b es n in
      elim (Bool-cases (has_addr b e)) [ inl z ↦ rw (m, z) refl | inr z ↦ rw (m, z) h ]
]

-- The round succeeds: the table is in order, without the entry if it is over, the timer is gone from
-- the group, and the timers of other entries are ready as before.
abbrev pub Round : Surroundings → ℕ → EntryTimer → List EntryTimer → Schedule → Schedule → Type 0
Round w p t ts s u =
    (visit w t p s ≡ some (success, u))
    × IsTable u.table
    × (u.table.entries ≡ keep (outlives w t) s.table.entries)
    × ((u.timers.groups p).timers ≡ ts)
    × SameTimes s.timers u.timers
    × ((v : EntryTimer) → v.entry ≢ t.entry → IsReady w p s v → IsReady w p u v)

-- The removal of the entry of a timer.
expire-Round :
    (w : Surroundings) (p a : ℕ) (y : TimeoutType) (ts : List EntryTimer) (cause : RemoveReason)
    (s : Schedule)
    → IsTable s.table
    → (r : IsReady w p s (record { entry = a; type = y }))
    → is_over w (record { entry = a; type = y }) r.entry ≡ true
    → (s.timers.groups p).timers ≡ record { entry = a; type = y } ∷ ts
    → (u : Schedule) × (expire a cause s ≡ some u)
      × IsTable u.table
      × (u.table.entries ≡ keep (outlives w (record { entry = a; type = y })) s.table.entries)
      × ((u.timers.groups p).timers ≡ ts)
      × SameTimes s.timers u.timers
      × ((v : EntryTimer) → v.entry ≢ a → IsReady w p s v → IsReady w p u v)
expire-Round w p a y ts cause s i r h q =
    let t : EntryTimer = record { entry = a; type = y } in
    let e = r.entry in
    let (b, j, k, m, x) = expire-removes a e cause s i r.found in
    let s1 = record s { table = b } in
    let u = (destroy_both_timers e s1).1 in
    let (c, o, l) = destroy_both_timers-Clears e s1 in
    let g =
      destroy_both_timers-group y e p r.elsewhere s1 r.has_timeout
        (ap (λ b. s.links b y) m ∙ r.link) r.apart
        (λ z. ap (λ b. s.links b (other y)) m ∙ r.other_link z) in
    let f = ap (λ b. remove_timer (record { entry = b; type = y }) (s.timers.groups p).timers) m in
    (
      u,
      x,
      rw c j,
      ap (λ t. t.entries) c
          ∙ k
          ∙ unlink-keep a (is_over w t) s.table.entries e i.distinct r.found h,
      g ∙ f ∙ ap (remove_timer t) q ∙ remove_timer-head t ts,
      o,
      λ v n d.
          IsReady-after w p a s u v n o (λ b z n'. l b z (λ q'. n' (q' ∙ m)))
            (ap (λ t. find_first (has_addr v.entry) t.entries) c
              ∙ ap (find_first (has_addr v.entry)) k
              ∙ find_first-unlink a v.entry s.table.entries n)
            d,
    )

-- An idle timer that is added anew, to another group.
move_timer-Round :
    (w : Surroundings) (p a : ℕ) (ts : List EntryTimer) (s : Schedule)
    → IsTable s.table
    → (r : IsReady w p s (record { entry = a; type = idle_to }))
    → is_over w (record { entry = a; type = idle_to }) r.entry ≡ false
    → (s.timers.groups p).timers ≡ record { entry = a; type = idle_to } ∷ ts
    → (u : Schedule) × (move_timer true (record { entry = a; type = idle_to }) p r.entry s
        ≡ (success, u))
      × IsTable u.table
      × (u.table.entries ≡ keep (outlives w (record { entry = a; type = idle_to })) s.table.entries)
      × ((u.timers.groups p).timers ≡ ts)
      × SameTimes s.timers u.timers
      × ((v : EntryTimer) → v.entry ≢ a → IsReady w p s v → IsReady w p u v)
unfolding move_timer entry_timer_init destroy_single_timer_entry_clean
move_timer-Round w p a ts s i r h q =
    let t : EntryTimer = record { entry = a; type = idle_to } in
    let e = r.entry in
    let n : (p == idle_position s e) ≡ false = let m = r.moves h in ground arith in
    let y : (p == p) ≡ true = ground arith in
    let u = (move_timer true t p e s).1 in
    (
      u,
      refl,
      i,
      sym (keep-same a (is_over w t) s.table.entries e i.distinct r.found h),
      rw (y, n) (ap (remove_timer t) q ∙ remove_timer-head t ts),
      (refl, λ j. ground arith),
      λ v m d.
          IsReady-after w p a s u v m (refl, λ j. ground arith)
            (λ b z k. let f : (b == a) ≡ false = ground arith in rw f refl) refl d,
    )

-- A round, for a timer at the head of its group.
pub visit-Round :
    (w : Surroundings) (p a : ℕ) (y : TimeoutType) (ts : List EntryTimer) (s : Schedule)
    → IsTable s.table
    → IsReady w p s (record { entry = a; type = y })
    → (s.timers.groups p).timers ≡ record { entry = a; type = y } ∷ ts
    → (u : Schedule) × Round w p (record { entry = a; type = y }) ts s u
unfolding visit reschedule_idle_timer
visit-Round w p a hard_to ts s i r q =
    let (u, x, j, k, g, o, d) =
      expire-Round w p a hard_to ts RemoveReason.hard_timeout s i r refl q in
    (u, (rw x refl, j, k, g, o, d))
visit-Round w p a idle_to ts s i r q =
    let t : EntryTimer = record { entry = a; type = idle_to } in
    elim (Bool-cases (is_over w t r.entry)) [
      | inl y ↦
          let (u, x, j, k, g, o, d) =
            expire-Round w p a idle_to ts RemoveReason.idle_timeout s i r y q in
          (u, (rw (x, r.found, ◌>>=◌, y) refl, j, k, g, o, d))
      | inr n ↦
          let (u, x, j, k, g, o, d) = move_timer-Round w p a ts s i r n q in
          (u, (rw (r.found, ◌>>=◌, n, r.memory n) (ap some x), j, k, g, o, d))
    ]
