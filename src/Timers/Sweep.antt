-- ===== src/Timers/Sweep.antt =====
-- The expiration of a whole timer group.
use rofl_fork.Base.{
  ◌>>=◌, ℕ, ◌+◌, ◌*◌, ◌%◌, ◌^◌, ◌<◌, ◌≡◌, ◌≢◌, ◌⊎◌, ap, sym, ◌∙◌, refl, Bool, true, false, ◌&&◌,
  Bool-cases, inl, inr, List, [], ◌∷◌, Option, some, All, length, keep, arith, RoflResult, success,
  ltb,
}
use rofl_fork.FlowEntry.{FlowEntry}
use rofl_fork.Loop.Invariant.{IsTable}
use rofl_fork.Timers.{EntryTimer, Timers, slot_ms, groups_max, next_group}
use rofl_fork.Timers.Ring.{IsRing, next_group-IsRing}
use rofl_fork.Timers.Clears.{SameTimes, is_timer_self}
use rofl_fork.Timers.Expiry.{
  Schedule, Surroundings, head, next_timer, visit_from, expire_current_group, timer_group_rotate,
  destroy_all_entries_from_timer_group,
}
use rofl_fork.Timers.Visit.{IsReady, outlives, visit-Round}

-- The timers are those of distinct entries.
abbrev pub AreApart : List EntryTimer → Type 0
AreApart [] = Unit
AreApart (t ∷ ts) = All (λ v. v.entry ≢ t.entry) ts × AreApart ts

-- The entry stays when all the timers are visited.
abbrev pub outlives_all : Surroundings → List EntryTimer → FlowEntry → Bool
outlives_all w [] x = true
outlives_all w (t ∷ ts) x = outlives w t x && outlives_all w ts x

-- What is left of a schedule when the group has been visited.
abbrev pub IsSwept : Surroundings → ℕ → List EntryTimer → Schedule → Schedule → Type 0
IsSwept w p ts s u =
    IsTable u.table
    × (u.table.entries ≡ keep (outlives_all w ts) s.table.entries)
    × ((u.timers.groups p).timers ≡ [])
    × SameTimes s.timers u.timers

keep-keep :
    (f g : FlowEntry → Bool) (es : List FlowEntry) → keep g (keep f es) ≡ keep (λ x. f x && g x) es
unfolding keep
keep-keep f g [] = refl
keep-keep f g (e ∷ es) = ground (arith, keep-keep f g es)

keep-true : (es : List FlowEntry) → keep (λ x. true) es ≡ es
unfolding keep
keep-true [] = refl
keep-true (e ∷ es) = ap (λ l. e ∷ l) (keep-true es)

pub next_timer-head :
    (t : EntryTimer) (ts : List EntryTimer) → next_timer t (t ∷ ts) ≡ some (head ts)
unfolding next_timer
next_timer-head t ts = rw (is_timer_self t) refl

All-IsReady :
    (w : Surroundings) (p a : ℕ) (s u : Schedule) (ts : List EntryTimer)
    → ((v : EntryTimer) → v.entry ≢ a → IsReady w p s v → IsReady w p u v)
    → All (λ v. v.entry ≢ a) ts
    → All (IsReady w p s) ts
    → All (IsReady w p u) ts
All-IsReady w p a s u [] f n r = tt
All-IsReady w p a s u (t ∷ ts) f n r = (f t n.0 r.0, All-IsReady w p a s u ts f n.1 r.1)

SameTimes-trans : (t u v : Timers) → SameTimes t u → SameTimes u v → SameTimes t v
SameTimes-trans t u v (c, o) (c', o') = (c' ∙ c, λ i. o' i ∙ o i)

visit_from-IsSwept :
    (w : Surroundings) (p : ℕ) (ts : List EntryTimer) (s : Schedule)
    → IsTable s.table
    → (s.timers.groups p).timers ≡ ts
    → All (IsReady w p s) ts
    → AreApart ts
    → (u : Schedule) × (visit_from (length ts) w p (head ts) s ≡ some (success, u))
      × IsSwept w p ts s u
unfolding visit_from
visit_from-IsSwept w p [] s i q r d =
    (s, refl, (i, sym (keep-true s.table.entries), q, (refl, λ j. refl)))
visit_from-IsSwept w p (t ∷ ts) s i q (r, rs) (n, d) =
    let (v, (x, j, k, g, o, f)) = visit-Round w p t.entry t.type ts s i r q in
    let (u, y, (i', k', g', o')) =
      visit_from-IsSwept w p ts v j g (All-IsReady w p t.entry s v ts f n rs) d in
    let next = ap (next_timer t) q ∙ next_timer-head t ts in
    (
      u,
      rw (next, ◌>>=◌, x) y,
      (
        i',
        k'
            ∙ ap (keep (outlives_all w ts)) k
            ∙ keep-keep (outlives w t) (outlives_all w ts) s.table.entries,
        g',
        SameTimes-trans s.timers v.timers u.timers o o',
      ),
    )

empty : (ts : List EntryTimer) → length ts ≡ 0 → ts ≡ []
empty [] z = refl
empty (t ∷ ts) z = ground arith

-- The expiration of a timer group of a table in order succeeds, reads no freed memory, and leaves no
-- timer in the group. The entries that go are exactly those with a hard timer in the group, and those
-- with an idle timer in it that were not used for its timeout; the others stay in their order, in a
-- table in order, and the groups stand for the times that they stood for. The timers of the group must
-- be those of distinct entries of the table, which do not have their other timer in it, and the idle
-- timers that start again must do so with memory for them, and in another group.
pub destroy_all_entries-IsSwept :
    (w : Surroundings) (p : ℕ) (s : Schedule)
    → IsTable s.table
    → (s.timers.groups p).num_of_timers ≡ length (s.timers.groups p).timers
    → All (IsReady w p s) (s.timers.groups p).timers
    → AreApart (s.timers.groups p).timers
    → (u : Schedule) × (destroy_all_entries_from_timer_group w p s ≡ some (success, u))
      × IsSwept w p (s.timers.groups p).timers s u
unfolding destroy_all_entries_from_timer_group
destroy_all_entries-IsSwept w p s i n r d =
    let (u, x, k) = visit_from-IsSwept w p (s.timers.groups p).timers s i refl r d in
    elim (Bool-cases (ltb 0 (s.timers.groups p).num_of_timers)) [
      | inl y ↦ (u, rw y x, k)
      | inr m ↦
          let z : (s.timers.groups p).timers ≡ [] = empty _ (ground arith) in
          (s, rw m refl, (i, rw z (sym (keep-true s.table.entries)), z, (refl, λ j. refl)))
    ]

pub SameTimes-IsRing : (t u : Timers) (base : ℕ) → SameTimes t u → IsRing t base → IsRing u base
SameTimes-IsRing t u base (c, o) r = record {
  current = rw c r.current;
  slots = λ i l. rw c (o ((t.current + i) % groups_max) ∙ r.slots i l);
}

List-cases :
    (ts : List EntryTimer) → (ts ≡ []) ⊎ ((t : EntryTimer) × (us : List EntryTimer) × (ts ≡ t ∷ us))
List-cases [] = inl refl
List-cases (t ∷ ts) = inr (t, ts, refl)

-- A group that has no timers expires as the others do.
expire_current_group-all :
    (w : Surroundings) (s : Schedule)
    → (s.timers.groups s.timers.current).num_of_timers
      ≡ length (s.timers.groups s.timers.current).timers
    → expire_current_group w s ≡ destroy_all_entries_from_timer_group w s.timers.current s
unfolding expire_current_group destroy_all_entries_from_timer_group
expire_current_group-all w s n =
    let all = destroy_all_entries_from_timer_group w s.timers.current s in
    let run = λ (l : List EntryTimer). elim l as (λ _. Option (RoflResult × Schedule)) [
      | [] ↦ some (success, s)
      | t ∷ ts ↦ all
    ] in
    elim (List-cases (s.timers.groups s.timers.current).timers) [
      | inl z ↦
          let m : ltb 0 (s.timers.groups s.timers.current).num_of_timers ≡ false =
            let k = ap length z in ground arith in
          ap run z ∙ rw m refl
      | inr (t, us, z) ↦ ap run z
    ]

expire_current_group-IsSwept :
    (w : Surroundings) (s : Schedule)
    → IsTable s.table
    → (s.timers.groups s.timers.current).num_of_timers
      ≡ length (s.timers.groups s.timers.current).timers
    → All (IsReady w s.timers.current s) (s.timers.groups s.timers.current).timers
    → AreApart (s.timers.groups s.timers.current).timers
    → (u : Schedule) × (expire_current_group w s ≡ some (success, u))
      × IsSwept w s.timers.current (s.timers.groups s.timers.current).timers s u
expire_current_group-IsSwept w s i n r d =
    let (u, x, k) = destroy_all_entries-IsSwept w s.timers.current s i n r d in
    (u, expire_current_group-all w s n ∙ x, k)

-- The schedule when the current group, of the given timers, has been rotated: what the expiration
-- leaves, in a ring one slot later.
abbrev pub IsRotated : Surroundings → List EntryTimer → ℕ → Schedule → Schedule → Type 0
IsRotated w ts base s u =
    IsTable u.table
    × (u.table.entries ≡ keep (outlives_all w ts) s.table.entries)
    × IsRing u.timers (base + slot_ms)

-- A rotation of a table in order, whose ring is in order, has an outcome: of the entries exactly those
-- go that have a hard timer in the current group, or an idle timer in it and were not used for its
-- timeout, the others stay in their order, and the ring is in order for the next slot. The timers of
-- the group must be those of distinct entries of the table, as many as it counts, which do not have
-- their other timer in it; the idle timers that start again must do so with memory for them and in
-- another group; and the times must fit 64 bits.
pub timer_group_rotate-IsRotated :
    (w : Surroundings) (base : ℕ) (s : Schedule)
    → IsTable s.table
    → IsRing s.timers base
    → base + slot_ms * groups_max < 2 ^ 64
    → (s.timers.groups s.timers.current).num_of_timers
      ≡ length (s.timers.groups s.timers.current).timers
    → All (IsReady w s.timers.current s) (s.timers.groups s.timers.current).timers
    → AreApart (s.timers.groups s.timers.current).timers
    → (u : Schedule) × (timer_group_rotate w s ≡ some u)
      × IsRotated w (s.timers.groups s.timers.current).timers base s u
unfolding timer_group_rotate
timer_group_rotate-IsRotated w base s i r h n d a =
    let (v, x, (j, k, _, o)) = expire_current_group-IsSwept w s i n d a in
    (
      record v { timers = next_group v.timers },
      rw x refl,
      (j, k, next_group-IsRing v.timers base (SameTimes-IsRing s.timers v.timers base o r) h),
    )
