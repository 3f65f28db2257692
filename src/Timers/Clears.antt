-- ===== src/Timers/Clears.antt =====
-- What the removal of an entry's timers does, and what it leaves alone.
use rofl_fork.Base.{
  ◌>>=◌, ℕ, ◌≡◌, ◌≢◌, ◌⊎◌, ap, sym, ◌∙◌, refl, Bool, true, false, ◌&&◌, not, Bool-cases, inl, inr,
  List, [], ◌∷◌, ◌++◌, none, some, ◌==◌, ==_iff, find_first, keep, arith, RoflResult, success,
  failure, find_first-FirstAt, some_injective, Option-cases, length, length-append, All_middle,
}
use rofl_fork.FlowEntry.{FlowEntry, RemoveReason}
use rofl_fork.FlowEntry.{port_any}
use rofl_fork.Group.Table.{group_any}
use rofl_fork.Loop.{strict, Table, has_addr, unlink, detach, remove_flow_entry_loop}
use rofl_fork.Loop.Invariant.{AreDistinct, IsFresh, IsTable, PointsTo}
use rofl_fork.Loop.Remove.{remove_specific_middle, detach_middle}
use rofl_fork.Timers.{TimeoutType, hard_to, idle_to, EntryTimer, Timers}
use rofl_fork.Timers.Expiry.{
  Schedule, is_timer, remove_timer, destroy_single_timer_entry_clean, destroy_timer,
  destroy_timer_entries, destroy_both_timers, expire,
}

-- The timeout of a kind that an entry has.
abbrev pub timeout_of : TimeoutType → FlowEntry → ℕ
timeout_of hard_to e = e.timer_info.hard_timeout
timeout_of idle_to e = e.timer_info.idle_timeout

abbrev pub other : TimeoutType → TimeoutType
other hard_to = idle_to
other idle_to = hard_to

-- The groups stand for the same times.
abbrev pub SameTimes : Timers → Timers → Type 0
SameTimes t u = (u.current ≡ t.current) × ((i : ℕ) → (u.groups i).timeout ≡ (t.groups i).timeout)

keep-fresh :
    (a : ℕ) (f : FlowEntry → Bool) (es : List FlowEntry)
    → IsFresh a es
    → keep (λ x. not (has_addr a x && f x)) es ≡ es
unfolding keep
keep-fresh a f [] d = refl
keep-fresh a f (e ∷ es) d = ground (arith, d.0, keep-fresh a f es d.1)

-- The entries of an unlink, by a test that the entry at the address meets.
pub unlink-keep :
    (a : ℕ) (f : FlowEntry → Bool) (es : List FlowEntry) (e : FlowEntry)
    → AreDistinct es
    → find_first (has_addr a) es ≡ some e
    → f e ≡ true
    → unlink a es ≡ keep (λ x. not (has_addr a x && f x)) es
unfolding unlink keep find_first
unlink-keep a f [] e d q y = refl
unlink-keep a f (x ∷ es) e d q y = elim (Bool-cases (has_addr a x)) [
  | inl z ↦
      let h : x ≡ e = some_injective (rw z at q) in
      let g = rw ((==_iff x.addr a).0 z) at d.0 in rw (z, h, y) (sym (keep-fresh a f es g))
  | inr z ↦ rw z (ap (λ l. x ∷ l) (unlink-keep a f es e d.1 (rw z at q) y))
]

-- The test that the entry at the address does not meet removes nothing.
pub keep-same :
    (a : ℕ) (f : FlowEntry → Bool) (es : List FlowEntry) (e : FlowEntry)
    → AreDistinct es
    → find_first (has_addr a) es ≡ some e
    → f e ≡ false
    → keep (λ x. not (has_addr a x && f x)) es ≡ es
unfolding keep find_first
keep-same a f [] e d q n = refl
keep-same a f (x ∷ es) e d q n = elim (Bool-cases (has_addr a x)) [
  | inl z ↦
      let h : x ≡ e = some_injective (rw z at q) in
      let g = rw ((==_iff x.addr a).0 z) at d.0 in
      rw (z, h, n) (ap (λ l. e ∷ l) (keep-fresh a f es g))
  | inr z ↦ rw z (ap (λ l. x ∷ l) (keep-same a f es e d.1 (rw z at q) n))
]

-- What the removal of timers of an entry leaves alone.
abbrev pub Clears : ℕ → Schedule → Schedule → Type 0
Clears a s u =
    (u.table ≡ s.table)
    × SameTimes s.timers u.timers
    × ((b : ℕ) (y : TimeoutType) → b ≢ a → u.links b y ≡ s.links b y)

pub Clears-trans : (a : ℕ) (s u v : Schedule) → Clears a s u → Clears a u v → Clears a s v
Clears-trans a s u v (t, (c, o), l) (t', (c', o'), l') =
    (t' ∙ t, (c' ∙ c, λ i. o' i ∙ o i), λ b y n. l' b y n ∙ l b y n)

pub destroy_timer-Clears :
    (type : TimeoutType) (timeout a : ℕ) (s : Schedule)
    → Clears a s (destroy_timer type timeout a s).1
unfolding destroy_timer destroy_single_timer_entry_clean
destroy_timer-Clears type timeout a s = elim (Bool-cases (timeout == 0)) [
  | inl z ↦ rw z (refl, (refl, λ i. refl), λ b y n. refl)
  | inr m ↦ elim (Option-cases (s.links a type)) [
    | inl q ↦ rw (m, q) (refl, (refl, λ i. refl), λ b y n. refl)
    | inr (p, q) ↦
        rw (m, q)
          (
            refl,
            (refl, λ i. ground arith),
            λ b y n. let z : (b == a) ≡ false = ground arith in rw z refl,
          )
  ]
]

RoflResult-cases : (r : RoflResult) → (r ≡ success) ⊎ (r ≡ failure)
RoflResult-cases success = inl refl
RoflResult-cases failure = inr refl

pub destroy_both_timers-Clears :
    (e : FlowEntry) (s : Schedule) → Clears e.addr s (destroy_both_timers e s).1
unfolding destroy_both_timers
destroy_both_timers-Clears e s =
    let h = destroy_timer hard_to e.timer_info.hard_timeout e.addr s in
    let c = destroy_timer-Clears hard_to e.timer_info.hard_timeout e.addr s in
    elim (RoflResult-cases h.0) [
      | inl y ↦
          let d = destroy_timer-Clears idle_to e.timer_info.idle_timeout e.addr h.1 in
          rw (destroy_both_timers, y)
            (Clears-trans e.addr s h.1
              (destroy_timer idle_to e.timer_info.idle_timeout e.addr h.1).1 c d)
      | inr f ↦ rw (destroy_both_timers, f) c
    ]

destroy_timer_entries-both :
    (e : FlowEntry) (n : ℕ) (s : Schedule)
    → e.table ≡ some n
    → destroy_timer_entries e s ≡ destroy_both_timers e s
unfolding destroy_timer_entries
destroy_timer_entries-both e n s t =
    ap
      (λ o. elim o as (λ _. RoflResult × Schedule) [
        | none ↦ (failure, s)
        | some m ↦ destroy_both_timers e s
      ])
      t

-- A timer in another group.
destroy_timer-apart :
    (type : TimeoutType) (timeout a p q : ℕ) (s : Schedule)
    → q ≢ p
    → (timeout ≢ 0 → s.links a type ≡ some q)
    → ((destroy_timer type timeout a s).0 ≡ success)
      × ((destroy_timer type timeout a s).1.timers.groups p ≡ s.timers.groups p)
unfolding destroy_timer destroy_single_timer_entry_clean
destroy_timer-apart type timeout a p q s n l = elim (Bool-cases (timeout == 0)) [
  | inl z ↦ rw z (refl, refl)
  | inr m ↦
      let k = l (λ z. ground arith) in
      let z : (p == q) ≡ false = ground arith in rw (m, k, z) (refl, refl)
]

-- A timer in the group.
destroy_timer-own :
    (type : TimeoutType) (timeout a p : ℕ) (s : Schedule)
    → timeout ≢ 0
    → s.links a type ≡ some p
    → ((destroy_timer type timeout a s).0 ≡ success)
      × (((destroy_timer type timeout a s).1.timers.groups p).timers
          ≡ remove_timer (record { entry = a; type = type }) (s.timers.groups p).timers)
unfolding destroy_timer destroy_single_timer_entry_clean
destroy_timer-own type timeout a p s n l =
    let m : (timeout == 0) ≡ false = ground arith in
    let z : (p == p) ≡ true = ground arith in rw (m, l, z) (refl, refl)

-- The other timer of the entry keeps its link.
destroy_timer-other :
    (type : TimeoutType) (timeout a : ℕ) (s : Schedule)
    → (destroy_timer type timeout a s).1.links a (other type) ≡ s.links a (other type)
unfolding destroy_timer destroy_single_timer_entry_clean
destroy_timer-other hard_to timeout a s = elim (Bool-cases (timeout == 0)) [
  | inl z ↦ rw z refl
  | inr m ↦ elim (Option-cases (s.links a hard_to)) [
    | inl q ↦ rw (m, q) refl
    | inr (p, q) ↦ rw (m, q) (ground arith)
  ]
]
destroy_timer-other idle_to timeout a s = elim (Bool-cases (timeout == 0)) [
  | inl z ↦ rw z refl
  | inr m ↦ elim (Option-cases (s.links a idle_to)) [
    | inl q ↦ rw (m, q) refl
    | inr (p, q) ↦ rw (m, q) (ground arith)
  ]
]

-- The timers of an entry of a table, of which one is in the group, and the other elsewhere.
pub destroy_both_timers-group :
    (y : TimeoutType) (e : FlowEntry) (p q : ℕ) (s : Schedule)
    → timeout_of y e ≢ 0
    → s.links e.addr y ≡ some p
    → q ≢ p
    → (timeout_of (other y) e ≢ 0 → s.links e.addr (other y) ≡ some q)
    → ((destroy_both_timers e s).1.timers.groups p).timers
      ≡ remove_timer (record { entry = e.addr; type = y }) (s.timers.groups p).timers
unfolding destroy_both_timers
destroy_both_timers-group hard_to e p q s h l a o =
    let timeout = e.timer_info.hard_timeout in
    let own = destroy_timer-own hard_to timeout e.addr p s h l in
    let u = (destroy_timer hard_to timeout e.addr s).1 in
    let keeps = destroy_timer-other hard_to timeout e.addr s in
    let idle =
      destroy_timer-apart idle_to e.timer_info.idle_timeout e.addr p q u a (λ z. keeps ∙ o z) in
    rw (destroy_both_timers, own.0) (ap (λ g. g.timers) idle.1 ∙ own.1)
destroy_both_timers-group idle_to e p q s h l a o =
    let timeout = e.timer_info.hard_timeout in
    let hard = destroy_timer-apart hard_to timeout e.addr p q s a o in
    let u = (destroy_timer hard_to timeout e.addr s).1 in
    let keeps = destroy_timer-other hard_to timeout e.addr s in
    let own = destroy_timer-own idle_to e.timer_info.idle_timeout e.addr p u h (keeps ∙ l) in
    rw (destroy_both_timers, hard.0)
      (own.1 ∙ ap (λ g. remove_timer (record { entry = e.addr; type = idle_to }) g.timers) hard.1)

self :
    (a : ℕ) (y : TimeoutType)
    → is_timer (record { entry = a; type = y }) (record { entry = a; type = y }) ≡ true
self a hard_to = ground arith
self a idle_to = ground arith

pub is_timer_self : (t : EntryTimer) → is_timer t t ≡ true
is_timer_self t = self t.entry t.type

pub remove_timer-head : (t : EntryTimer) (ts : List EntryTimer) → remove_timer t (t ∷ ts) ≡ ts
unfolding remove_timer
remove_timer-head t ts = let y : is_timer t t ≡ true = is_timer_self t in rw y refl

remove_loop-some :
    (t : Table) (ks : List FlowEntry) (e : FlowEntry) (es : List FlowEntry) (cause : RemoveReason)
    → IsTable t
    → t.entries ≡ ks ++ e ∷ es
    → remove_flow_entry_loop t none (some e) strict port_any group_any cause
      ≡ (success, detach t e cause)
unfolding remove_flow_entry_loop
remove_loop-some t ks e es cause i w = remove_specific_middle t ks e es cause i w

-- The removal of an entry of a table in order, and of its timers.
pub expire-removes :
    (a : ℕ) (e : FlowEntry) (cause : RemoveReason) (s : Schedule)
    → IsTable s.table
    → find_first (has_addr a) s.table.entries ≡ some e
    → (t : Table) × IsTable t
      × (t.entries ≡ unlink a s.table.entries)
      × (e.addr ≡ a)
      × (expire a cause s ≡ some (destroy_both_timers e (record s { table = t })).1)
unfolding expire detach
expire-removes a e cause s i q =
    let (ks, es, w, _, y) = find_first-FirstAt _ s.table.entries e q in
    let t = detach s.table e cause in
    let r = remove_loop-some s.table ks e es cause i w in
    let (j, _) = detach_middle s.table ks e es cause i w in
    let count = i.count ∙ ap length w ∙ length-append ks (e ∷ es) in
    let m : (s.table.num_of_entries == 0) ≡ false = ground arith in
    let points = All_middle (PointsTo s.table.number) ks e es (rw w at i.points) in
    let both = destroy_timer_entries-both e s.table.number (record s { table = t }) points in
    let over =
      λ (x : RoflResult × Table). some (destroy_timer_entries e (record s { table = x.1 })).1 in
    let last = ap (λ (u : RoflResult × Schedule). some u.1) both in
    let same = (==_iff e.addr a).0 y in
    (t, j, ap (λ b. unlink b s.table.entries) same, same, rw (m, q, ◌>>=◌, r) (ap over r ∙ last))

-- The timers of an entry that are both in the group.
pub destroy_both_timers-both :
    (e : FlowEntry) (p : ℕ) (s : Schedule)
    → timeout_of hard_to e ≢ 0
    → timeout_of idle_to e ≢ 0
    → s.links e.addr hard_to ≡ some p
    → s.links e.addr idle_to ≡ some p
    → ((destroy_both_timers e s).1.timers.groups p).timers
      ≡ remove_timer
          (record { entry = e.addr; type = idle_to })
          (remove_timer (record { entry = e.addr; type = hard_to }) (s.timers.groups p).timers)
unfolding destroy_both_timers
destroy_both_timers-both e p s h i l k =
    let hard = destroy_timer-own hard_to e.timer_info.hard_timeout e.addr p s h l in
    let u = (destroy_timer hard_to e.timer_info.hard_timeout e.addr s).1 in
    let keeps = destroy_timer-other hard_to e.timer_info.hard_timeout e.addr s in
    let idle = destroy_timer-own idle_to e.timer_info.idle_timeout e.addr p u i (keeps ∙ k) in
    rw (destroy_both_timers, hard.0)
      (idle.1 ∙ ap (remove_timer (record { entry = e.addr; type = idle_to })) hard.1)
