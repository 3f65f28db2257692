-- ===== src/Timers/Stale.antt =====
-- An entry with both of its timers in one group.
use rofl_fork.Base.{
  ◌>>=◌, ℕ, suc, ◌≡◌, ◌≢◌, ◌<◌, ap, ◌∙◌, refl, true, false, List, [], ◌∷◌, none, some, All,
  find_first, ltb, length, arith, success,
}
use rofl_fork.FlowEntry.{FlowEntry, RemoveReason}
use rofl_fork.Loop.{has_addr}
use rofl_fork.Loop.Invariant.{IsTable}
use rofl_fork.Timers.{EntryTimer, hard_to, idle_to}
use rofl_fork.Timers.Clears.{timeout_of, destroy_both_timers-both, is_timer_self, expire-removes}
use rofl_fork.Timers.Expiry.{
  Schedule, Surroundings, head, is_timer, remove_timer, next_timer, expire, destroy_both_timers,
  reschedule_idle_timer, visit, visit_from, destroy_all_entries_from_timer_group,
}
use rofl_fork.Timers.Sweep.{next_timer-head}
use rofl_fork.Timers.Visit.{is_over}

abbrev pub hard_of : ℕ → EntryTimer
hard_of a = record { entry = a; type = hard_to }

abbrev pub idle_of : ℕ → EntryTimer
idle_of a = record { entry = a; type = idle_to }

next_timer-none :
    (t : EntryTimer) (ts : List EntryTimer)
    → All (λ v. is_timer t v ≡ false) ts
    → next_timer t ts ≡ none
unfolding next_timer
next_timer-none t [] n = refl
next_timer-none t (v ∷ ts) n = rw n.0 (next_timer-none t ts n.1)

both_removed :
    (a : ℕ) (ts : List EntryTimer)
    → remove_timer (idle_of a) (remove_timer (hard_of a) (idle_of a ∷ hard_of a ∷ ts)) ≡ ts
unfolding remove_timer
both_removed a ts =
    let y = is_timer_self (hard_of a) in
    let n : is_timer (hard_of a) (idle_of a) ≡ false = ground arith in rw (n, y) refl

visit-idle :
    (w : Surroundings) (p a : ℕ) (e : FlowEntry) (s u : Schedule)
    → find_first (has_addr a) s.table.entries ≡ some e
    → is_over w (idle_of a) e ≡ true
    → expire a RemoveReason.idle_timeout s ≡ some u
    → visit w (idle_of a) p s ≡ some (success, u)
unfolding visit reschedule_idle_timer
visit-idle w p a e s u f o x = rw (x, f, ◌>>=◌, o) refl

visit_from-stale :
    (w : Surroundings) (p a n : ℕ) (ts : List EntryTimer) (s u : Schedule)
    → (s.timers.groups p).timers ≡ idle_of a ∷ hard_of a ∷ ts
    → visit w (idle_of a) p s ≡ some (success, u)
    → (u.timers.groups p).timers ≡ ts
    → All (λ v. is_timer (hard_of a) v ≡ false) ts
    → visit_from (suc (suc n)) w p (some (idle_of a)) s ≡ none
unfolding visit_from
visit_from-stale w p a n ts s u q x l d =
    let next = ap (next_timer (idle_of a)) q ∙ next_timer-head (idle_of a) (hard_of a ∷ ts) in
    let gone = ap (next_timer (hard_of a)) l ∙ next_timer-none (hard_of a) ts d in
    rw (next, ◌>>=◌, x, gone) refl

-- An entry that was not used for its idle timeout, and whose hard timer follows its idle timer in the
-- group that expires, is removed with both timers, after which the loop reads the hard timer, which
-- has been freed.
pub destroy_all_entries-stale :
    (w : Surroundings) (p a : ℕ) (e : FlowEntry) (ts : List EntryTimer) (s : Schedule)
    → IsTable s.table
    → 0 < (s.timers.groups p).num_of_timers
    → (s.timers.groups p).timers ≡ idle_of a ∷ hard_of a ∷ ts
    → All (λ v. is_timer (hard_of a) v ≡ false) ts
    → find_first (has_addr a) s.table.entries ≡ some e
    → timeout_of hard_to e ≢ 0
    → timeout_of idle_to e ≢ 0
    → s.links a hard_to ≡ some p
    → s.links a idle_to ≡ some p
    → is_over w (idle_of a) e ≡ true
    → destroy_all_entries_from_timer_group w p s ≡ none
unfolding destroy_all_entries_from_timer_group visit_from
destroy_all_entries-stale w p a e ts s i n q d f h j l k o =
    let (b, _, _, m, x) = expire-removes a e RemoveReason.idle_timeout s i f in
    let s1 = record s { table = b } in
    let u = (destroy_both_timers e s1).1 in
    let both =
      destroy_both_timers-both e p s1 h j (ap (λ c. s.links c hard_to) m ∙ l)
        (ap (λ c. s.links c idle_to) m ∙ k) in
    let left : (u.timers.groups p).timers ≡ ts =
      both
      ∙ ap (λ c. remove_timer (idle_of c) (remove_timer (hard_of c) (s.timers.groups p).timers)) m
      ∙ ap (λ l. remove_timer (idle_of a) (remove_timer (hard_of a) l)) q
      ∙ both_removed a ts in
    let y : ltb 0 (s.timers.groups p).num_of_timers ≡ true = ground arith in
    let seen = visit-idle w p a e s u f o x in
    rw y (
      ap (λ l. visit_from (length l) w p (head l) s) q
      ∙ visit_from-stale w p a (length ts) ts s u q seen left d)
